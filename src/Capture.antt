-- ===== src/Capture.antt =====
-- src/capture: a recorded clip on the device, and what becomes of it.
pub mod Interruption
pub mod Uploader
