-- ===== src/Cycles.antt =====
-- server/src/cycles: the timing of a cycle and its life from collecting to archived.
pub mod Engine
pub mod Lifecycle
