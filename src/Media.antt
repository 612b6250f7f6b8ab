-- ===== src/Media.antt =====
-- server/src/media: the bounds on what is served at once.
pub mod ServingBudget
