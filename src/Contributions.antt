-- ===== src/Contributions.antt =====
-- server/src/contributions: the weekly allowance of a member, and the deletion of a clip.
pub mod Quota
pub mod Deletion
