-- ===== src/Groups.antt =====
-- server/src/groups: who is in a group.
pub mod Throttle
pub mod Invites
