-- ===== src/Chat.antt =====
-- server/src/chat: the messages of a group. src/chat: what the app knows of messages that were not
-- read, and of their reactions.
pub mod Messages
pub mod Unread
pub mod Reactions
