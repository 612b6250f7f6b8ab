-- ===== src/Chat/Unread.antt =====
-- src/chat/unread-store.ts: the unread count of one chat scope. Identifiers are numbers; an event's
-- `eventId` is what `Number(...)` made of the payload.
pub mod Replay
pub mod Counts
mod Tests
use rewind_app.Common.{
  ℕ, ◌+◌, Bool, true, false, not, Option, none, some, List, [], ◌∷◌, leb, ◌==◌, if◌then◌else◌, fmap,
  Number, max_safe_integer, safe_within,
}

pub record ChatUnreadScope : Type 0 where
  pub session_id : ℕ
  pub group_id : ℕ
  pub member_id : ℕ

pub record ChatUnreadEvent : Type 0 where
  pub event_id : Number
  pub group_id : ℕ
  pub member_id : ℕ

pub record ChatUnreadSnapshot : Type 0 where
  pub unread_count : ℕ
  pub last_event_id : ℕ
  pub has_checkpoint : Bool

unfoldable pub initial_chat_unread : ChatUnreadSnapshot
initial_chat_unread = record { unread_count = 0; last_event_id = 0; has_checkpoint = false }

pub data ChatUnreadApplication : Type 0 where
  ignored_invalid ignored_foreign ignored_duplicate ignored_own counted read : ChatUnreadApplication

-- A payload is an object or not, with a `message` that is an object or not, whose identifiers are
-- texts or not.
pub record MessageFields : Type 0 where
  pub group_id : Option ℕ
  pub member_id : Option ℕ

pub record Payload : Type 0 where
  pub event_id : Number
  pub message : Option MessageFields

unfoldable pub project_chat_unread_event : Option Payload → Option ChatUnreadEvent
project_chat_unread_event none = none
project_chat_unread_event (some event) = elim event.message [
  | none ↦ none
  | some fields ↦ (elim fields.group_id [
    | none ↦ none
    | some g ↦
        fmap (λ m. record { event_id = event.event_id; group_id = g; member_id = m })
          fields.member_id
  ])
]

abbrev with_watermark :
    ChatUnreadSnapshot → ℕ → ChatUnreadApplication → ChatUnreadSnapshot × ChatUnreadApplication
with_watermark s event_id applied =
    (record s { last_event_id = event_id; has_checkpoint = true }, applied)

abbrev read_now : ℕ → ChatUnreadSnapshot
read_now event_id = record { unread_count = 0; last_event_id = event_id; has_checkpoint = true }

abbrev pub counted_now : ChatUnreadSnapshot → ℕ → ChatUnreadSnapshot
counted_now s event_id = record {
  unread_count = s.unread_count + 1;
  last_event_id = event_id;
  has_checkpoint = true;
}

unfoldable pub record_chat_unread_event :
    ChatUnreadSnapshot
    → ChatUnreadEvent
    → ChatUnreadScope
    → Bool
    → ChatUnreadSnapshot × ChatUnreadApplication
record_chat_unread_event s event scope chat_active =
    elim (safe_within 1 max_safe_integer event.event_id) [
      | none ↦ (s, ignored_invalid)
      | some n ↦
          if not (event.group_id == scope.group_id)
          then (s, ignored_foreign)
          else (if leb n s.last_event_id
              then (s, ignored_duplicate)
              else (if event.member_id == scope.member_id
                  then with_watermark s n ignored_own
                  else (if chat_active then (read_now n, read) else (counted_now s n, counted))))
    ]

unfoldable pub mark_chat_scope_read : ChatUnreadSnapshot → ChatUnreadSnapshot
mark_chat_scope_read s = if s.unread_count == 0 then s else record {
  unread_count = 0;
  last_event_id = s.last_event_id;
  has_checkpoint = s.has_checkpoint;
}

-- The events of a stream, one by one, each with whether the chat was visible at it.
unfoldable pub record_all :
    ChatUnreadScope → ChatUnreadSnapshot → List (ChatUnreadEvent × Bool) → ChatUnreadSnapshot
unfolding record_chat_unread_event
record_all scope s [] = s
record_all scope s (e ∷ es) = record_all scope (record_chat_unread_event s e.0 scope e.1).0 es
