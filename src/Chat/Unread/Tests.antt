-- ===== src/Chat/Unread/Tests.antt =====
-- Tests and instances for src/chat/unread-store.ts.
use rewind_app.Common.{
  ℕ, ◌≡◌, refl, Bool, true, false, none, some, List, [], ◌∷◌, Memᴰ, arith, whole,
}
use rewind_app.Chat.Unread.{
  ChatUnreadScope, ChatUnreadEvent, ChatUnreadSnapshot, record_chat_unread_event, record_all,
  ignored_foreign, project_chat_unread_event,
}
use rewind_app.Chat.Unread.Counts.{unread, own, again, ended, record_all-counts}

abbrev scope : ChatUnreadScope
scope = record { session_id = 1; group_id = 2; member_id = 3 }

abbrev message : ℕ → ℕ → ChatUnreadEvent
message id member_id = record { event_id = whole id; group_id = 2; member_id = member_id }

abbrev fresh : ChatUnreadSnapshot
fresh = record { unread_count = 0; last_event_id = 0; has_checkpoint = false }

foreign :
    (record_chat_unread_event fresh
      (record { event_id = whole 5; group_id = 9; member_id = 4 })
      scope
      false).1
    ≡ ignored_foreign
unfolding record_chat_unread_event
foreign = refl

without_member :
    project_chat_unread_event (
      some (record {
        event_id = whole 5;
        message = some (record { group_id = some 2; member_id = none });
      }))
    ≡ none
unfolding project_chat_unread_event
without_member = refl

abbrev stream : List (ChatUnreadEvent × Bool)
stream = (message 5 4, false) ∷ (message 6 3, false) ∷ (message 8 4, false) ∷ []

two_unread :
    record_all scope fresh stream
    ≡ record { unread_count = 2; last_event_id = 8; has_checkpoint = true }
unfolding record_all record_chat_unread_event
two_unread = refl

abbrev replayed : List (ChatUnreadEvent × Bool)
replayed = (message 8 4, true) ∷ (message 5 4, false) ∷ []

abbrev delivered : List (ChatUnreadEvent × Bool)
delivered =
    (message 5 4, false) ∷ (message 6 3, false) ∷ (message 8 4, false) ∷ (message 5 4, true) ∷ []

-- Two unread messages with one of the reader's own between them, and the first delivered again.
record_all-counts_example : (record_all scope fresh delivered).unread_count ≡ 2
record_all-counts_example = record_all-counts scope fresh delivered 2 (
    unread 5 (record { numbered = refl; above = omega arith; safe = omega arith; of_group = refl })
      refl
      (own 6 (record { numbered = refl; above = omega arith; safe = omega arith; of_group = refl })
        refl
        (unread 8
          (record { numbered = refl; above = omega arith; safe = omega arith; of_group = refl })
          refl (again (Memᴰ.tail (Memᴰ.tail (Memᴰ.head refl))) ended))))
