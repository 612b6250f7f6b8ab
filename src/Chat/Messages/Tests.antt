-- ===== src/Chat/Messages/Tests.antt =====
-- server/src/chat/index.ts: runs of the calls on a message with a reply and two reactions.
use rewind_app.Common.{
  ℕ, ◌≡◌, refl, Bool, true, false, ◌&&◌, Option, none, some, List, [], ◌∷◌, ltb, ◌==◌, arith,
}
use rewind_app.Chat.Messages.{
  MessageRow, LogRow, ChatState, ChatMessageEvent, CreateChatMessageInput, deduplicated, rejected,
  reply_not_found, nested_reply_not_allowed, duplicate_message, reaction_count, reply_error,
  retry_message, insert_message, create_locked, create_chat_message, map_event,
  ToggleChatReactionInput, set_reaction, toggle_chat_reaction,
}
use rewind_app.Chat.Messages.Again.{Call, creates, toggles, after_calls, create_again}
use rewind_app.Chat.Messages.Reacted.{Sets, toggle-Sets}

abbrev members : ℕ → ℕ → Bool
members group member = (group == 1) && ltb member 10

abbrev all_interact : ℕ → MessageRow → Bool
all_interact member m = true

abbrev message : ℕ → Option ℕ → MessageRow
message id parent = record {
  id = id;
  group_id = 1;
  member_id = 2;
  body = 70;
  created_at = 1000;
  reply_to_message_id = parent;
}

abbrev event : ℕ → ℕ → LogRow
event id message_id = record { id = id; group_id = 1; message_id = message_id; occurred_at = 1000 }

abbrev chat : ChatState
chat = record {
  messages = message 5 none ∷ message 6 (some 5) ∷ [];
  events = event 1 5 ∷ event 2 6 ∷ [];
  reactions =
      record { message_id = 5; member_id = 2 } ∷ record { message_id = 5; member_id = 3 } ∷ [];
  next_event = 3;
}

abbrev request : ℕ → Option ℕ → CreateChatMessageInput
request id parent = record {
  group_id = 1;
  member_id = 3;
  body = some (record { text = 90; text_length = 12 });
  now = some 5000;
  message_id = id;
  reply_to_message_id = parent;
}

abbrev reply_event : ChatMessageEvent
reply_event = record {
  event_id = 3;
  occurred_at = 5000;
  message_id = 7;
  group_id = 1;
  member_id = 3;
  body = 90;
  created_at = 5000;
  reply_to = some (record { id = 5; member_id = 2; body = 70; created_at = 1000 });
  reaction_count = 0;
}

abbrev toggle : ToggleChatReactionInput
toggle = record {
  group_id = 1;
  member_id = 3;
  message_id = 5;
  supported = true;
  active = none;
  now = some 6000;
}

abbrev between : List Call
between =
    creates members all_interact (request 8 none)
    ∷ toggles members all_interact (record toggle { message_id = 7; member_id = 2 })
    ∷ []

create_again_example :
    let after =
      after_calls between (create_chat_message members all_interact (request 7 (some 5)) chat).0 in
    create_chat_message members all_interact (record (request 7 (some 5)) { now = some 9000 }) after
    ≡ (after, deduplicated (record reply_event { reaction_count = reaction_count after 7 }))
unfolding create_chat_message create_locked reply_error insert_message map_event
create_again_example =
    create_again members all_interact (request 7 (some 5)) chat reply_event 9000 between refl refl

reacted_by_then :
    reaction_count
      (after_calls between (create_chat_message members all_interact (request 7 (some 5)) chat).0)
      7
    ≡ 1
unfolding reaction_count after_calls create_chat_message create_locked reply_error insert_message
    toggle_chat_reaction set_reaction
reacted_by_then = refl

-- A reply to a reply, and to a message that is not there, is refused; so is an identifier in use.
refusals :
    ((create_chat_message members all_interact (request 8 (some 6)) chat).1
      ≡ rejected nested_reply_not_allowed)
    × ((create_chat_message members all_interact (request 8 (some 9)) chat).1
        ≡ rejected reply_not_found)
    × ((create_chat_message members all_interact (request 6 (some 5)) chat).1
        ≡ rejected duplicate_message)
unfolding create_chat_message create_locked reply_error retry_message
refusals = (refl, refl, refl)

toggle-Sets_example :
    Sets toggle false 1 5 2 chat (toggle_chat_reaction members all_interact toggle chat).0
unfolding toggle_chat_reaction set_reaction reaction_count
toggle-Sets_example =
    toggle-Sets members all_interact toggle chat false 1 5 2 refl (omega arith) refl
