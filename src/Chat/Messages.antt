-- ===== src/Chat/Messages.antt =====
-- server/src/chat/index.ts: the messages of a group, their event log and their reactions. Whether
-- someone is a member, and whether they can see a message, is decided by other parts, and is an
-- argument. The one supported emoji is left out of a reaction, and the message that is sent back with
-- a reaction is left out of its answer.
pub mod Created
pub mod Again
pub mod Reacted
mod Tests
use rewind_app.Common.{
  ℕ, ◌+◌, Bool, true, false, not, ◌&&◌, Option, none, some, List, [], ◌∷◌, ◌++◌, leb, ◌==◌, same,
  is_some, if◌then◌else◌, keep, find, any, count, fmap, DateValue,
}

abbrev pub chat_message_max_length : ℕ
chat_message_max_length = 2000

-- A trimmed text, and its length.
pub record Body : Type 0 where
  pub text : ℕ
  pub text_length : ℕ

pub record MessageRow : Type 0 where
  pub id : ℕ
  pub group_id : ℕ
  pub member_id : ℕ
  pub body : ℕ
  pub created_at : ℕ
  pub reply_to_message_id : Option ℕ

pub record LogRow : Type 0 where
  pub id : ℕ
  pub group_id : ℕ
  pub message_id : ℕ
  pub occurred_at : ℕ

pub record ReactionRow : Type 0 where
  pub message_id : ℕ
  pub member_id : ℕ

-- `next_event` is the next value of the identity column of `realtime_events`.
pub record ChatState : Type 0 where
  pub messages : List MessageRow
  pub events : List LogRow
  pub reactions : List ReactionRow
  pub next_event : ℕ

pub record ChatReplyContext : Type 0 where
  pub id : ℕ
  pub member_id : ℕ
  pub body : ℕ
  pub created_at : ℕ

pub record ChatMessageEvent : Type 0 where
  pub event_id : ℕ
  pub occurred_at : ℕ
  pub message_id : ℕ
  pub group_id : ℕ
  pub member_id : ℕ
  pub body : ℕ
  pub created_at : ℕ
  pub reply_to : Option ChatReplyContext
  pub reaction_count : ℕ

-- `body` is `none` where there is no text but blanks, `now` is the clock in the transaction.
pub record CreateChatMessageInput : Type 0 where
  pub group_id : ℕ
  pub member_id : ℕ
  pub body : Option Body
  pub now : DateValue
  pub message_id : ℕ
  pub reply_to_message_id : Option ℕ

pub data ChatError : Type 0 where
  membership_denied empty_body body_too_long invalid_timestamp duplicate_message : ChatError
  reply_not_found nested_reply_not_allowed message_not_found : ChatError

pub data CreateResult : Type 0 where
  created deduplicated : ChatMessageEvent → CreateResult
  rejected : ChatError → CreateResult

abbrev pub is_message : ℕ → MessageRow → Bool
is_message id m = m.id == id

abbrev pub is_event_of : ℕ → LogRow → Bool
is_event_of message_id e = e.message_id == message_id

abbrev pub reply_context : MessageRow → ChatReplyContext
reply_context m = record {
  id = m.id;
  member_id = m.member_id;
  body = m.body;
  created_at = m.created_at;
}

-- `LEFT JOIN messages parent`.
abbrev pub parent_of : ChatState → Option ℕ → Option MessageRow
parent_of s none = none
parent_of s (some id) = find (is_message id) s.messages

unfoldable pub reaction_count : ChatState → ℕ → ℕ
reaction_count s message_id = count (λ (r : ReactionRow). r.message_id == message_id) s.reactions

unfoldable pub map_event : ChatState → MessageRow → LogRow → ℕ → ChatMessageEvent
map_event s m e reactions = record {
  event_id = e.id;
  occurred_at = e.occurred_at;
  message_id = m.id;
  group_id = m.group_id;
  member_id = m.member_id;
  body = m.body;
  created_at = m.created_at;
  reply_to = fmap reply_context (parent_of s m.reply_to_message_id);
  reaction_count = reactions;
}

abbrev pub parent_id : ChatState → MessageRow → Option ℕ
parent_id s m = fmap (λ (p : MessageRow). p.id) (parent_of s m.reply_to_message_id)

abbrev pub is_same_request : ChatState → CreateChatMessageInput → Body → MessageRow → Bool
is_same_request s input body m =
    (m.group_id == input.group_id)
    && (m.member_id == input.member_id)
    && (m.body == body.text)
    && same input.reply_to_message_id (parent_id s m)

unfoldable pub retry_message :
    CreateChatMessageInput → Body → MessageRow → ChatState → ChatState × CreateResult
unfolding map_event reaction_count
retry_message input body m s =
    if is_same_request s input body m
    then (elim (find (is_event_of m.id) s.events) [
      | none ↦ (s, rejected duplicate_message)
      | some e ↦ (s, deduplicated (map_event s m e (reaction_count s m.id)))
    ])
    else (s, rejected duplicate_message)

abbrev pub new_message : CreateChatMessageInput → Body → ℕ → MessageRow
new_message input body now = record {
  id = input.message_id;
  group_id = input.group_id;
  member_id = input.member_id;
  body = body.text;
  created_at = now;
  reply_to_message_id = input.reply_to_message_id;
}

abbrev pub new_event : CreateChatMessageInput → ℕ → ℕ → LogRow
new_event input event_id now = record {
  id = event_id;
  group_id = input.group_id;
  message_id = input.message_id;
  occurred_at = now;
}

-- The event of a reply is read back from the tables, that of a plain message has no parent.
unfoldable pub insert_message :
    CreateChatMessageInput → Body → ℕ → ChatState → ChatState × CreateResult
unfolding map_event
insert_message input body now s =
    let s' : ChatState = record s {
      messages = s.messages ++ new_message input body now ∷ [];
      events = s.events ++ new_event input s.next_event now ∷ [];
      next_event = s.next_event + 1;
    } in
    (s', created (map_event s' (new_message input body now) (new_event input s.next_event now) 0))

module _ (is_member : ℕ → ℕ → Bool) (can_interact : ℕ → MessageRow → Bool) where
  -- What is wrong with the message that is replied to.
  unfoldable pub reply_error : CreateChatMessageInput → ChatState → Option ChatError
  reply_error input s = elim input.reply_to_message_id [
    | none ↦ none
    | some id ↦
        elim (find (λ (m : MessageRow). is_message id m && (m.group_id == input.group_id))
          s.messages) [
            | none ↦ some reply_not_found
            | some parent ↦
                if can_interact input.member_id parent
                then (if is_some parent.reply_to_message_id
                    then some nested_reply_not_allowed
                    else none)
                else some reply_not_found
          ]
  ]

  unfoldable pub create_locked :
      CreateChatMessageInput → Body → ℕ → ChatState → ChatState × CreateResult
  unfolding reply_error retry_message insert_message
  create_locked input body now s = elim (reply_error input s) [
    | some error ↦ (s, rejected error)
    | none ↦ elim (find (is_message input.message_id) s.messages) [
      | some m ↦ retry_message input body m s
      | none ↦ insert_message input body now s
    ]
  ]

  unfoldable pub create_chat_message : CreateChatMessageInput → ChatState → ChatState × CreateResult
  unfolding create_locked
  create_chat_message input s =
      if is_member input.group_id input.member_id
      then (elim input.body [
        | none ↦ (s, rejected empty_body)
        | some body ↦
            if leb body.text_length chat_message_max_length
            then (elim input.now [
              | none ↦ (s, rejected invalid_timestamp)
              | some now ↦ create_locked input body now s
            ])
            else (s, rejected body_too_long)
      ])
      else (s, rejected membership_denied)

pub record ToggleChatReactionInput : Type 0 where
  pub group_id : ℕ
  pub member_id : ℕ
  pub message_id : ℕ
  pub supported : Bool
  pub active : Option Bool
  pub now : DateValue

pub data ToggleError : Type 0 where
  denied unsupported_reaction invalid_instant no_message : ToggleError

pub data ToggleResult : Type 0 where
  toggled : (active : Bool) (total : ℕ) → ToggleResult
  refused : ToggleError → ToggleResult

abbrev pub is_reaction : ℕ → ℕ → ReactionRow → Bool
is_reaction message_id member_id r = (r.message_id == message_id) && (r.member_id == member_id)

abbrev pub has_reaction : ChatState → ℕ → ℕ → Bool
has_reaction s message_id member_id = any (is_reaction message_id member_id) s.reactions

-- `INSERT OR IGNORE`, or `DELETE`.
unfoldable pub set_reaction : Bool → ℕ → ℕ → ChatState → ChatState
set_reaction true message_id member_id s = record s {
  reactions =
      if has_reaction s message_id member_id
      then s.reactions
      else s.reactions ++ record { message_id = message_id; member_id = member_id } ∷ [];
}
set_reaction false message_id member_id s = record s {
  reactions = keep (λ (r : ReactionRow). not (is_reaction message_id member_id r)) s.reactions;
}

abbrev pub asked_state : Option Bool → Bool → Bool
asked_state none present = not present
asked_state (some active) present = active

module _ (is_member : ℕ → ℕ → Bool) (can_interact : ℕ → MessageRow → Bool) where
  abbrev pub can_react : ToggleChatReactionInput → Option MessageRow → Bool
  can_react input none = false
  can_react input (some m) = can_interact input.member_id m

  unfoldable pub toggle_chat_reaction :
      ToggleChatReactionInput → ChatState → ChatState × ToggleResult
  unfolding set_reaction reaction_count
  toggle_chat_reaction input s =
      if is_member input.group_id input.member_id
      then (if input.supported
          then (if is_some input.now
              then (if can_react input (
                    find
                      (λ (m : MessageRow).
                        is_message input.message_id m && (m.group_id == input.group_id))
                      s.messages)
                  then (let active =
                        asked_state input.active
                          (has_reaction s input.message_id input.member_id) in
                      let s' = set_reaction active input.message_id input.member_id s in
                      (s', toggled active (reaction_count s' input.message_id)))
                  else (s, refused no_message))
              else (s, refused invalid_instant))
          else (s, refused unsupported_reaction))
      else (s, refused denied)
