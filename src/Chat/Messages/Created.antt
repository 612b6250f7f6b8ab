-- ===== src/Chat/Messages/Created.antt =====
-- server/src/chat/index.ts: a message that is sent again is not stored again.
use rewind_app.Common.{
  ℕ, ◌≡◌, inl, inr, Bool, true, ◌&&◌, none, some, leb, ◌==◌, find, Option-cases, Bool-cases, arith,
}
use rewind_app.Chat.Messages.{
  Body, MessageRow, ChatState, ChatMessageEvent, CreateChatMessageInput, created,
  chat_message_max_length, is_message, retry_message, insert_message, reply_error, create_locked,
  create_chat_message,
}

module _ (is_member : ℕ → ℕ → Bool) (can_interact : ℕ → MessageRow → Bool) where
  abbrev pub in_group_of : CreateChatMessageInput → ℕ → MessageRow → Bool
  in_group_of input id m = is_message id m && (m.group_id == input.group_id)

  -- A message that is accepted, with what the checks read.
  pub record Accepts (input : CreateChatMessageInput) (s : ChatState) (ev : ChatMessageEvent)
      : Type 0 where
    pub body : Body
    pub now : ℕ
    pub of_member : is_member input.group_id input.member_id ≡ true
    pub of_body : input.body ≡ some body
    pub short : leb body.text_length chat_message_max_length ≡ true
    pub at : input.now ≡ some now
    pub reply_fine : reply_error is_member can_interact input s ≡ none
    pub is_new : find (is_message input.message_id) s.messages ≡ none
    pub goes : create_chat_message is_member can_interact input s ≡ insert_message input body now s
    pub event : (insert_message input body now s).1 ≡ created ev

  pub create-Accepts :
      (input : CreateChatMessageInput) (s : ChatState) (ev : ChatMessageEvent)
      → (create_chat_message is_member can_interact input s).1 ≡ created ev
      → Accepts input s ev
  unfolding create_chat_message create_locked retry_message
  create-Accepts input s ev e = elim (Bool-cases (is_member input.group_id input.member_id)) [
    | inr f ↦ absurd (ground (arith, f, e))
    | inl m ↦ elim (Option-cases input.body) [
      | inl n ↦ absurd (ground (arith, m, n, e))
      | inr (body, b) ↦ elim (Bool-cases (leb body.text_length chat_message_max_length)) [
        | inr f ↦ absurd (ground (arith, m, b, f, e))
        | inl l ↦ elim (Option-cases input.now) [
          | inl n ↦ absurd (ground (arith, m, b, l, n, e))
          | inr (now, t) ↦ elim (Option-cases (reply_error is_member can_interact input s)) [
            | inr (error, r) ↦ absurd (ground (arith, m, b, l, t, r, e))
            | inl r ↦ elim (Option-cases (find (is_message input.message_id) s.messages)) [
              | inr (old, o) ↦ absurd (ground (arith, m, b, l, t, r, o, e))
              | inl o ↦ record {
                body = body;
                now = now;
                of_member = m;
                of_body = b;
                short = l;
                at = t;
                reply_fine = r;
                is_new = o;
                goes = ground (arith, m, b, l, t, r, o);
                event = ground (arith, m, b, l, t, r, o, e);
              }
            ]
          ]
        ]
      ]
    ]
  ]
