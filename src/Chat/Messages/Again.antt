-- ===== src/Chat/Messages/Again.antt =====
-- server/src/chat/index.ts: a message that is sent again, after other calls, is not stored again.
use rewind_app.Common.{
  ℕ, ◌+◌, ◌≡◌, refl, ap, ◌∙◌, subst, inl, inr, Bool, true, false, none, some, List, [], ◌∷◌, ◌++◌,
  leb, ==_refl, ==_iff, same, same_refl, find, find_sound, find-append, find-weaken, fmap,
  Option-cases, arith,
}
use rewind_app.Chat.Messages.{
  Body, MessageRow, LogRow, ChatState, ChatMessageEvent, CreateChatMessageInput, CreateResult,
  created, deduplicated, rejected, chat_message_max_length, is_message, is_event_of, parent_of,
  reaction_count, map_event, is_same_request, retry_message, new_message, new_event, insert_message,
  reply_error, create_locked, create_chat_message,
}
use rewind_app.Chat.Messages.{
  ToggleChatReactionInput, reply_context, asked_state, has_reaction, set_reaction,
  toggle_chat_reaction,
}
use rewind_app.Chat.Messages.Created.{Accepts, create-Accepts, in_group_of}

-- The messages and the events that are found in one state are found in the other.
pub record Keeps (s t : ChatState) : Type 0 where
  pub of_messages :
      (p : MessageRow → Bool) (m : MessageRow)
      → find p s.messages ≡ some m
      → find p t.messages ≡ some m
  pub of_events :
      (p : LogRow → Bool) (e : LogRow) → find p s.events ≡ some e → find p t.events ≡ some e

Keeps-refl : (s : ChatState) → Keeps s s
Keeps-refl s = record { of_messages = λ p m e. e; of_events = λ p m e. e }

Keeps-trans : {s t u : ChatState} → Keeps s t → Keeps t u → Keeps s u
Keeps-trans k l = record {
  of_messages = λ p m e. l.of_messages p m (k.of_messages p m e);
  of_events = λ p m e. l.of_events p m (k.of_events p m e);
}

insert-Keeps :
    (input : CreateChatMessageInput) (body : Body) (now : ℕ) (s : ChatState)
    → Keeps s (insert_message input body now s).0
unfolding insert_message
insert-Keeps input body now s = record {
  of_messages =
      λ p m e. ground (arith, e, find-append p s.messages (new_message input body now ∷ []));
  of_events =
      λ p m e. ground (arith, e, find-append p s.events (new_event input s.next_event now ∷ []));
}

set-Keeps :
    (on : Bool) (message_id member_id : ℕ) (s : ChatState)
    → Keeps s (set_reaction on message_id member_id s)
unfolding set_reaction
set-Keeps true message_id member_id s = record { of_messages = λ p m e. e; of_events = λ p m e. e }
set-Keeps false message_id member_id s = record { of_messages = λ p m e. e; of_events = λ p m e. e }

toggle-Keeps :
    (is_member : ℕ → ℕ → Bool) (can_interact : ℕ → MessageRow → Bool)
    (input : ToggleChatReactionInput) (s : ChatState)
    → Keeps s (toggle_chat_reaction is_member can_interact input s).0
unfolding toggle_chat_reaction
toggle-Keeps is_member can_interact input s =
    let active = asked_state input.active (has_reaction s input.message_id input.member_id) in
    ground (arith, set-Keeps active input.message_id input.member_id s, Keeps-refl s)

locked-Keeps :
    (is_member : ℕ → ℕ → Bool) (can_interact : ℕ → MessageRow → Bool)
    (input : CreateChatMessageInput) (body : Body) (now : ℕ) (s : ChatState)
    → Keeps s (create_locked is_member can_interact input body now s).0
unfolding create_locked retry_message
locked-Keeps is_member can_interact input body now s =
    elim (Option-cases (reply_error is_member can_interact input s)) [
      | inr (error, r) ↦ ground (arith, r, Keeps-refl s)
      | inl r ↦ elim (Option-cases (find (is_message input.message_id) s.messages)) [
        | inl n ↦ ground (arith, r, n, insert-Keeps input body now s)
        | inr (m, f) ↦ elim (Option-cases (find (is_event_of m.id) s.events)) [
          | inl n ↦ ground (arith, r, f, n, Keeps-refl s)
          | inr (e, g) ↦ ground (arith, r, f, g, Keeps-refl s)
        ]
      ]
    ]

create-Keeps :
    (is_member : ℕ → ℕ → Bool) (can_interact : ℕ → MessageRow → Bool)
    (input : CreateChatMessageInput) (s : ChatState)
    → Keeps s (create_chat_message is_member can_interact input s).0
unfolding create_chat_message
create-Keeps is_member can_interact input s = elim (Option-cases input.body) [
  | inl n ↦ ground (arith, n, Keeps-refl s)
  | inr (body, b) ↦ elim (Option-cases input.now) [
    | inl n ↦ ground (arith, b, n, Keeps-refl s)
    | inr (now, n) ↦
        ground (arith, b, n, Keeps-refl s, locked-Keeps is_member can_interact input body now s)
  ]
]

-- A call to store a message or to toggle a reaction, with who is a member and who sees what then.
pub data Call : Type 0 where
  creates :
      (is_member : ℕ → ℕ → Bool) (can_interact : ℕ → MessageRow → Bool)
      → CreateChatMessageInput
      → Call
  toggles :
      (is_member : ℕ → ℕ → Bool) (can_interact : ℕ → MessageRow → Bool)
      → ToggleChatReactionInput
      → Call

unfoldable pub after_call : Call → ChatState → ChatState
after_call (creates is_member can_interact input) s =
    (create_chat_message is_member can_interact input s).0
after_call (toggles is_member can_interact input) s =
    (toggle_chat_reaction is_member can_interact input s).0

unfoldable pub after_calls : List Call → ChatState → ChatState
unfolding after_call
after_calls [] s = s
after_calls (k ∷ ks) s = after_calls ks (after_call k s)

after_calls-Keeps : (ks : List Call) (s : ChatState) → Keeps s (after_calls ks s)
unfolding after_calls after_call
after_calls-Keeps [] s = Keeps-refl s
after_calls-Keeps (creates is_member can_interact input ∷ ks) s =
    Keeps-trans (create-Keeps is_member can_interact input s) (after_calls-Keeps ks _)
after_calls-Keeps (toggles is_member can_interact input ∷ ks) s =
    Keeps-trans (toggle-Keeps is_member can_interact input s) (after_calls-Keeps ks _)

module _ (is_member : ℕ → ℕ → Bool) (can_interact : ℕ → MessageRow → Bool) where
  -- A reply stays fine, and its parent is read back under its identifier.
  pub record KeepsReply (input : CreateChatMessageInput) (s t : ChatState) : Type 0 where
    pub fine : reply_error is_member can_interact input t ≡ none
    pub read_back :
        fmap (λ (p : MessageRow). p.id) (parent_of t input.reply_to_message_id)
        ≡ input.reply_to_message_id
    pub same_parent : parent_of t input.reply_to_message_id ≡ parent_of s input.reply_to_message_id

  reply_kept :
      (input : CreateChatMessageInput) (s t : ChatState)
      → Keeps s t
      → reply_error is_member can_interact input s ≡ none
      → KeepsReply input s t
  unfolding reply_error
  reply_kept input s t k r = elim (Option-cases input.reply_to_message_id) [
    | inl n ↦ record {
      fine = ground (arith, n);
      read_back = ground (arith, n);
      same_parent = ground (arith, n);
    }
    | inr (id, i) ↦
        elim (Option-cases (find (in_group_of is_member can_interact input id) s.messages)) [
          | inl n ↦ absurd (ground (arith, i, n, r))
          | inr (p, f) ↦ elim (Option-cases (find (is_message id) s.messages)) [
            | inl n ↦ absurd (
                ground (
                  arith,
                  n,
                  find-weaken (in_group_of is_member can_interact input id) (is_message id)
                      s.messages (λ y t. ground (arith, t)) (ground (arith, f)),
                ))
            | inr (q, g) ↦
                let own : q.id ≡ id =
                  ground (arith, find_sound (is_message id) s.messages g, ==_iff q.id id) in
                let f' = k.of_messages (in_group_of is_member can_interact input id) p f in
                let g' = k.of_messages (is_message id) q g in
                record {
                  fine = ground (arith, i, f, f', r);
                  read_back = ground (arith, i, g', own);
                  same_parent = ground (arith, i, g, g');
                }
          ]
        ]
  ]

  -- What the stored message and event are found as.
  stored_found :
      (input : CreateChatMessageInput) (body : Body) (now : ℕ) (s : ChatState)
      → find (is_message input.message_id) s.messages ≡ none
      → find (is_event_of input.message_id) s.events ≡ none
      → (find (is_message input.message_id) (s.messages ++ new_message input body now ∷ [])
          ≡ some (new_message input body now))
        × (find (is_event_of input.message_id) (s.events ++ new_event input s.next_event now ∷ [])
            ≡ some (new_event input s.next_event now))
  stored_found input body now s n v = (
    ground (
      arith,
      n,
      ==_refl input.message_id,
      find-append (is_message input.message_id) s.messages (new_message input body now ∷ []),
    ),
    ground (
      arith,
      v,
      ==_refl input.message_id,
      find-append (is_event_of input.message_id) s.events (new_event input s.next_event now ∷ []),
    ),
  )

  abbrev inserted : CreateChatMessageInput → Body → ℕ → ChatState → ChatState
  inserted input body now s = record s {
    messages = s.messages ++ new_message input body now ∷ [];
    events = s.events ++ new_event input s.next_event now ∷ [];
    next_event = s.next_event + 1;
  }

  -- A call whose checks pass and whose message is there is a retry.
  create_chat_message_retry :
      (input : CreateChatMessageInput) (body : Body) (now : ℕ) (m : MessageRow) (s : ChatState)
      → is_member input.group_id input.member_id ≡ true
      → input.body ≡ some body
      → leb body.text_length chat_message_max_length ≡ true
      → input.now ≡ some now
      → reply_error is_member can_interact input s ≡ none
      → find (is_message input.message_id) s.messages ≡ some m
      → create_chat_message is_member can_interact input s ≡ retry_message input body m s
  unfolding create_chat_message create_locked
  create_chat_message_retry input body now m s mem b l t r f = ground (arith, mem, b, l, t, r, f)

  -- A retry of the stored request finds it the same.
  is_same_request_new :
      (input : CreateChatMessageInput) (body : Body) (now : ℕ) (s : ChatState)
      → fmap (λ (p : MessageRow). p.id) (parent_of s input.reply_to_message_id)
        ≡ input.reply_to_message_id
      → is_same_request s input body (new_message input body now) ≡ true
  is_same_request_new input body now s k =
      let r : same input.reply_to_message_id
            (fmap (λ (p : MessageRow). p.id) (parent_of s input.reply_to_message_id))
          ≡ true =
        rw k (same_refl input.reply_to_message_id) in
      ground (arith, r, ==_refl input.group_id, ==_refl input.member_id, ==_refl body.text)

  retry_message_new :
      (input : CreateChatMessageInput) (body : Body) (now : ℕ) (e : LogRow) (s : ChatState)
      → is_same_request s input body (new_message input body now) ≡ true
      → find (is_event_of input.message_id) s.events ≡ some e
      → retry_message input body (new_message input body now) s ≡ (
        s,
        deduplicated
            (map_event s (new_message input body now) e (reaction_count s input.message_id)),
      )
  unfolding retry_message
  retry_message_new input body now e s q f = rw q rw f refl

  -- The event of the insertion is the one the tables give, but for its reactions.
  event_of_insert :
      (input : CreateChatMessageInput) (body : Body) (now : ℕ) (s : ChatState)
      (ev : ChatMessageEvent) (reactions : ℕ)
      → (insert_message input body now s).1 ≡ created ev
      → map_event
          (inserted input body now s)
          (new_message input body now)
          (new_event input s.next_event now)
          reactions
        ≡ record ev { reaction_count = reactions }
  unfolding insert_message map_event
  event_of_insert input body now s ev reactions e =
      ap
        (λ (r : CreateResult). elim r [
          | created x ↦ record x { reaction_count = reactions }
          | deduplicated x ↦ x
          | rejected x ↦ ev
        ])
        e

  retried :
      (input : CreateChatMessageInput) (s t : ChatState) (ev : ChatMessageEvent) (later : ℕ)
      → find (is_event_of input.message_id) s.events ≡ none
      → (a : Accepts is_member can_interact input s ev) → Keeps (inserted input a.body a.now s) t
      → create_chat_message is_member can_interact (record input { now = some later }) t
        ≡ (t, deduplicated (record ev { reaction_count = reaction_count t input.message_id }))
  unfolding insert_message reply_error map_event
  retried input s t ev later no_event a k =
      let s' = inserted input a.body a.now s in
      let m = new_message input a.body a.now in
      let e = new_event input s.next_event a.now in
      let again = record input { now = some later } in
      let first = reply_kept input s s' (insert-Keeps input a.body a.now s) a.reply_fine in
      let next = reply_kept input s' t k first.fine in
      let f = stored_found input a.body a.now s a.is_new no_event in
      let parent = ap (fmap reply_context) next.same_parent in
      create_chat_message_retry again a.body later m t a.of_member a.of_body a.short refl next.fine
        (k.of_messages (is_message input.message_id) m f.0)
      ∙ retry_message_new again a.body a.now e t
          (is_same_request_new again a.body a.now t next.read_back)
          (k.of_events (is_event_of input.message_id) e f.1)
      ∙ ap
          (λ x. (
            t,
            deduplicated
                (record (map_event t m e (reaction_count t input.message_id)) { reply_to = x }),
          ))
          parent
      ∙ ap (λ x. (t, deduplicated x))
          (event_of_insert input a.body a.now s ev (reaction_count t input.message_id) a.event)

  -- A message that was accepted and is sent again with the same identifier, at whatever instant and
  -- after whatever calls to store messages and to toggle reactions, is answered with the same event,
  -- with the reactions that it has by then, and nothing is stored: if the one who sends it is still a
  -- member and sees the message it replies to as before, and if no event of the identifier was there
  -- before its message.
  pub create_again :
      (input : CreateChatMessageInput) (s : ChatState) (ev : ChatMessageEvent) (later : ℕ)
      (calls : List Call)
      → find (is_event_of input.message_id) s.events ≡ none
      → (create_chat_message is_member can_interact input s).1 ≡ created ev
      → let after = after_calls calls (create_chat_message is_member can_interact input s).0 in
        create_chat_message is_member can_interact (record input { now = some later }) after ≡ (
          after,
          deduplicated (record ev { reaction_count = reaction_count after input.message_id }),
        )
  unfolding insert_message
  create_again input s ev later calls no_event e =
      let a = create-Accepts is_member can_interact input s ev e in
      let goes : (create_chat_message is_member can_interact input s).0
          ≡ inserted input a.body a.now s =
        ap (λ p. p.0) a.goes in
      retried input s _ ev later no_event a (
        subst
          (λ t. Keeps t (after_calls calls (create_chat_message is_member can_interact input s).0))
          goes (after_calls-Keeps calls (create_chat_message is_member can_interact input s).0))
