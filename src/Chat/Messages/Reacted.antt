-- ===== src/Chat/Messages/Reacted.antt =====
-- server/src/chat/index.ts: what a call to toggle a reaction does to the reactions.
use rewind_app.Common.{
  ℕ, ◌+◌, ◌≤◌, ◌≡◌, refl, sym, ap, ◌∙◌, subst, inl, inr, Bool, true, false, not, ◌&&◌, Option, List,
  [], ◌∷◌, ltb, ◌==◌, ==_refl, ==_iff, is_some, keep, find, any, any-append, count, count-append,
  Bool-cases, arith,
}
use rewind_app.Chat.Messages.{
  MessageRow, ReactionRow, ChatState, ToggleChatReactionInput, toggled, is_message, is_reaction,
  has_reaction, reaction_count, asked_state, set_reaction, can_react, toggle_chat_reaction,
}

module _ {ℓ} {A : Type ℓ} (q r : A → Bool) where
  -- No row that passes `q` is left where those are dropped.
  any-keep : (xs : List A) → any q (keep (λ x. not (q x)) xs) ≡ false
  any-keep [] = refl
  any-keep (x ∷ xs) = ground (arith, any-keep xs)

  any-keep_other :
      (xs : List A)
      → ((x : A) → q x ≡ true → r x ≡ false)
      → any r (keep (λ x. not (q x)) xs) ≡ any r xs
  any-keep_other [] h = refl
  any-keep_other (x ∷ xs) h = ground (arith, any-keep_other xs h, h x)

  count-keep :
      (xs : List A)
      → ((x : A) → q x ≡ true → r x ≡ true)
      → count r (keep (λ x. not (q x)) xs) + count q xs ≡ count r xs
  count-keep [] h = refl
  count-keep (x ∷ xs) h = ground (arith, count-keep xs h, h x)

  count-any : (xs : List A) → any q xs ≡ ltb 0 (count q xs)
  count-any [] = refl
  count-any (x ∷ xs) = ground (arith, count-any xs)

abbrev of : Bool → ℕ
of true = 1
of false = 0

-- The tests of the other reactions.
other_reaction :
    (message_id member_id m p : ℕ) (r : ReactionRow)
    → ((m == message_id) && (p == member_id)) ≡ false
    → is_reaction message_id member_id r ≡ true
    → is_reaction m p r ≡ false
other_reaction message_id member_id m p r o t = ground (
  arith,
  o,
  t,
  ==_iff r.message_id message_id,
  ==_iff r.member_id member_id,
  ==_iff r.message_id m,
  ==_iff r.member_id p,
  ==_iff m message_id,
  ==_iff p member_id,
)

-- After the call, the member's reaction is as asked, another pair's is as it was, the number that is
-- answered is that of the table, and it moved with the one reaction.
pub record Sets (input : ToggleChatReactionInput) (on : Bool) (n m p : ℕ) (s t : ChatState)
    : Type 0 where
  pub asked : on ≡ asked_state input.active (has_reaction s input.message_id input.member_id)
  pub is_set : has_reaction t input.message_id input.member_id ≡ on
  pub counted : n ≡ reaction_count t input.message_id
  pub moved :
      n + of (has_reaction s input.message_id input.member_id)
      ≡ reaction_count s input.message_id + of on
  pub once : count (is_reaction input.message_id input.member_id) t.reactions ≤ 1
  pub others : has_reaction t m p ≡ has_reaction s m p
  pub of_messages : t.messages ≡ s.messages

set_reaction_lem :
    (input : ToggleChatReactionInput) (on : Bool) (n m p : ℕ) (s : ChatState)
    → on ≡ asked_state input.active (has_reaction s input.message_id input.member_id)
    → n ≡ reaction_count (set_reaction on input.message_id input.member_id s) input.message_id
    → count (is_reaction input.message_id input.member_id) s.reactions ≤ 1
    → ((m == input.message_id) && (p == input.member_id)) ≡ false
    → Sets input on n m p s (set_reaction on input.message_id input.member_id s)
unfolding set_reaction reaction_count
set_reaction_lem input true n m p s a c one o =
    let row : ReactionRow = record { message_id = input.message_id; member_id = input.member_id } in
    let q = is_reaction input.message_id input.member_id in
    let own : q row ≡ true = ground (arith, ==_refl input.message_id, ==_refl input.member_id) in
    let had = count-any q q s.reactions in
    elim (Bool-cases (has_reaction s input.message_id input.member_id)) [
      | inl y ↦ record {
        asked = a;
        is_set = ground (arith, y);
        counted = c;
        moved = ground (arith, y, c);
        once = ground (arith, y, one);
        others = ground (arith, y);
        of_messages = refl;
      }
      | inr y ↦ record {
        asked = a;
        is_set = ground (arith, y, own, any-append q s.reactions (row ∷ []));
        counted = c;
        moved = ground (
          arith,
          y,
          c,
          ==_refl input.message_id,
          count-append (λ (r : ReactionRow). r.message_id == input.message_id) s.reactions
              (row ∷ []),
        );
        once = ground (arith, y, had, own, count-append q s.reactions (row ∷ []));
        others = ground (
          arith,
          y,
          any-append (is_reaction m p) s.reactions (row ∷ []),
          other_reaction input.message_id input.member_id m p row o own,
        );
        of_messages = refl;
      }
    ]
set_reaction_lem input false n m p s a c one o =
    let q = is_reaction input.message_id input.member_id in
    let had = count-any q q s.reactions in
    let k =
      count-keep q (λ (r : ReactionRow). r.message_id == input.message_id) s.reactions
        (λ x t. ground (arith, t)) in
    let k' = count-keep q q s.reactions (λ x t. t) in
    record {
      asked = a;
      is_set = any-keep q q s.reactions;
      counted = c;
      moved = ground (arith, had, k, c, one);
      once = omega (arith, k', one);
      others =
          any-keep_other q (is_reaction m p) s.reactions
            (λ x t. other_reaction input.message_id input.member_id m p x o t);
      of_messages = refl;
    }

module _ (is_member : ℕ → ℕ → Bool) (can_interact : ℕ → MessageRow → Bool) where
  abbrev asked_message : ToggleChatReactionInput → ChatState → Option MessageRow
  asked_message input s =
      find (λ (m : MessageRow). is_message input.message_id m && (m.group_id == input.group_id))
        s.messages

  toggle-Sets_from :
      (input : ToggleChatReactionInput) (s : ChatState) (on : Bool) (n m p : ℕ)
      → let active = asked_state input.active (has_reaction s input.message_id input.member_id) in
        let t = set_reaction active input.message_id input.member_id s in
        toggle_chat_reaction is_member can_interact input s
          ≡ (t, toggled active (reaction_count t input.message_id))
        → (toggle_chat_reaction is_member can_interact input s).1 ≡ toggled on n
        → count (is_reaction input.message_id input.member_id) s.reactions ≤ 1
        → ((m == input.message_id) && (p == input.member_id)) ≡ false
        → Sets input on n m p s (toggle_chat_reaction is_member can_interact input s).0
  toggle-Sets_from input s on n m p goes e one o =
      let active = asked_state input.active (has_reaction s input.message_id input.member_id) in
      let t = set_reaction active input.message_id input.member_id s in
      let d : toggled active (reaction_count t input.message_id) ≡ toggled on n =
        sym (ap (λ x. x.1) goes) ∙ e in
      let d0 : active ≡ on = cc d in
      let d1 : n ≡ reaction_count t input.message_id = cc d in
      subst (λ t'. Sets input on n m p s t') (sym (ap (λ x. x.0) goes))
        (subst (λ b. Sets input b n m p s t) d0
          (set_reaction_lem input active n m p s refl d1 one o))

  -- A call to toggle a reaction that answers with a state and a number: the state is the one that was
  -- asked for, or else the opposite of what was there; the member has the reaction after the call if
  -- that state is on; the number is that of the message's reactions in the table, and it is one more,
  -- one less or the same as before, with the member's own; a reaction of another member or of another
  -- message, and every message, is as it was. A member with at most one reaction to the message
  -- before the call has at most one after it.
  pub toggle-Sets :
      (input : ToggleChatReactionInput) (s : ChatState) (on : Bool) (n m p : ℕ)
      → (toggle_chat_reaction is_member can_interact input s).1 ≡ toggled on n
      → count (is_reaction input.message_id input.member_id) s.reactions ≤ 1
      → ((m == input.message_id) && (p == input.member_id)) ≡ false
      → Sets input on n m p s (toggle_chat_reaction is_member can_interact input s).0
  unfolding toggle_chat_reaction
  toggle-Sets input s on n m p e one o =
      let active = asked_state input.active (has_reaction s input.message_id input.member_id) in
      elim (Bool-cases (is_member input.group_id input.member_id)) [
        | inr f ↦ absurd (ground (arith, f, e))
        | inl b ↦ elim (Bool-cases input.supported) [
          | inr f ↦ absurd (ground (arith, b, f, e))
          | inl u ↦ elim (Bool-cases (is_some input.now)) [
            | inr f ↦ absurd (ground (arith, b, u, f, e))
            | inl w ↦
                elim (Bool-cases (can_react is_member can_interact input (asked_message input s))) [
                  | inr f ↦ absurd (ground (arith, b, u, w, f, e))
                  | inl r ↦
                      let goes : toggle_chat_reaction is_member can_interact input s ≡ (
                        set_reaction active input.message_id input.member_id s,
                        toggled active (
                            reaction_count (set_reaction active input.message_id input.member_id s)
                              input.message_id),
                      ) =
                        ground (arith, b, u, w, r) in
                      toggle-Sets_from input s on n m p goes e one o
                ]
          ]
        ]
      ]
