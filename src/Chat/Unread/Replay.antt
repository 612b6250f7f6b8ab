-- ===== src/Chat/Unread/Replay.antt =====
-- src/chat/unread-store.ts: a stream of events and its replays.
use rewind_app.Common.{
  ℕ, ◌≤◌, ◌≡◌, refl, sym, ap, ◌∙◌, subst, Bool, true, not, ◌||◌, none, some, List, [], ◌∷◌, leb,
  ◌==◌, Memᴰ, All, All-imp, arith, max_safe_integer, safe_within,
}
use rewind_app.Chat.Unread.{
  ChatUnreadScope, ChatUnreadEvent, ChatUnreadSnapshot, record_chat_unread_event, record_all,
  mark_chat_scope_read,
}

-- An event that a snapshot has passed: malformed, of another group, or at or below its watermark.
abbrev pub is_passed : ChatUnreadScope → ℕ → ChatUnreadEvent → Bool
is_passed scope mark e = elim (safe_within 1 max_safe_integer e.event_id) [
  | none ↦ true
  | some n ↦ not (e.group_id == scope.group_id) || leb n mark
]

abbrev pub Passed : ChatUnreadScope → ℕ → List (ChatUnreadEvent × Bool) → Type 0
Passed scope mark es = All (λ (e : ChatUnreadEvent × Bool). is_passed scope mark e.0 ≡ true) es

module _ (scope : ChatUnreadScope) where
  record-passes :
      (s : ChatUnreadSnapshot) (e : ChatUnreadEvent) (active : Bool)
      → (is_passed scope (record_chat_unread_event s e scope active).0.last_event_id e ≡ true)
        × (s.last_event_id ≤ (record_chat_unread_event s e scope active).0.last_event_id)
  unfolding record_chat_unread_event
  record-passes s e active = ground arith

  pub record-passed :
      (s : ChatUnreadSnapshot) (e : ChatUnreadEvent) (active : Bool)
      → is_passed scope s.last_event_id e ≡ true
      → (record_chat_unread_event s e scope active).0 ≡ s
  unfolding record_chat_unread_event
  record-passed s e active h = ground (arith, h)

  pub passed_later :
      (m n : ℕ) (e : ChatUnreadEvent)
      → m ≤ n
      → is_passed scope m e ≡ true
      → is_passed scope n e ≡ true
  passed_later m n e h k = ground (arith, h, k)

  record_all-mark :
      (s : ChatUnreadSnapshot) (es : List (ChatUnreadEvent × Bool))
      → s.last_event_id ≤ (record_all scope s es).last_event_id
  unfolding record_all
  record_all-mark s [] = omega arith
  record_all-mark s (e ∷ es) = ground (
    arith,
    record-passes s e.0 e.1,
    record_all-mark (record_chat_unread_event s e.0 scope e.1).0 es,
  )

  record_all-Passed :
      (s : ChatUnreadSnapshot) (es : List (ChatUnreadEvent × Bool))
      → Passed scope (record_all scope s es).last_event_id es
  unfolding record_all
  record_all-Passed s [] = tt
  record_all-Passed s (e ∷ es) =
      let s' = (record_chat_unread_event s e.0 scope e.1).0 in
      (
        passed_later s'.last_event_id _ e.0 (record_all-mark s' es) (record-passes s e.0 e.1).0,
        record_all-Passed s' es,
      )

  -- A stream of events that a snapshot has passed leaves it as it is.
  record_all_same :
      (s : ChatUnreadSnapshot) (es : List (ChatUnreadEvent × Bool))
      → Passed scope s.last_event_id es
      → record_all scope s es ≡ s
  unfolding record_all
  record_all_same s [] h = refl
  record_all_same s (e ∷ es) h =
      let q = record-passed s e.0 e.1 h.0 in
      ap (λ t. record_all scope t es) q ∙ record_all_same s es h.1

  Passed-mem :
      (m : ℕ) (es : List (ChatUnreadEvent × Bool)) {x : ChatUnreadEvent × Bool}
      → Passed scope m es
      → Memᴰ x es
      → is_passed scope m x.0 ≡ true
  Passed-mem m [] h k = elim k [ ]
  Passed-mem m (e ∷ es) h (Memᴰ.head q) = ap (λ y. is_passed scope m y.0) q ∙ h.0
  Passed-mem m (e ∷ es) h (Memᴰ.tail k) = Passed-mem m es h.1 k

  -- Replays of events of a stream that was recorded, in any order, with any repetition and whether
  -- the chat is visible or not, leave the snapshot as it is.
  pub replay_ignored :
      (s : ChatUnreadSnapshot) (es replayed : List (ChatUnreadEvent × Bool))
      → All (λ (r : ChatUnreadEvent × Bool). (active : Bool) × Memᴰ (r.0, active) es) replayed
      → record_all scope (record_all scope s es) replayed ≡ record_all scope s es
  replay_ignored s es replayed h =
      record_all_same (record_all scope s es) replayed
        (All-imp _ _ replayed (λ r k. Passed-mem _ es (record_all-Passed s es) k.1) h)

  -- The chat is opened after a stream of events, and the events are replayed in any order, with any
  -- repetition, whether the chat is visible or not: nothing is unread.
  pub replay_after_read :
      (s : ChatUnreadSnapshot) (es replayed : List (ChatUnreadEvent × Bool))
      → All (λ (r : ChatUnreadEvent × Bool). (active : Bool) × Memᴰ (r.0, active) es) replayed
      → (record_all scope (mark_chat_scope_read (record_all scope s es)) replayed).unread_count ≡ 0
  unfolding mark_chat_scope_read
  replay_after_read s es replayed h =
      let marked = mark_chat_scope_read (record_all scope s es) in
      let kept : marked.last_event_id ≡ (record_all scope s es).last_event_id = ground arith in
      let passed : Passed scope marked.last_event_id es =
        subst (λ m. Passed scope m es) (sym kept) (record_all-Passed s es) in
      ground (
        arith,
        record_all_same marked replayed
            (All-imp _ _ replayed (λ r k. Passed-mem marked.last_event_id es passed k.1) h),
      )
