-- ===== src/Chat/Unread/Counts.antt =====
-- src/chat/unread-store.ts: what is unread after a stream of events that may be delivered again.
use rewind_app.Common.{
  ℕ, ◌+◌, ◌≤◌, ◌<◌, ◌≡◌, refl, ap, ◌∙◌, Bool, true, false, List, [], ◌∷◌, ◌==◌, ==_refl,
  if◌then◌else◌, Memᴰ, All, All-imp, arith, whole, max_safe_integer,
}
use rewind_app.Chat.Unread.{
  ChatUnreadScope, ChatUnreadEvent, ChatUnreadSnapshot, record_chat_unread_event, record_all,
}
use rewind_app.Chat.Unread.Replay.{is_passed, passed_later, record-passed}

module _ (scope : ChatUnreadScope) where
  -- A new event of the scope's group, with its number above a mark.
  pub record Fresh (mark n : ℕ) (e : ChatUnreadEvent) : Type 0 where
    pub numbered : e.event_id ≡ whole n
    pub above : mark < n
    pub safe : n ≤ max_safe_integer
    pub of_group : e.group_id ≡ scope.group_id

  abbrev pub is_own : ChatUnreadEvent → Bool
  is_own e = e.member_id == scope.member_id

  -- What a server that may send an event again delivers, and what a reader has not read by the end:
  -- the events that were delivered, the number of the newest, what was unread so far, the stream with
  -- whether the chat was visible, and what is unread after it. A new event of another member is
  -- unread, or it is seen with all before it; a new event of the reader is neither; an event that was
  -- delivered before counts for nothing.
  pub data Feed : List ChatUnreadEvent → ℕ → ℕ → List (ChatUnreadEvent × Bool) → ℕ → Type 0 where
    ended : {known : List ChatUnreadEvent} {mark u : ℕ} → Feed known mark u [] u
    unread :
        {known : List ChatUnreadEvent} {mark u t : ℕ} {es : List (ChatUnreadEvent × Bool)}
        {e : ChatUnreadEvent} (n : ℕ)
        → Fresh mark n e
        → is_own e ≡ false
        → Feed (e ∷ known) n (u + 1) es t
        → Feed known mark u ((e, false) ∷ es) t
    seen :
        {known : List ChatUnreadEvent} {mark u t : ℕ} {es : List (ChatUnreadEvent × Bool)}
        {e : ChatUnreadEvent} (n : ℕ)
        → Fresh mark n e
        → is_own e ≡ false
        → Feed (e ∷ known) n 0 es t
        → Feed known mark u ((e, true) ∷ es) t
    own :
        {known : List ChatUnreadEvent} {mark u t : ℕ} {es : List (ChatUnreadEvent × Bool)}
        {e : ChatUnreadEvent} {visible : Bool} (n : ℕ)
        → Fresh mark n e
        → is_own e ≡ true
        → Feed (e ∷ known) n u es t
        → Feed known mark u ((e, visible) ∷ es) t
    again :
        {known : List ChatUnreadEvent} {mark u t : ℕ} {es : List (ChatUnreadEvent × Bool)}
        {e : ChatUnreadEvent} {visible : Bool}
        → Memᴰ e known
        → Feed known mark u es t
        → Feed known mark u ((e, visible) ∷ es) t

  abbrev AllPassed : ℕ → List ChatUnreadEvent → Type 0
  AllPassed mark known = All (λ (e : ChatUnreadEvent). is_passed scope mark e ≡ true) known

  known_passed :
      (mark : ℕ) (known : List ChatUnreadEvent) {e : ChatUnreadEvent}
      → AllPassed mark known
      → Memᴰ e known
      → is_passed scope mark e ≡ true
  known_passed mark [] h k = elim k [ ]
  known_passed mark (x ∷ xs) h (Memᴰ.head q) = ap (λ y. is_passed scope mark y) q ∙ h.0
  known_passed mark (x ∷ xs) h (Memᴰ.tail k) = known_passed mark xs h.1 k

  record-Fresh :
      (s : ChatUnreadSnapshot) (e : ChatUnreadEvent) (visible : Bool) (n : ℕ)
      → Fresh s.last_event_id n e
      → let s' = (record_chat_unread_event s e scope visible).0 in
        (s'.last_event_id ≡ n)
        × (s'.unread_count
            ≡ (if is_own e then s.unread_count else (if visible then 0 else s.unread_count + 1)))
  unfolding record_chat_unread_event
  record-Fresh s e visible n f =
      ground (arith, f.numbered, f.above, f.safe, f.of_group, ==_refl scope.group_id)

  known_later :
      (mark n : ℕ) (known : List ChatUnreadEvent) (e : ChatUnreadEvent)
      → Fresh mark n e
      → AllPassed mark known
      → AllPassed n (e ∷ known)
  known_later mark n known e f h = (
    ground (arith, f.numbered, f.above, f.safe),
    All-imp _ _ known (λ x k. passed_later scope mark n x (omega (arith, f.above)) k) h,
  )

  counted-Fresh :
      (known : List ChatUnreadEvent) (s : ChatUnreadSnapshot) (e : ChatUnreadEvent) (visible : Bool)
      (n u t : ℕ) (es : List (ChatUnreadEvent × Bool))
      → Fresh s.last_event_id n e
      → (if is_own e then s.unread_count else (if visible then 0 else s.unread_count + 1)) ≡ u
      → AllPassed s.last_event_id known
      → ((s' : ChatUnreadSnapshot)
          → s'.last_event_id ≡ n
          → s'.unread_count ≡ u
          → AllPassed n (e ∷ known)
          → (record_all scope s' es).unread_count ≡ t)
      → (record_all scope s ((e, visible) ∷ es)).unread_count ≡ t
  unfolding record_all
  counted-Fresh known s e visible n u t es f q h rest =
      let (mark, count_after) = record-Fresh s e visible n f in
      rest (record_chat_unread_event s e scope visible).0 mark (count_after ∙ q)
        (known_later s.last_event_id n known e f h)

  counted_again :
      (s : ChatUnreadSnapshot) (e : ChatUnreadEvent) (visible : Bool) (t : ℕ)
      (es : List (ChatUnreadEvent × Bool))
      → is_passed scope s.last_event_id e ≡ true
      → (record_all scope s es).unread_count ≡ t
      → (record_all scope s ((e, visible) ∷ es)).unread_count ≡ t
  unfolding record_all
  counted_again s e visible t es p rest =
      ap (λ s'. (record_all scope s' es).unread_count) (record-passed scope s e visible p) ∙ rest

  Feed-total :
      {known : List ChatUnreadEvent} {mark u t : ℕ} {es : List (ChatUnreadEvent × Bool)}
      (s : ChatUnreadSnapshot)
      → Feed known mark u es t
      → s.last_event_id ≡ mark
      → s.unread_count ≡ u
      → AllPassed mark known
      → (record_all scope s es).unread_count ≡ t
  unfolding record_all
  Feed-total s ended a b h = b
  Feed-total {known} {mark} s (unread {es = es} {e = e} n f o rest) a b h =
      counted-Fresh known s e false n _ _ es (rw a f) (ground (arith, o, b)) (rw a h)
        (λ s' a' b' h'. Feed-total s' rest a' b' h')
  Feed-total {known} {mark} s (seen {es = es} {e = e} n f o rest) a b h =
      counted-Fresh known s e true n _ _ es (rw a f) (ground (arith, o)) (rw a h)
        (λ s' a' b' h'. Feed-total s' rest a' b' h')
  Feed-total {known} {mark} s (own {es = es} {e = e} {visible = visible} n f o rest) a b h =
      counted-Fresh known s e visible n _ _ es (rw a f) (ground (arith, o, b)) (rw a h)
        (λ s' a' b' h'. Feed-total s' rest a' b' h')
  Feed-total {known} {mark} s (again {es = es} {e = e} {visible = visible} m rest) a b h =
      counted_again s e visible _ es (rw a (known_passed mark known h m)) (Feed-total s rest a b h)

  -- A stream of events of the scope's group, each delivered once or more, a repetition at any later
  -- time and whether the chat is visible or not, with numbers that rise from the watermark of the
  -- snapshot where they are delivered first: the unread count is what the reader has not read, by
  -- the events that were delivered and not by their numbers.
  pub record_all-counts :
      (s : ChatUnreadSnapshot) (es : List (ChatUnreadEvent × Bool)) (t : ℕ)
      → Feed [] s.last_event_id s.unread_count es t
      → (record_all scope s es).unread_count ≡ t
  record_all-counts s es t f = Feed-total s f refl refl tt
