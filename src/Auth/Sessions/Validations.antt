-- ===== src/Auth/Sessions/Validations.antt =====
-- server/src/auth/index.ts: what the validation of a session does to the rows and to the memory.
use rewind_app.Common.{
  ℕ, ◌+◌, ◌≤◌, ◌≡◌, ◌≢◌, refl, ap, ◌∙◌, subst, ◌⊎◌, inl, inr, true, Option, none, some, List, ltb,
  leb, ◌==◌, ==_refl, ==_iff, min, is_some, find, find_sound, All, All-update, All-find, update,
  Option-cases, Bool-cases, arith,
}
use rewind_app.Auth.Cache.{Entry, CachedSession, fresh}
use rewind_app.Auth.Sessions.{
  Sessions, SessionRow, session_idle_ms, session_touch_ms, has_token, touch, validate_cached,
  validate_stored, is_over, with_sessions, validate_real_session,
}
use rewind_app.Auth.Sessions.Memory.{
  All-remember, fresh_kept, Hit, fresh-Hit, Remembered, validate_cached_rests, memory,
  validate_stored_cases, validate_cached_cases,
}

abbrev pub Ended : ℕ → SessionRow → Type 0
Ended k r = r.token_hash ≡ k → is_some r.revoked_at ≡ true

-- What a request changes of the rows: it touches some, or revokes some.
module _ {κ} (P : SessionRow → Type κ) (now : ℕ)
    (touched : (r : SessionRow) (idle : ℕ) → P r → P (touch now idle r))
    (revoked : (r : SessionRow) → P r → P (record r { revoked_at = some now })) where
  stored_rows : (h : ℕ) (s : Sessions) → All P s.rows → All P (validate_stored h now s).0.rows
  unfolding validate_stored
  stored_rows h s a = elim (Option-cases (find (has_token h) s.rows)) [
    | inl n ↦ let r : (validate_stored h now s).0.rows ≡ s.rows = ground (arith, n) in rw r a
    | inr (x, e) ↦ elim (Bool-cases (is_over now x)) [
      | inl t ↦ elim (Bool-cases (is_some x.revoked_at)) [
        | inl u ↦
            let r : (validate_stored h now s).0.rows ≡ s.rows = ground (arith, e, t, u) in rw r a
        | inr u ↦
            let r : (validate_stored h now s).0.rows
                ≡ update (has_token h) (λ (r : SessionRow). record r { revoked_at = some now })
                    s.rows =
              ground (arith, e, t, u) in
            rw r (All-update P (has_token h) _ s.rows (λ y p _. revoked y p) a)
      ]
      | inr t ↦
          let idle = min (now + session_idle_ms) x.absolute_expires_at in
          let r : (validate_stored h now s).0.rows ≡ update (has_token h) (touch now idle) s.rows =
            ground (arith, e, t) in
          rw r (All-update P (has_token h) (touch now idle) s.rows (λ y p _. touched y idle p) a)
    ]
  ]

  cached_rows :
      (h : ℕ) (c : CachedSession) (s : Sessions)
      → All P s.rows
      → All P (validate_cached h c now s).0.rows
  unfolding validate_cached
  cached_rows h c s a =
      let idle = min (now + session_idle_ms) c.absolute_expires_at in
      elim (Bool-cases (leb (c.persisted_idle_expires_at + session_touch_ms) idle)) [
        | inl t ↦
            let r : (validate_cached h c now s).0.rows
                ≡ update (has_token h) (touch now idle) s.rows =
              ground (arith, t) in
            rw r (All-update P (has_token h) (touch now idle) s.rows (λ y p _. touched y idle p) a)
        | inr t ↦ let r : (validate_cached h c now s).0.rows ≡ s.rows = ground (arith, t) in rw r a
      ]

  pub validate_rows :
      (token : Option ℕ) (s : Sessions)
      → All P s.rows
      → All P (validate_real_session token now s).0.rows
  unfolding validate_real_session
  validate_rows none s a = a
  validate_rows (some h) s a =
      let s' = with_sessions (fresh (memory s) h now).0 s in
      elim (Option-cases (fresh (memory s) h now).1) [
        | inl n ↦
            let r : validate_real_session (some h) now s ≡ validate_stored h now s' =
              ground (arith, n) in
            rw r (stored_rows h s' a)
        | inr (c, e) ↦ elim (Bool-cases (ltb now c.absolute_expires_at)) [
          | inl t ↦
              let r : validate_real_session (some h) now s ≡ validate_cached h c now s' =
                ground (arith, e, t) in
              rw r (cached_rows h c s' a)
          | inr t ↦
              let r : validate_real_session (some h) now s ≡ validate_stored h now s' =
                ground (arith, e, t) in
              rw r (stored_rows h s' a)
        ]
      ]

module _ (k latest_at now : ℕ) where
  cached_memory :
      (h : ℕ) (c : CachedSession) (s : Sessions) (es : List (Entry CachedSession))
      → All (Remembered k latest_at) es
      → Hit es h now c
      → All (Remembered k latest_at) (memory s)
      → All (Remembered k latest_at) (memory (validate_cached h c now s).0)
  cached_memory h c s es before hit a = elim (Bool-cases (h == k)) [
    | inl t ↦
        let own : h ≡ k = ground (arith, t, ==_iff h k) in
        let r : (validate_cached k c now s).0 ≡ s =
          validate_cached_rests k now latest_at c s es before
            (subst (λ (u : ℕ). Hit es u now c) own hit) in
        rw own (rw r a)
    | inr f ↦
        let other_key : h ≢ k = λ e. absurd (ground (arith, f, e, ==_refl k)) in
        elim (validate_cached_cases h now c s) [
          | inl r ↦ rw r a
          | inr r ↦ rw r (
              All-remember (Remembered k latest_at) (memory s) h _ now a (record {
                not_after = λ e. absurd (other_key e);
                persisted = λ e. absurd (other_key e);
              }))
        ]
  ]

  stored_memory :
      (h : ℕ) (s : Sessions)
      → (h ≡ k → (now ≤ latest_at) ⊎ All (Ended k) s.rows)
      → All (Remembered k latest_at) (memory s)
      → All (Remembered k latest_at) (memory (validate_stored h now s).0)
  stored_memory h s why a = elim (validate_stored_cases h now s) [
    | inl q ↦ rw (q.1) a
    | inr q ↦ rw (q.3) (
        All-remember (Remembered k latest_at) (memory s) h _ now a (record {
          not_after = λ e. elim (why e) [
            | inl le ↦ le
            | inr ended ↦
                let own : q.0.token_hash ≡ h =
                  ground (arith, ==_iff q.0.token_hash h, find_sound (has_token h) s.rows q.1) in
                absurd
                  (ground (arith, q.2, All-find (Ended k) (has_token h) s.rows ended q.1 (own ∙ e)))
          ];
          persisted = λ e. refl;
        }))
  ]

  pub validate_memory :
      (token : Option ℕ) (s : Sessions)
      → (token ≡ some k → (now ≤ latest_at) ⊎ All (Ended k) s.rows)
      → All (Remembered k latest_at) (memory s)
      → All (Remembered k latest_at) (memory (validate_real_session token now s).0)
  unfolding validate_real_session
  validate_memory none s why a = a
  validate_memory (some h) s why a =
      let s' = with_sessions (fresh (memory s) h now).0 s in
      let kept : All (Remembered k latest_at) (memory s') =
        fresh_kept (Remembered k latest_at) (memory s) h now a in
      let why' : h ≡ k → (now ≤ latest_at) ⊎ All (Ended k) s.rows = λ e. why (ap some e) in
      elim (Option-cases (fresh (memory s) h now).1) [
        | inl n ↦
            let r : validate_real_session (some h) now s ≡ validate_stored h now s' =
              ground (arith, n) in
            rw r (stored_memory h s' why' kept)
        | inr (c, e) ↦ elim (Bool-cases (ltb now c.absolute_expires_at)) [
          | inl t ↦
              let r : validate_real_session (some h) now s ≡ validate_cached h c now s' =
                ground (arith, e, t) in
              rw r (cached_memory h c s' (memory s) a (fresh-Hit (memory s) h now e) kept)
          | inr t ↦
              let r : validate_real_session (some h) now s ≡ validate_stored h now s' =
                ground (arith, e, t) in
              rw r (stored_memory h s' why' kept)
        ]
      ]
