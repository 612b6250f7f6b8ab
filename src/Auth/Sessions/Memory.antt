-- ===== src/Auth/Sessions/Memory.antt =====
-- server/src/auth/index.ts and identity-cache.ts: what a request leaves in the memory of sessions.
use rewind_app.Common.{
  ℕ, ◌+◌, ◌≤◌, ◌<◌, ◌≡◌, ◌⊎◌, inl, inr, false, not, some, List, [], ◌∷◌, leb, ==_iff, zero, suc,
  min, if◌then◌else◌, if_intro, find, find_sound, any, All, All-append, All-update, All-keep,
  All-find, length, drop, Option-cases, Bool-cases, arith,
}
use rewind_app.Auth.Cache.{
  Entry, CachedSession, identity_cache_ttl_ms, max_entries, has_key, delete_key, is_fresh, fresh,
  set_key, remember,
}
use rewind_app.Auth.Sessions.{
  Sessions, SessionRow, invalid, session_idle_ms, session_touch_ms, has_token, validate_cached,
  validate_stored, is_over,
}

module _ {ℓ} {A : Type ℓ} where
  All-drop {κ} : (P : Entry A → Type κ) (n : ℕ) (es : List (Entry A)) → All P es → All P (drop n es)
  All-drop P zero es h = h
  All-drop P (suc n) [] h = tt
  All-drop P (suc n) (e ∷ es) h = All-drop P n es h.1

  pub All-remember {κ} :
      (P : Entry A → Type κ) (es : List (Entry A)) (k : ℕ) (value : A) (now : ℕ)
      → All P es
      → P (record { key = k; value = value; cached_at = now })
      → All P (remember es k value now)
  unfolding remember set_key
  All-remember P es k value now h new =
      let kept = if leb max_entries (length es) then drop 1 es else es in
      let held : All P kept =
        if_intro (All P) (leb max_entries (length es)) (λ _. All-drop P 1 es h) (λ _. h) in
      if_intro (All P) (any (has_key k) kept)
        (λ _. All-update P (has_key k) _ kept (λ e _ _. new) held)
        (λ _. All-append P kept _ held (new, tt))

  pub fresh_kept {κ} :
      (P : Entry A → Type κ) (es : List (Entry A)) (k now : ℕ) → All P es → All P (fresh es k now).0
  unfolding fresh
  fresh_kept P es k now h = elim (Option-cases (find (has_key k) es)) [
    | inl n ↦ let r : (fresh es k now).0 ≡ es = ground (arith, n) in rw r h
    | inr (e, f) ↦ elim (Bool-cases (is_fresh now e)) [
      | inl t ↦ let r : (fresh es k now).0 ≡ es = ground (arith, f, t) in rw r h
      | inr t ↦
          let r : (fresh es k now).0 ≡ delete_key k es = ground (arith, f, t) in
          rw r (All-keep P (λ e. not (has_key k e)) es h)
    ]
  ]

  -- What is fresh in memory has been there for less than the time to live.
  pub record Hit (es : List (Entry A)) (k now : ℕ) (value : A) : Type ℓ where
    pub entry : Entry A
    pub found : find (has_key k) es ≡ some entry
    pub is_value : entry.value ≡ value
    pub not_later : entry.cached_at ≤ now
    pub recent : now < entry.cached_at + identity_cache_ttl_ms

  pub fresh-Hit :
      (es : List (Entry A)) (k now : ℕ) {value : A}
      → (fresh es k now).1 ≡ some value
      → Hit es k now value
  unfolding fresh
  fresh-Hit es k now {value} h = elim (Option-cases (find (has_key k) es)) [
    | inl n ↦ absurd (ground (arith, n, h))
    | inr (e, f) ↦ elim (Bool-cases (is_fresh now e)) [
      | inr t ↦ absurd (ground (arith, f, t, h))
      | inl t ↦ record {
        entry = e;
        found = f;
        is_value = ground (arith, f, t, h);
        not_later = ground (arith, t);
        recent = ground (arith, t);
      }
    ]
  ]

-- What the database knows of the idle expiry of a session in memory.
pub record Remembered (k latest_at : ℕ) (e : Entry CachedSession) : Type 0 where
  pub not_after : e.key ≡ k → e.cached_at ≤ latest_at
  pub persisted :
      e.key ≡ k
      → e.value.persisted_idle_expires_at
        ≡ min (e.cached_at + session_idle_ms) e.value.absolute_expires_at

-- A fresh session is never written back: its expiry is less than the touch interval out of date.
pub validate_cached_rests :
    (k now latest_at : ℕ) (c : CachedSession) (s : Sessions) (es : List (Entry CachedSession))
    → All (Remembered k latest_at) es
    → Hit es k now c
    → (validate_cached k c now s).0 ≡ s
unfolding validate_cached
validate_cached_rests k now latest_at c s es h hit =
    let own : hit.entry.key ≡ k =
      ground (arith, ==_iff hit.entry.key k, find_sound (has_key k) es hit.found) in
    let sound = All-find (Remembered k latest_at) (has_key k) es h hit.found in
    let persisted : c.persisted_idle_expires_at
        ≡ min (hit.entry.cached_at + session_idle_ms) c.absolute_expires_at =
      rw (← hit.is_value) (sound.persisted own) in
    ground (arith, persisted, hit.recent)

abbrev pub memory : Sessions → List (Entry CachedSession)
memory s = s.cache.sessions

-- A session that is read from the table is remembered, if it is not over.
pub validate_stored_cases :
    (h now : ℕ) (s : Sessions)
    → (((validate_stored h now s).1 ≡ invalid) × (memory (validate_stored h now s).0 ≡ memory s))
      ⊎ ((r : SessionRow) × (find (has_token h) s.rows ≡ some r)
          × (is_over now r ≡ false)
          × (memory (validate_stored h now s).0
              ≡ remember
                  (memory s)
                  h
                  (record {
                    account_id = r.account_id;
                    absolute_expires_at = r.absolute_expires_at;
                    persisted_idle_expires_at = min (now + session_idle_ms) r.absolute_expires_at;
                  })
                  now))
unfolding validate_stored
validate_stored_cases h now s = elim (Option-cases (find (has_token h) s.rows)) [
  | inl n ↦ inl (ground (arith, n))
  | inr (r, e) ↦ elim (Bool-cases (is_over now r)) [
    | inl t ↦ inl (ground (arith, e, t))
    | inr f ↦ inr (r, e, f, ground (arith, e, f))
  ]
]

-- A session that is in memory is remembered anew when it is written back.
pub validate_cached_cases :
    (h now : ℕ) (c : CachedSession) (s : Sessions)
    → (memory (validate_cached h c now s).0 ≡ memory s)
      ⊎ (memory (validate_cached h c now s).0
          ≡ remember
              (memory s)
              h
              (record c {
                persisted_idle_expires_at = min (now + session_idle_ms) c.absolute_expires_at;
              })
              now)
unfolding validate_cached
validate_cached_cases h now c s =
    elim (Bool-cases (
      leb (c.persisted_idle_expires_at + session_touch_ms)
        (min (now + session_idle_ms) c.absolute_expires_at))) [
          | inl t ↦ inr (ground (arith, t))
          | inr f ↦ inl (ground (arith, f))
        ]
