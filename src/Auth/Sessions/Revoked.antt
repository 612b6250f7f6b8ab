-- ===== src/Auth/Sessions/Revoked.antt =====
-- server/src/auth/index.ts: a session that is revoked behind the server's back ends within the time
-- to live of the memory.
use rewind_app.Common.{
  ℕ, ◌+◌, ◌≤◌, ◌≡◌, refl, inl, inr, not, ◌&&◌, Option, none, some, List, [], ◌∷◌, ==_iff, find,
  find_sound, All, All-update, All-keep, All-find, Option-cases, arith,
}
use rewind_app.Auth.Cache.{identity_cache_ttl_ms, has_key, fresh, forget_session}
use rewind_app.Auth.Sessions.{
  Sessions, SessionRow, invalid, has_token, validate_stored, validate_real_session, is_unrevoked,
  revoke_real_session,
}
use rewind_app.Auth.Sessions.Memory.{fresh-Hit, Remembered, memory}
use rewind_app.Auth.Sessions.Validations.{Ended, validate_rows, validate_memory}

-- A request with a token, and a sign-out.
pub data Request : Type 0 where
  validates revokes : (token : Option ℕ) (now : ℕ) → Request

unfoldable pub run_request : Request → Sessions → Sessions
run_request (validates token now) s = (validate_real_session token now s).0
run_request (revokes token now) s = revoke_real_session token now s

unfoldable pub run_requests : List Request → Sessions → Sessions
run_requests [] s = s
run_requests (r ∷ rs) s = run_requests rs (run_request r s)

abbrev pub By : ℕ → Request → Type 0
By latest_at (validates token now) = now ≤ latest_at
By latest_at (revokes token now) = now ≤ latest_at

revoke_memory :
    (k latest_at : ℕ) (token : Option ℕ) (now : ℕ) (s : Sessions)
    → All (Remembered k latest_at) (memory s)
    → All (Remembered k latest_at) (memory (revoke_real_session token now s))
unfolding revoke_real_session forget_session
revoke_memory k latest_at none now s a = a
revoke_memory k latest_at (some h) now s a =
    All-keep (Remembered k latest_at) (λ e. not (has_key h e)) (memory s) a

revoke_rows :
    (k : ℕ) (token : Option ℕ) (now : ℕ) (s : Sessions)
    → All (Ended k) s.rows
    → All (Ended k) (revoke_real_session token now s).rows
unfolding revoke_real_session
revoke_rows k none now s a = a
revoke_rows k (some h) now s a =
    All-update (Ended k) (λ (r : SessionRow). has_token h r && is_unrevoked r)
      (λ (r : SessionRow). record r { revoked_at = some now }) s.rows (λ r p _ e. refl) a

-- Up to an instant, whatever is remembered has been so by then.
before_requests :
    (k latest_at : ℕ) (rs : List Request) (s : Sessions)
    → All (By latest_at) rs
    → All (Remembered k latest_at) (memory s)
    → All (Remembered k latest_at) (memory (run_requests rs s))
unfolding run_requests run_request
before_requests k latest_at [] s b a = a
before_requests k latest_at (validates token now ∷ rs) s b a =
    before_requests k latest_at rs _ b.1 (validate_memory k latest_at now token s (λ _. inl b.0) a)
before_requests k latest_at (revokes token now ∷ rs) s b a =
    before_requests k latest_at rs _ b.1 (revoke_memory k latest_at token now s a)

-- A session that has ended is not remembered again.
record Closed (k latest_at : ℕ) (s : Sessions) : Type 0 where
  rows_ended : All (Ended k) s.rows
  remembered : All (Remembered k latest_at) (memory s)

request-Closed :
    (k latest_at : ℕ) (r : Request) (s : Sessions)
    → Closed k latest_at s
    → Closed k latest_at (run_request r s)
unfolding run_request
request-Closed k latest_at (validates token now) s c = record {
  rows_ended = validate_rows (Ended k) now (λ r idle p e. p e) (λ r p e. refl) token s c.rows_ended;
  remembered = validate_memory k latest_at now token s (λ _. inr c.rows_ended) c.remembered;
}
request-Closed k latest_at (revokes token now) s c = record {
  rows_ended = revoke_rows k token now s c.rows_ended;
  remembered = revoke_memory k latest_at token now s c.remembered;
}

requests-Closed :
    (k latest_at : ℕ) (rs : List Request) (s : Sessions)
    → Closed k latest_at s
    → Closed k latest_at (run_requests rs s)
unfolding run_requests
requests-Closed k latest_at [] s c = c
requests-Closed k latest_at (r ∷ rs) s c =
    requests-Closed k latest_at rs (run_request r s) (request-Closed k latest_at r s c)

Closed-invalid :
    (k latest_at now : ℕ) (s : Sessions)
    → Closed k latest_at s
    → latest_at + identity_cache_ttl_ms ≤ now
    → (validate_real_session (some k) now s).1 ≡ invalid
unfolding validate_real_session validate_stored
Closed-invalid k latest_at now s c late = elim (Option-cases (fresh (memory s) k now).1) [
  | inr (v, e) ↦
      let hit = fresh-Hit (memory s) k now e in
      let own : hit.entry.key ≡ k =
        ground (arith, ==_iff hit.entry.key k, find_sound (has_key k) (memory s) hit.found) in
      let old =
        (All-find (Remembered k latest_at) (has_key k) (memory s) c.remembered hit.found).not_after
          own in
      absurd (omega (arith, old, late, hit.recent))
  | inl n ↦ elim (Option-cases (find (has_token k) s.rows)) [
    | inl m ↦ ground (arith, n, m)
    | inr (r, f) ↦
        let own : r.token_hash ≡ k =
          ground (arith, ==_iff r.token_hash k, find_sound (has_token k) s.rows f) in
        ground (arith, n, f, All-find (Ended k) (has_token k) s.rows c.rows_ended f own)
  ]
]

-- Let the server start with an empty memory and serve any requests up to an instant; then let its
-- table of sessions be changed from outside, so that a session is revoked; then let it serve any
-- requests at any instants. From five minutes after the instant on, the session is not valid.
pub revoked_outside :
    (k latest_at now : ℕ) (earlier later : List Request) (s : Sessions) (rows : List SessionRow)
    → memory s ≡ []
    → All (By latest_at) earlier
    → All (Ended k) rows
    → latest_at + identity_cache_ttl_ms ≤ now
    → (validate_real_session
        (some k)
        now
        (run_requests later (record (run_requests earlier s) { rows = rows }))).1
      ≡ invalid
revoked_outside k latest_at now earlier later s rows empty b ended late =
    Closed-invalid k latest_at now _
      (requests-Closed k latest_at later _ (record {
        rows_ended = ended;
        remembered = before_requests k latest_at earlier s b (rw empty tt);
      }))
      late
