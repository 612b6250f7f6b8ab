-- ===== src/Auth/Login/Guesses.antt =====
-- server/src/auth/index.ts: how many wrong passwords of one account are looked at in a quarter of an
-- hour.
use rewind_app.Common.{ℕ, ◌+◌, ◌≤◌, ◌<◌, ◌≡◌, Bool, false, Option, none, some, List, [], ◌∷◌, suc}
use rewind_app.Auth.Failures.{
  LoginThrottleRow, cooldown_end_of, login_window_ms, login_failure_limit,
}
use rewind_app.Auth.Login.{
  Auth, LoginInput, LoginResult, authenticated, invalid, throttled, authenticate_real_account,
}

-- The wrong passwords that are still looked at before a time.
data Budget (start : ℕ) : Option LoginThrottleRow → ℕ → Type 0 where
  whole_budget : Budget start none login_failure_limit
  spent :
      {r : LoginThrottleRow}
      → start + login_window_ms ≤ cooldown_end_of (some r)
      → Budget start (some r) 0
  left :
      {r : LoginThrottleRow} (n : ℕ)
      → start ≤ r.window_started_at
      → r.failures + suc n ≡ login_failure_limit
      → Budget start (some r) (suc n)

-- Within a quarter of an hour from an instant.
abbrev pub Within : ℕ → LoginInput → Type 0
Within start input = (start ≤ input.now) × (input.now < start + login_window_ms)

-- Whether an answer comes from the comparison of a password.
abbrev pub looked_at : LoginResult → ℕ
looked_at (throttled after) = 0
looked_at invalid = 1
looked_at (authenticated account_id token_hash expires_at) = 1

-- In one process the database does not change while scrypt runs.
abbrev pub alone : Auth → Auth
alone s = s

module _ (matches : ℕ → ℕ → Bool) where
  -- The passwords that are looked at in a sequence of sign-ins.
  unfoldable pub looks : List LoginInput → Auth → ℕ
  unfolding authenticate_real_account
  looks [] s = 0
  looks (i ∷ is) s =
      let (s', answer) = authenticate_real_account matches alone i s in
      looked_at answer + looks is s'

  pub record Wrong (start name : ℕ) (input : LoginInput) : Type 0 where
    pub of_name : input.name ≡ name
    pub timely : Within start input
    pub wrong : (c : ℕ) → matches input.password c ≡ false
