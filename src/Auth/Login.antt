-- ===== src/Auth/Login.antt =====
-- server/src/auth/index.ts: signing in with a password, and its reset. `matches` is scrypt and the
-- comparison of its result with the stored hash; a credential is the salt, the hash and the scrypt
-- parameters of an account. What other processes do to the database while scrypt runs is an
-- argument, `meanwhile`. `parameters_valid` says that the scrypt parameters are within their bounds
-- and that there is a hash.
pub mod Guesses
pub mod Checked
mod Tests
use rewind_app.Common.{
  ℕ, ◌+◌, ◌-◌, ◌/◌, Bool, true, false, not, ◌&&◌, Option, none, some, List, [], ◌∷◌, ◌++◌, ltb,
  ◌==◌, is_some, if◌then◌else◌, keep, find, any, update,
}
use rewind_app.Auth.Cache.{forget_account}
use rewind_app.Auth.Sessions.{SessionRow, Sessions, new_session}
use rewind_app.Auth.Failures.{
  account, source, LoginThrottleRow, is_subject, login_cooldown_end, record_failure, throttle_row,
  cooldown_end_of,
}

pub record AccountRow : Type 0 where
  pub id : ℕ
  pub normalized_username : ℕ
  pub credential : ℕ
  pub parameters_valid : Bool

pub record Auth : Type 0 where
  pub accounts : List AccountRow
  pub throttles : List LoginThrottleRow
  pub sessions : Sessions

-- `name` is the normalized username, or what is left of an ill-formed one.
pub record LoginInput : Type 0 where
  pub name : ℕ
  pub well_formed : Bool
  pub password : ℕ
  pub source : ℕ
  pub now : ℕ
  pub token_hash : ℕ

pub data LoginResult : Type 0 where
  authenticated : (account_id token_hash expires_at : ℕ) → LoginResult
  invalid : LoginResult
  throttled : (retry_after_seconds : ℕ) → LoginResult

abbrev pub has_name : ℕ → AccountRow → Bool
has_name name a = a.normalized_username == name

-- The account whose credential is still the one that was verified.
abbrev pub same_credential : AccountRow → AccountRow → Bool
same_credential verified a = (a.id == verified.id) && (a.credential == verified.credential)

abbrev pub clear_throttles : LoginInput → List LoginThrottleRow → List LoginThrottleRow
clear_throttles input rows =
    keep (λ (r : LoginThrottleRow). not (is_subject source input.source r))
      (keep (λ (r : LoginThrottleRow). not (is_subject account input.name r)) rows)

abbrev pub fail_login : LoginInput → Auth → Auth
fail_login input s = record s {
  throttles =
      record_failure source input.source input.now
        (record_failure account input.name input.now s.throttles);
}

-- After the verification: the session is inserted if the account has kept its credential.
unfoldable pub open_session : LoginInput → AccountRow → Auth → Auth × LoginResult
unfolding new_session
open_session input verified s =
    if any (same_credential verified) s.accounts
    then (
      record s {
        throttles = clear_throttles input s.throttles;
        sessions = record s.sessions {
          rows = s.sessions.rows ++ new_session input.token_hash verified.id input.now ∷ [];
        };
      },
      authenticated verified.id input.token_hash
          (new_session input.token_hash verified.id input.now).idle_expires_at,
    )
    else (s, invalid)

module _ (matches : ℕ → ℕ → Bool) (meanwhile : Auth → Auth) where
  abbrev pub verifies : LoginInput → Option AccountRow → Auth → Bool
  verifies input none s = false
  verifies input (some a) s =
      a.parameters_valid
      && matches input.password a.credential
      && input.well_formed
      && not (is_some (login_cooldown_end s.throttles input.name input.source input.now))

  -- `found` was read before scrypt ran, `s` is the database after it.
  unfoldable pub conclude_login : LoginInput → Option AccountRow → Auth → Auth × LoginResult
  unfolding open_session record_failure login_cooldown_end
  conclude_login input none s = (fail_login input s, invalid)
  conclude_login input (some a) s =
      if verifies input (some a) s then open_session input a s else (fail_login input s, invalid)

  unfoldable pub authenticate_real_account : LoginInput → Auth → Auth × LoginResult
  unfolding conclude_login login_cooldown_end
  authenticate_real_account input s =
      elim (login_cooldown_end s.throttles input.name input.source input.now) [
        | some end ↦ (s, throttled ((end - input.now + 999) / 1000))
        | none ↦ conclude_login input (find (has_name input.name) s.accounts) (meanwhile s)
      ]

pub data ResetResult : Type 0 where
  reset_done reset_missing reset_invalid : ResetResult

abbrev pub of_account : ℕ → SessionRow → Bool
of_account account_id r = (r.account_id == account_id) && not (is_some r.revoked_at)

-- `name` is `none` where the username is ill-formed.
unfoldable pub reset_real_account_password :
    (Auth → Auth) → Option ℕ → Bool → ℕ → ℕ → Auth → Auth × ResetResult
unfolding forget_account
reset_real_account_password meanwhile none password_ok credential now s = (s, reset_invalid)
reset_real_account_password meanwhile (some name) password_ok credential now s =
    if password_ok
    then (elim (find (has_name name) s.accounts) [
      | none ↦ (s, reset_missing)
      | some a ↦
          let s' = meanwhile s in
          (
            record s' {
              accounts =
                  update (λ (b : AccountRow). b.id == a.id)
                    (λ (b : AccountRow). record b {
                      credential = credential;
                      parameters_valid = true;
                    })
                    s'.accounts;
              sessions = record {
                rows =
                    update (of_account a.id)
                      (λ (r : SessionRow). record r { revoked_at = some now }) s'.sessions.rows;
                cache = forget_account a.id s'.sessions.cache;
              };
            },
            reset_done,
          )
    ])
    else (s, reset_invalid)

pub data PasswordCheck : Type 0 where
  check_ok check_invalid check_throttled : PasswordCheck

-- The check before a destructive action. The throttle is the account's alone.
unfoldable pub verify_real_account_password :
    (ℕ → ℕ → Bool) → ℕ → ℕ → ℕ → Auth → Auth × PasswordCheck
unfolding record_failure
verify_real_account_password matches account_id password now s =
    elim (find (λ (a : AccountRow). a.id == account_id) s.accounts) [
      | none ↦ (s, check_invalid)
      | some a ↦
          if ltb now (cooldown_end_of (throttle_row s.throttles account a.normalized_username))
          then (s, check_throttled)
          else (if matches password a.credential then (s, check_ok) else (
            record s { throttles = record_failure account a.normalized_username now s.throttles },
            check_invalid,
          ))
    ]
