-- ===== src/Auth/Login/Tests.antt =====
-- Tests and instances for the sign-ins of server/src/auth/index.ts.
use rewind_app.Common.{ℕ, ◌≡◌, refl, Bool, true, false, some, List, [], ◌∷◌, ◌==◌}
use rewind_app.Auth.Sessions.{Sessions, new_session, validate_real_session}
use rewind_app.Auth.Sessions
use rewind_app.Auth.Failures.{login_cooldown_end, record_failure, failed_row, cooldown_ms}
use rewind_app.Auth.Login.{
  AccountRow, Auth, LoginInput, authenticate_real_account, conclude_login, open_session,
  reset_real_account_password,
}
use rewind_app.Auth.Login.Checked.{SignsIn, authenticate-SignsIn, reset_ends_sessions}
use rewind_app.Auth.Login.Guesses.{looks, alone}

abbrev amy : AccountRow
amy = record { id = 1; normalized_username = 9; credential = 55; parameters_valid = true }

abbrev service : Auth
service = record {
  accounts = amy ∷ [];
  throttles = [];
  sessions = record {
    rows = new_session 7 1 1000 ∷ [];
    cache = record {
      sessions =
          record {
            key = 7;
            value = record {
              account_id = 1;
              absolute_expires_at = 2_592_001_000;
              persisted_idle_expires_at = 604_801_000;
            };
            cached_at = 1000;
          }
          ∷ [];
      selections = [];
      memberships = [];
    };
  };
}

-- A password matches the credential of its own number.
abbrev same_number : ℕ → ℕ → Bool
same_number password credential = password == credential

abbrev sign_in : ℕ → ℕ → LoginInput
sign_in password now = record {
  name = 9;
  well_formed = true;
  password = password;
  source = 4;
  now = now;
  token_hash = 20;
}

authenticate-SignsIn_example : SignsIn same_number alone (sign_in 55 2000) service 1
unfolding authenticate_real_account conclude_login open_session login_cooldown_end new_session
authenticate-SignsIn_example =
    authenticate-SignsIn same_number alone (sign_in 55 2000) service 1 20 604_802_000 refl

reset_ends_sessions_example :
    (validate_real_session
      (some 7)
      5000
      (reset_real_account_password alone (some 9) true 66 3000 service).0.sessions).1
    ≡ Sessions.invalid
unfolding new_session
reset_ends_sessions_example =
    reset_ends_sessions alone 9 66 3000 service amy (new_session 7 1 1000) 7 5000 refl refl refl
      ((λ e. refl), tt)

-- The same wrong password matches nothing.
abbrev never : ℕ → ℕ → Bool
never password credential = false

abbrev seven : List LoginInput
seven =
    sign_in 1 2000
    ∷ sign_in 1 2001
    ∷ sign_in 1 2002
    ∷ sign_in 1 2003
    ∷ sign_in 1 2004
    ∷ sign_in 1 2005
    ∷ sign_in 1 2006
    ∷ []

seven-looks : looks never seven service ≡ 5
unfolding looks authenticate_real_account conclude_login login_cooldown_end record_failure
    failed_row cooldown_ms
seven-looks = refl
