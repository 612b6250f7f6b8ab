-- ===== src/Auth/Login/Checked.antt =====
-- server/src/auth/index.ts: a sign-in that succeeds, and what a reset of the password ends.
use rewind_app.Common.{
  ℕ, ◌≡◌, refl, ap, ◌∙◌, inl, inr, Bool, true, not, none, some, List, [], ◌∷◌, ◌++◌, ◌==◌, ==_refl,
  ==_iff, if◌then◌else◌, keep, find, find-update, any, All, fmap, update, Option-cases, Bool-cases,
  arith,
}
use rewind_app.Auth.Cache.{Entry, CachedSession, forget_account, fresh, has_key}
use rewind_app.Auth.Sessions.{
  SessionRow, Sessions, new_session, has_token, validate_real_session, validate_stored,
}
use rewind_app.Auth.Sessions
use rewind_app.Auth.Sessions.Memory.{memory}
use rewind_app.Auth.Failures.{login_cooldown_end}
use rewind_app.Auth.Login.{
  AccountRow, Auth, LoginInput, authenticated, has_name, same_credential, open_session, verifies,
  conclude_login, authenticate_real_account, of_account, reset_real_account_password,
}

module _ (matches : ℕ → ℕ → Bool) (meanwhile : Auth → Auth) (input : LoginInput) (s : Auth) where
  -- What stands behind a sign-in that succeeds.
  pub record SignsIn (account_id : ℕ) : Type 0 where
    pub verified : AccountRow
    pub named : find (has_name input.name) s.accounts ≡ some verified
    pub own : verified.id ≡ account_id
    pub password : matches input.password verified.credential ≡ true
    pub kept : any (same_credential verified) (meanwhile s).accounts ≡ true
    pub not_throttled : login_cooldown_end s.throttles input.name input.source input.now ≡ none
    pub still_not_throttled :
        login_cooldown_end (meanwhile s).throttles input.name input.source input.now ≡ none
    pub session :
        (authenticate_real_account matches meanwhile input s).0.sessions.rows
        ≡ (meanwhile s).sessions.rows ++ new_session input.token_hash account_id input.now ∷ []

  -- A sign-in succeeds only if the password matches the credential of the account of that name, the
  -- account still has that credential when the session is inserted, and no cooldown of the account
  -- or the source runs before and after the verification; it adds one session, of that account.
  pub authenticate-SignsIn :
      (account_id token_hash expires_at : ℕ)
      → (authenticate_real_account matches meanwhile input s).1
        ≡ authenticated account_id token_hash expires_at
      → SignsIn account_id
  unfolding authenticate_real_account conclude_login open_session
  authenticate-SignsIn account_id token_hash expires_at e =
      elim (Option-cases (login_cooldown_end s.throttles input.name input.source input.now)) [
        | inr (end, c) ↦ absurd (ground (arith, c, e))
        | inl free ↦ elim (Option-cases (find (has_name input.name) s.accounts)) [
          | inl n ↦ absurd (ground (arith, free, n, e))
          | inr (a, f) ↦
              elim (Bool-cases (verifies matches meanwhile input (some a) (meanwhile s))) [
                | inr v ↦ absurd (ground (arith, free, f, v, e))
                | inl v ↦ elim (Bool-cases (any (same_credential a) (meanwhile s).accounts)) [
                  | inr k ↦ absurd (ground (arith, free, f, v, k, e))
                  | inl k ↦
                      let own : a.id ≡ account_id = ground (arith, free, f, v, k, e) in
                      record {
                        verified = a;
                        named = f;
                        own = own;
                        password = ground (arith, v);
                        kept = k;
                        not_throttled = free;
                        still_not_throttled = ground (arith, v);
                        session = ground (arith, free, f, v, k, own);
                      }
                ]
              ]
        ]
      ]

module _ (meanwhile : Auth → Auth) (name credential now : ℕ) (s : Auth) where
  reset_state :
      (a : AccountRow)
      → find (has_name name) s.accounts ≡ some a
      → (reset_real_account_password meanwhile (some name) true credential now s).0.sessions
        ≡ record {
          rows =
              update
                (of_account a.id)
                (λ (r : SessionRow). record r { revoked_at = some now })
                (meanwhile s).sessions.rows;
          cache = forget_account a.id (meanwhile s).sessions.cache;
        }
  unfolding reset_real_account_password
  reset_state a e = ground (arith, e)

  -- After the password of an account is reset, no session that it had by then is valid, however the
  -- credential was verified before: provided that a session in memory is of the account that its
  -- row names.
  pub reset_ends_sessions :
      (a : AccountRow) (r : SessionRow) (token later : ℕ)
      → find (has_name name) s.accounts ≡ some a
      → find (has_token token) (meanwhile s).sessions.rows ≡ some r
      → r.account_id ≡ a.id
      → All
          (λ (e : Entry CachedSession). e.key ≡ token → e.value.account_id ≡ a.id)
          (memory (meanwhile s).sessions)
      → (validate_real_session
          (some token)
          later
          (reset_real_account_password meanwhile (some name) true credential now s).0.sessions).1
        ≡ Sessions.invalid
  unfolding validate_real_session validate_stored forget_account fresh
  reset_ends_sessions a r token later e f own remembered =
      let es = memory (meanwhile s).sessions in
      let kept : List (Entry CachedSession) =
        keep (λ (e : Entry CachedSession). not (e.value.account_id == a.id)) es in
      let forgotten : find (has_key token) kept ≡ none = gone es remembered in
      let rows' =
        update (of_account a.id) (λ (r : SessionRow). record r { revoked_at = some now })
          (meanwhile s).sessions.rows in
      let row_after : find (has_token token) rows'
          ≡ some (if of_account a.id r then record r { revoked_at = some now } else r) =
        find-update (has_token token) (of_account a.id)
          (λ (r : SessionRow). record r { revoked_at = some now }) (meanwhile s).sessions.rows
          (λ r. refl)
        ∙ ap
            (fmap (λ (r : SessionRow).
              if of_account a.id r then record r { revoked_at = some now } else r))
            f in
      rw (reset_state a e) (ground (arith, forgotten, row_after, own, ==_refl a.id))
    where
      gone :
          (es : List (Entry CachedSession))
          → All (λ (e : Entry CachedSession). e.key ≡ token → e.value.account_id ≡ a.id) es
          → find
              (has_key token)
              (keep (λ (e : Entry CachedSession). not (e.value.account_id == a.id)) es)
            ≡ none
      gone [] h = refl
      gone (x ∷ xs) h = elim (Bool-cases (x.key == token)) [
        | inl t ↦
            let same_account : x.value.account_id ≡ a.id =
              h.0 (ground (arith, t, ==_iff x.key token)) in
            ground (arith, gone xs h.1, t, same_account, ==_iff x.value.account_id a.id)
        | inr t ↦ ground (arith, gone xs h.1, t)
      ]
