-- ===== src/Auth/Sessions.antt =====
-- server/src/auth/index.ts: the sessions of real accounts. A token is the digest of its text, and
-- `none` where the text is not that of a token. Instants of the table are those that the server
-- writes; the account that is joined to a session is taken to exist, as a foreign key says.
pub mod Memory
pub mod Validations
pub mod Revoked
mod Tests
use rewind_app.Common.{
  ℕ, ◌+◌, Bool, not, ◌&&◌, ◌||◌, Option, none, some, List, [], ◌∷◌, ◌++◌, ltb, leb, ◌==◌, min,
  is_some, if◌then◌else◌, find, update,
}
use rewind_app.Auth.Cache.{Entry, CachedSession, IdentityCache, fresh, remember, forget_session}

abbrev pub session_idle_ms : ℕ
session_idle_ms = 604_800_000

abbrev pub session_absolute_ms : ℕ
session_absolute_ms = 2_592_000_000

abbrev pub session_touch_ms : ℕ
session_touch_ms = 600_000

pub record SessionRow : Type 0 where
  pub token_hash : ℕ
  pub account_id : ℕ
  pub created_at : ℕ
  pub last_seen_at : ℕ
  pub idle_expires_at : ℕ
  pub absolute_expires_at : ℕ
  pub revoked_at : Option ℕ

pub record Sessions : Type 0 where
  pub rows : List SessionRow
  pub cache : IdentityCache

pub data SessionResult : Type 0 where
  valid : (account_id idle_expires_at absolute_expires_at : ℕ) → SessionResult
  invalid : SessionResult

abbrev pub has_token : ℕ → SessionRow → Bool
has_token token_hash r = r.token_hash == token_hash

abbrev pub touch : ℕ → ℕ → SessionRow → SessionRow
touch now idle r = record r { last_seen_at = now; idle_expires_at = idle }

abbrev pub put_session : ℕ → CachedSession → ℕ → Sessions → Sessions
put_session token_hash c now s = record s {
  cache = record s.cache { sessions = remember s.cache.sessions token_hash c now };
}

-- A session in memory slides its idle expiry, and is written back when the stored one is too old.
unfoldable pub validate_cached : ℕ → CachedSession → ℕ → Sessions → Sessions × SessionResult
unfolding remember
validate_cached token_hash c now s =
    let idle = min (now + session_idle_ms) c.absolute_expires_at in
    let answer = valid c.account_id idle c.absolute_expires_at in
    if leb (c.persisted_idle_expires_at + session_touch_ms) idle
    then (
      put_session token_hash (record c { persisted_idle_expires_at = idle }) now
          (record s { rows = update (has_token token_hash) (touch now idle) s.rows }),
      answer,
    )
    else (s, answer)

abbrev pub is_over : ℕ → SessionRow → Bool
is_over now r = is_some r.revoked_at || leb r.idle_expires_at now || leb r.absolute_expires_at now

unfoldable pub validate_stored : ℕ → ℕ → Sessions → Sessions × SessionResult
unfolding remember
validate_stored token_hash now s = elim (find (has_token token_hash) s.rows) [
  | none ↦ (s, invalid)
  | some r ↦
      if is_over now r
      then (
        (if is_some r.revoked_at then s else record s {
          rows =
              update (has_token token_hash) (λ (r : SessionRow). record r { revoked_at = some now })
                s.rows;
        }),
        invalid,
      )
      else (
        put_session token_hash
            (record {
              account_id = r.account_id;
              absolute_expires_at = r.absolute_expires_at;
              persisted_idle_expires_at = min (now + session_idle_ms) r.absolute_expires_at;
            })
            now
            (record s {
              rows =
                  update (has_token token_hash)
                    (touch now (min (now + session_idle_ms) r.absolute_expires_at)) s.rows;
            }),
        valid r.account_id (min (now + session_idle_ms) r.absolute_expires_at)
            r.absolute_expires_at,
      )
]

abbrev pub with_sessions : List (Entry CachedSession) → Sessions → Sessions
with_sessions es s = record s { cache = record s.cache { sessions = es } }

unfoldable pub validate_real_session : Option ℕ → ℕ → Sessions → Sessions × SessionResult
unfolding fresh validate_cached validate_stored
validate_real_session none now s = (s, invalid)
validate_real_session (some token_hash) now s =
    let (kept, hit) = fresh s.cache.sessions token_hash now in
    let s' = with_sessions kept s in
    elim hit [
      | some c ↦
          if ltb now c.absolute_expires_at
          then validate_cached token_hash c now s'
          else validate_stored token_hash now s'
      | none ↦ validate_stored token_hash now s'
    ]

abbrev pub is_unrevoked : SessionRow → Bool
is_unrevoked r = not (is_some r.revoked_at)

unfoldable pub revoke_real_session : Option ℕ → ℕ → Sessions → Sessions
unfolding forget_session
revoke_real_session none now s = s
revoke_real_session (some token_hash) now s = record {
  rows =
      update (λ (r : SessionRow). has_token token_hash r && is_unrevoked r)
        (λ (r : SessionRow). record r { revoked_at = some now }) s.rows;
  cache = forget_session token_hash s.cache;
}

-- The row of a new session, whose token is random.
unfoldable pub new_session : ℕ → ℕ → ℕ → SessionRow
new_session token_hash account_id now = record {
  token_hash = token_hash;
  account_id = account_id;
  created_at = now;
  last_seen_at = now;
  idle_expires_at = min (now + session_idle_ms) (now + session_absolute_ms);
  absolute_expires_at = now + session_absolute_ms;
  revoked_at = none;
}

unfoldable pub create_real_session : ℕ → ℕ → ℕ → Sessions → Sessions
unfolding new_session
create_real_session token_hash account_id now s = record s {
  rows = s.rows ++ new_session token_hash account_id now ∷ [];
}
