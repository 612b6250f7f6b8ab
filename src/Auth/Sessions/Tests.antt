-- ===== src/Auth/Sessions/Tests.antt =====
-- Tests and instances for server/src/auth/index.ts and identity-cache.ts.
use rewind_app.Common.{◌≡◌, refl, some, List, [], ◌∷◌, arith}
use rewind_app.Auth.Cache.{fresh, remember, set_key}
use rewind_app.Auth.Sessions.{
  Sessions, SessionRow, valid, invalid, new_session, validate_real_session, validate_cached,
  validate_stored,
}
use rewind_app.Auth.Sessions.Revoked.{
  Request, validates, run_requests, run_request, revoked_outside,
}

abbrev started : Sessions
started = record {
  rows = new_session 7 1 1000 ∷ new_session 8 2 1000 ∷ [];
  cache = record { sessions = []; selections = []; memberships = [] };
}

abbrev revoked_row : SessionRow
revoked_row = record {
  token_hash = 7;
  account_id = 1;
  created_at = 1000;
  last_seen_at = 1000;
  idle_expires_at = 604_801_000;
  absolute_expires_at = 2_592_001_000;
  revoked_at = some 3000;
}

abbrev requests : List Request
requests = validates (some 7) 2000 ∷ validates (some 8) 2500 ∷ []

abbrev edited : Sessions
edited = record (run_requests requests started) { rows = revoked_row ∷ [] }

-- For five minutes a request is served from the memory.
still_valid : (validate_real_session (some 7) 4000 edited).1 ≡ valid 1 604_804_000 2_592_001_000
unfolding run_requests run_request validate_real_session validate_cached validate_stored fresh
    remember set_key new_session
still_valid = refl

revoked_outside_example :
    (validate_real_session (some 7) 303_000 (
      run_requests
        (validates (some 7) 4000 ∷ validates (some 8) 5000 ∷ [])
        (record (run_requests requests started) { rows = revoked_row ∷ [] }))).1
    ≡ invalid
revoked_outside_example =
    revoked_outside 7 3000 303_000 requests (validates (some 7) 4000 ∷ validates (some 8) 5000 ∷ [])
      started (revoked_row ∷ []) refl (omega arith) (λ e. refl, tt) (omega arith)
