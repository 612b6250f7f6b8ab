-- ===== src/Archive/Capabilities/Tests.antt =====
-- Tests and instances for server/src/archive/capabilities.ts.
use rewind_app.Common.{
  ◌-◌, ◌<◌, ◌≡◌, refl, true, none, some, List, [], ◌∷◌, suc, Memᴰ, length, drop, arith,
}
use rewind_app.Tables.{CycleRow, MediaJobRow, archived, locked, published, film, ready, video}
use rewind_app.Auth.Sessions.{new_session}
use rewind_app.Archive.Capabilities.{
  MediaCapability, Grant, Access, play, granted, issue, evict, resolve, has_session, has_output,
  is_servable, media_capability_max_count,
}
use rewind_app.Archive.Capabilities.Evicted.{evict_ends}
use rewind_app.Archive.Capabilities.{presents}
use rewind_app.Archive.Capabilities.Authorized.{LiveSession, VerifiedOutput, resolve-Authorized}
use rewind_app.Archive.Capabilities.Kept.{Call, resolves, issues, after_calls, resolve-issue}

abbrev cycle : CycleRow
cycle = record {
  id = 3;
  group_id = 1;
  prompt = 5;
  starts_at = some 1000;
  ends_at = some 3000;
  status = archived;
  lock_state = locked;
  max_count = 4;
  max_seconds = 60;
  count_used = 1;
  seconds_used = 4;
  release_status = published;
  release_published_at = some (some 4000);
  previous_cycle_id = none;
}

abbrev film_job : MediaJobRow
film_job = record {
  id = 7;
  group_id = 1;
  contribution_id = none;
  kind = film;
  status = ready;
  output_path = some 40;
  created_at = 2000;
  source_path = none;
  source_uri = none;
  source_generation = none;
  error_code = none;
  processing_started_at = none;
  cycle_id = some 3;
  progress = 100;
  input_count = 1;
  completed_count = 1;
  claim_generation = 1;
  deleted_at = none;
  attempt_count = 1;
  updated_at = none;
  failed_at = none;
  output_sha256 = some 77;
  output_bytes = some 900;
  output_verified_at = some (some 3500);
  media_type = video;
}

abbrev access : Access
access = record {
  sessions = new_session 11 2 3000 ∷ [];
  memberships = record { account_id = 2; group_id = 1; profile_id = 5; accepted = true } ∷ [];
  selections = record { account_id = 2; group_id = 1 } ∷ [];
  tables = record {
    cycles = cycle ∷ [];
    groups = [];
    events = [];
    contributions = [];
    jobs = film_job ∷ [];
    inputs = [];
  };
}

abbrev asset : MediaCapability
asset = record {
  session_hash = 0;
  account_id = 2;
  group_id = 1;
  member_id = 5;
  job_id = 7;
  kind = film;
  purpose = play;
  output_path = 40;
  sha256 = 77;
  byte_length = 900;
  expires_at = 0;
}

abbrev issued : List Grant
issued = record { key = 30; grant = granted asset 11 5000 } ∷ []

evict_ends_example :
    (length (evict 1 issued) < media_capability_max_count)
    × (evict 1 issued ≡ drop (suc (length issued) - media_capability_max_count) issued)
evict_ends_example = evict_ends 1 issued (omega arith)

resolve-Authorized_example :
    (6000 < (granted asset 11 5000).expires_at)
    × (presents (some 11) (granted asset 11 5000) ≡ true)
    × LiveSession access 6000 (granted asset 11 5000)
    × ((out : VerifiedOutput access.tables (granted asset 11 5000)) × ((cy : CycleRow) × Memᴰ cy
            access.tables.cycles
          × (out.job.cycle_id ≡ some cy.id)
          × (cy.group_id ≡ 1)
          × (cy.release_status ≡ published)))
unfolding resolve has_session has_output is_servable new_session
resolve-Authorized_example =
    resolve-Authorized access 30 6000 (some 11) issued (granted asset 11 5000) refl refl

resolves_now :
    resolve access (some 30) (some 6000) (some 11) issued ≡ (issued, some (granted asset 11 5000))
unfolding resolve has_session has_output is_servable new_session
resolves_now = refl

expired_later : resolve access (some 30) (some 125_000) (some 11) issued ≡ ([], none)
unfolding resolve
expired_later = refl

abbrev between : List Call
between =
    resolves access (some 31) (some 6500) none
    ∷ issues asset 11 32 6600
    ∷ resolves access (some 32) (some 6700) (some 12)
    ∷ []

resolve-issue_example :
    let kept = after_calls between (issue asset 11 31 6000 issued) in
    (resolve access (some 31) (some 7000) none kept ≡ (kept, some (granted asset 11 6000)))
    × (resolve access (some 31) (some 7000) (some 11) kept ≡ (kept, some (granted asset 11 6000)))
unfolding has_session has_output is_servable new_session
resolve-issue_example =
    resolve-issue access asset 11 31 6000 7000 issued between (omega arith) refl (omega arith) refl
      refl
