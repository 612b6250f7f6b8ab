-- ===== src/Jobs/Inputs/Tests.antt =====
-- Tests and instances for the clips of a film.
use rewind_app.Common.{ℕ, ◌+◌, ◌≡◌, refl, true, none, some, [], ◌∷◌, map, All}
use rewind_app.Tables.{
  StoredStatus, CycleRow, ContributionRow, MediaJobRow, Database, locked, published, clip, ready,
  video,
}
use rewind_app.Jobs.Inputs.{
  EligibleRow, current_cycle_clips, archive_clips, eligible_compilation_inputs,
}
use rewind_app.Jobs.Inputs.Eligible.{is_compilable, eligible-Compilable}

abbrev cycle : ℕ → StoredStatus → CycleRow
cycle id status = record {
  id = id;
  group_id = 1;
  prompt = 5;
  starts_at = some 1000;
  ends_at = some 3000;
  status = status;
  lock_state = locked;
  max_count = 4;
  max_seconds = 60;
  count_used = 1;
  seconds_used = 4;
  release_status = published;
  release_published_at = some (some 4000);
  previous_cycle_id = none;
}

abbrev contribution : ℕ → ℕ → ContributionRow
contribution id cycle_id = record {
  id = id;
  cycle_id = cycle_id;
  member_id = 3;
  media_job_id = some (id + 100);
  duration = 4;
  created_at = 2000;
  quota_window_start_at = some 1000;
  deleted_at = none;
  replaced_by = none;
  removed_at = none;
}

abbrev clip_job : ℕ → MediaJobRow
clip_job id = record {
  id = id + 100;
  group_id = 1;
  contribution_id = some id;
  kind = clip;
  status = ready;
  output_path = some 40;
  created_at = 2000;
  source_path = none;
  source_uri = none;
  source_generation = none;
  error_code = none;
  processing_started_at = none;
  cycle_id = none;
  progress = 100;
  input_count = 0;
  completed_count = 0;
  claim_generation = 1;
  deleted_at = none;
  attempt_count = 1;
  updated_at = none;
  failed_at = none;
  output_sha256 = some 9;
  output_bytes = some 88;
  output_verified_at = some (some 2500);
  media_type = video;
}

abbrev db : Database
db = record {
  cycles = cycle 7 StoredStatus.revealing ∷ cycle 6 StoredStatus.archived ∷ [];
  groups = [];
  events = [];
  contributions = contribution 20 7 ∷ contribution 21 6 ∷ [];
  jobs = clip_job 20 ∷ clip_job 21 ∷ [];
  inputs = [];
}

-- One clip, and one of the archive behind it.
with_filler :
    map (λ (e : EligibleRow). e.clip_job_id) (eligible_compilation_inputs db 1 7) ≡ 120 ∷ 121 ∷ []
unfolding eligible_compilation_inputs current_cycle_clips archive_clips
with_filler = refl

eligible-Compilable_example :
    All (λ (r : EligibleRow). is_compilable db 1 r ≡ true) (eligible_compilation_inputs db 1 7)
eligible-Compilable_example = eligible-Compilable db 1 7
