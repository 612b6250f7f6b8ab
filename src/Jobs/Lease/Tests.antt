-- ===== src/Jobs/Lease/Tests.antt =====
-- Tests and instances for the film workers of server/src/jobs/index.ts.
use rewind_app.Common.{
  ℕ, ◌*◌, ◌/◌, ◌≡◌, ◌≢◌, refl, true, false, Option, none, some, List, [], ◌∷◌, ◌==◌, if◌then◌else◌,
  arith, whole,
}
use rewind_app.Tables.{
  failed, archived, CycleRow, ContributionRow, JobStatus, MediaJobRow, Database, locked, published,
  clip, film, pending, processing, ready, video, process_failed,
}
use rewind_app.Jobs.Compilation.{
  snapshot, CompilationJobRecord, read_compilation_job, compilation_record,
}
use rewind_app.Jobs.Reconcile.{
  accepted_compilation_inputs, reconcile_compilation_job_inputs_locked, progress_of, valid_with,
  is_valid_input, delete_invalid, compact, completed_after, reconciled, accepted_rows,
  frozen_compilation_inputs_complete, freeze_settled_compilation_inputs_locked,
}
use rewind_app.Jobs.Claims.{
  ClaimInput, claimed, retry_exhausted, claim_compilation_job, claim_found, settle_inputs,
  claim_reconciled, take_claim, grant_claim,
}
use rewind_app.Jobs.Reports.{
  ProgressInput, Output, update_compilation_job_progress, report_locked, may_report,
  reported_progress, write_progress, mark_compilation_failed, publish_compilation_output,
  publish_locked, may_publish,
}
use rewind_app.Jobs.Reports
use rewind_app.Jobs.Inputs.{eligible_compilation_inputs, current_cycle_clips, archive_clips}
use rewind_app.Jobs.Lease.{Lease, held, Keys, Steps}
use rewind_app.Jobs.Lease.Runs.{
  Call, claims, reports, fails, run_call, run_calls, run_calls-refines, Sound, run_calls-Sound,
  Forward, run_calls-Forward,
}
use rewind_app.Jobs.Lease.Fence.{stale_worker}
use rewind_app.Jobs.Lease.Answers.{Leaves, claim_refused_unchanged}
use rewind_app.Jobs.Lease.Grants.{claim_excludes, claim_granted}
use rewind_app.Jobs.Lease.Published.{Published, publish-Published}

abbrev exact_percent : ℕ → ℕ → ℕ
exact_percent c n = if n == 0 then 0 else c * 100 / n

abbrev cycle : CycleRow
cycle = record {
  id = 3;
  group_id = 1;
  prompt = 5;
  starts_at = some 1000;
  ends_at = some 3000;
  status = archived;
  lock_state = locked;
  max_count = 4;
  max_seconds = 60;
  count_used = 1;
  seconds_used = 4;
  release_status = published;
  release_published_at = some (some 4000);
  previous_cycle_id = none;
}

abbrev contribution : ContributionRow
contribution = record {
  id = 1;
  cycle_id = 3;
  member_id = 3;
  media_job_id = some 101;
  duration = 4;
  created_at = 2000;
  quota_window_start_at = some 1000;
  deleted_at = none;
  replaced_by = none;
  removed_at = none;
}

abbrev clip_job : MediaJobRow
clip_job = record {
  id = 101;
  group_id = 1;
  contribution_id = some 1;
  kind = clip;
  status = ready;
  output_path = some 40;
  created_at = 2000;
  source_path = none;
  source_uri = none;
  source_generation = none;
  error_code = none;
  processing_started_at = none;
  cycle_id = none;
  progress = 100;
  input_count = 0;
  completed_count = 0;
  claim_generation = 0;
  deleted_at = none;
  attempt_count = 1;
  updated_at = none;
  failed_at = none;
  output_sha256 = none;
  output_bytes = none;
  output_verified_at = none;
  media_type = video;
}

abbrev film_job : JobStatus → ℕ → Option ℕ → MediaJobRow
film_job status generation started_at = record clip_job {
  id = 7;
  contribution_id = none;
  kind = film;
  status = status;
  output_path = none;
  processing_started_at = started_at;
  cycle_id = some 3;
  progress = 0;
  input_count = 1;
  claim_generation = generation;
  attempt_count = generation;
}

abbrev tables : JobStatus → ℕ → Option ℕ → Database
tables status generation started_at = record {
  cycles = cycle ∷ [];
  groups = [];
  events = [];
  contributions = contribution ∷ [];
  jobs = clip_job ∷ film_job status generation started_at ∷ [];
  inputs = record { job_id = 7; clip_job_id = 101; contribution_id = 1; position = 0 } ∷ [];
}

abbrev waiting_film : Database
waiting_film = tables pending 0 none

abbrev running_film : Database
running_film = tables processing 2 (some 5000)

keys :
    (status : JobStatus) (generation : ℕ) (started_at : Option ℕ)
    → Keys (tables status generation started_at)
keys status generation started_at k = ground arith

abbrev claim_at : ℕ → ClaimInput
claim_at now = record {
  job_id = 7;
  group_id = some 1;
  now = some now;
  lease_ms = none;
  require_settled_inputs = true;
  clip_attempt_cap = none;
}

abbrev report_of : ℕ → ProgressInput
report_of generation = record {
  job_id = 7;
  claim_generation = whole generation;
  completed_count = whole 1;
  progress = none;
  now = some 5500;
}

abbrev lease_of_film : JobStatus → ℕ → Option ℕ → Lease
lease_of_film status generation started_at = record {
  status = status;
  generation = generation;
  attempts = generation;
  started_at = started_at;
  output_path = none;
}

abbrev calls : List Call
calls =
    claims (claim_at 5000)
    ∷ reports (report_of 1)
    ∷ fails 7 1 process_failed 6000
    ∷ claims (claim_at 7000)
    ∷ []

run_calls-refines_example :
    (m : Lease) × (held (run_calls exact_percent calls waiting_film) 7 ≡ some m)
    × Steps (lease_of_film pending 0 none) m
run_calls-refines_example =
    run_calls-refines exact_percent 7 calls waiting_film (lease_of_film pending 0 none)
      (keys pending 0 none) refl

-- The second claim of the film is its second attempt, under the second generation.
run_calls_test :
    held (run_calls exact_percent calls waiting_film) 7
    ≡ some (lease_of_film processing 2 (some 7000))
unfolding run_calls run_call claim_compilation_job claim_found settle_inputs
    reconcile_compilation_job_inputs_locked claim_reconciled take_claim grant_claim
    read_compilation_job compilation_record accepted_compilation_inputs accepted_rows
    freeze_settled_compilation_inputs_locked reconciled is_valid_input valid_with delete_invalid
    compact completed_after progress_of update_compilation_job_progress report_locked may_report
    reported_progress write_progress mark_compilation_failed
run_calls_test = refl

fresh-Sound : Sound (lease_of_film pending 0 none)
fresh-Sound = record { capped = omega arith; fresh = λ p. refl }

run_calls-Sound_example :
    (m : Lease) × (held (run_calls exact_percent calls waiting_film) 7 ≡ some m) × Sound m
run_calls-Sound_example =
    run_calls-Sound exact_percent 7 calls waiting_film (lease_of_film pending 0 none)
      (keys pending 0 none) refl fresh-Sound

run_calls-Forward_example :
    (m : Lease) × (held (run_calls exact_percent calls (tables ready 1 none)) 7 ≡ some m)
    × Forward (lease_of_film ready 1 none) m
run_calls-Forward_example =
    run_calls-Forward exact_percent 7 calls (tables ready 1 none) (lease_of_film ready 1 none)
      (keys ready 1 none) refl

abbrev record_of : JobStatus → ℕ → Option ℕ → CompilationJobRecord
record_of status generation started_at = record {
  id = 7;
  group_id = 1;
  cycle_id = 3;
  status = status;
  progress = 0;
  input_count = 1;
  completed_count = 0;
  claim_generation = generation;
  attempt_count = generation;
  failure_category = none;
  retryable = false;
  delayed = false;
  processing_started_at = started_at;
  output_path = none;
  created_at = 2000;
  clip_job_ids = 101 ∷ [];
}

abbrev output : Output
output = record {
  integrity = some (record { sha256 = 77; byte_length = 900 });
  verified = true;
  same_file = true;
  renamed = true;
  output_path = 60;
  finalized_at = 6000;
}

stale_worker_example :
    (update_compilation_job_progress exact_percent (report_of 1) running_film
      ≡ (running_film, none))
    × (mark_compilation_failed 7 1 process_failed 6000 running_film ≡ running_film)
    × ((publish_compilation_output exact_percent
          (record_of processing 1 none)
          (101 ∷ [])
          output
          running_film).0
        ≡ running_film)
    × ((publish_compilation_output exact_percent
          (record_of processing 1 none)
          (101 ∷ [])
          output
          running_film).1
        ≢ Reports.published)
stale_worker_example =
    stale_worker exact_percent 7 1 running_film (lease_of_film processing 2 (some 5000))
      (report_of 1) process_failed 6000 (record_of processing 1 none) (101 ∷ []) output
      (keys processing 2 (some 5000)) refl (λ e. absurd (omega (arith, e))) refl refl refl refl

abbrev spent_film : Database
spent_film = tables failed 3 none

claim_refused_unchanged_example :
    Leaves exact_percent
      (claim_at 5000)
      spent_film
      retry_exhausted
      (claim_compilation_job exact_percent (claim_at 5000) spent_film).0
unfolding claim_compilation_job claim_found settle_inputs reconcile_compilation_job_inputs_locked
    claim_reconciled take_claim grant_claim read_compilation_job compilation_record
    accepted_compilation_inputs accepted_rows freeze_settled_compilation_inputs_locked reconciled
    is_valid_input valid_with delete_invalid compact completed_after progress_of
claim_refused_unchanged_example =
    claim_refused_unchanged exact_percent (claim_at 5000) spent_film retry_exhausted refl

claim_excludes_example :
    (claim_compilation_job exact_percent
      (claim_at 6000)
      (claim_compilation_job exact_percent (claim_at 5000) waiting_film).0).1
    ≢ claimed (record_of processing 2 (some 6000))
unfolding claim_compilation_job claim_found settle_inputs reconcile_compilation_job_inputs_locked
    claim_reconciled take_claim grant_claim read_compilation_job compilation_record
    accepted_compilation_inputs accepted_rows freeze_settled_compilation_inputs_locked reconciled
    is_valid_input valid_with delete_invalid compact completed_after progress_of
    eligible_compilation_inputs snapshot current_cycle_clips archive_clips
claim_excludes_example =
    claim_excludes exact_percent waiting_film (lease_of_film pending 0 none) (claim_at 5000)
      (claim_at 6000) 5000 6000 900_000 (record_of processing 1 (some 5000))
      (record_of processing 2 (some 6000)) (keys pending 0 none) refl (λ e. absurd (cc e)) refl refl
      refl refl (omega arith) refl

claim_granted_example :
    ((r : CompilationJobRecord) × ((claim_compilation_job exact_percent
          (claim_at 5000)
          waiting_film).1
        ≡ claimed r))
    × ((m : Lease) × (held (claim_compilation_job exact_percent (claim_at 5000) waiting_film).0 7
          ≡ some m)
        × (m.status ≡ processing)
        × (m.started_at ≡ some 5000)
        × (m.generation ≡ 1))
unfolding read_compilation_job compilation_record accepted_compilation_inputs accepted_rows
claim_granted_example =
    claim_granted exact_percent waiting_film (lease_of_film pending 0 none) (claim_at 5000) 5000
      900_000 (record (record_of pending 0 none) { retryable = true }) (keys pending 0 none) refl
      refl refl refl (λ e. absurd (cc e)) refl

publish-Published_example :
    Published exact_percent (record_of processing 2 (some 5000)) (101 ∷ []) output running_film
unfolding publish_compilation_output publish_locked may_publish frozen_compilation_inputs_complete
    reconcile_compilation_job_inputs_locked read_compilation_job compilation_record
    accepted_compilation_inputs accepted_rows reconciled is_valid_input valid_with delete_invalid
    compact completed_after progress_of
publish-Published_example =
    publish-Published exact_percent (record_of processing 2 (some 5000)) (101 ∷ []) output
      running_film (keys processing 2 (some 5000)) refl
