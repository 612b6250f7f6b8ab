-- ===== src/Contributions/Deletion/Tests.antt =====
-- Tests and instances for `deleteContribution`.
use rewind_app.Common.{
  ℕ, ◌+◌, ◌-◌, ◌*◌, ◌≡◌, refl, none, some, [], ◌∷◌, find, Result, ok, err, arith,
}
use rewind_app.Tables.{
  StoredStatus, CycleRow, ContributionRow, MediaJobRow, locked, unpublished, clip, ready,
  processing, video, JobStatus,
}
use rewind_app.Cycles.Engine.{cycle_phase, phase_between}
use rewind_app.Contributions.Quota.{Doubles, QuotaWindow, has_key, contribution_quota_window}
use rewind_app.Contributions.Deletion.{
  Store, Deletable, Deleted, is_processing, not_eligible, deletable_job, current_window_start,
  refund, tombstone_rows, commit_deletion, delete_row, delete_contribution,
  DeleteContributionFailure,
}
use rewind_app.Contributions.Deletion.Effects.{deletion-once_per_window, deletion-refund}

-- Doubles that are whole microseconds, and their exact sums.
abbrev micros : Doubles
micros = record { of_whole = λ n. n * 1_000_000; add = λ a b. a + b; take_off = λ a b. a - b }

abbrev cycle : CycleRow
cycle = record {
  id = 7;
  group_id = 1;
  prompt = 5;
  starts_at = some 1000;
  ends_at = some 900_000_000;
  status = StoredStatus.collecting;
  lock_state = locked;
  max_count = 4;
  max_seconds = 30;
  count_used = 2;
  seconds_used = 9_000_000;
  release_status = unpublished;
  release_published_at = none;
  previous_cycle_id = none;
}

abbrev contribution : ℕ → ContributionRow
contribution id = record {
  id = id;
  cycle_id = 7;
  member_id = 3;
  media_job_id = some (id + 100);
  duration = 4_000_000;
  created_at = 2000;
  quota_window_start_at = some 1000;
  deleted_at = none;
  replaced_by = none;
  removed_at = none;
}

abbrev clip_job : ℕ → JobStatus → MediaJobRow
clip_job id status = record {
  id = id + 100;
  group_id = 1;
  contribution_id = some id;
  kind = clip;
  status = status;
  output_path = some 40;
  created_at = 2000;
  source_path = none;
  source_uri = some 60;
  source_generation = some 1;
  error_code = none;
  processing_started_at = none;
  cycle_id = some 7;
  progress = 100;
  input_count = 0;
  completed_count = 0;
  claim_generation = 1;
  deleted_at = none;
  attempt_count = 1;
  updated_at = none;
  failed_at = none;
  output_sha256 = some 9;
  output_bytes = some 88;
  output_verified_at = some (some 2500);
  media_type = video;
}

abbrev window : QuotaWindow
window = record {
  id = 70;
  cycle_id = 7;
  member_id = 3;
  starts_at = 1000;
  ends_at = 604_801_000;
  max_count = 5;
  max_seconds = 30;
  count_used = 2;
  seconds_used = 9_000_000;
  deletions_used = 0;
}

abbrev store : JobStatus → Store
store status = record {
  database = record {
    cycles = cycle ∷ [];
    groups = [];
    events = [];
    contributions = contribution 20 ∷ contribution 21 ∷ [];
    jobs = clip_job 20 status ∷ clip_job 21 ready ∷ [];
    inputs = [];
  };
  windows = window ∷ [];
  metadata = 60 ∷ 61 ∷ [];
  staged = record { source_uri = 60; group_id = 1; member_id = 3 } ∷ [];
}

abbrev row_of : ℕ → ContributionRow → CycleRow → Deletable
row_of id c cy = record { contribution = c; cycle = cy; job = some (clip_job id ready) }

abbrev value_of : Result DeleteContributionFailure Deleted → Deleted
value_of (ok r) = r
value_of (err e) = record {
  store = store ready;
  contribution_id = 0;
  job_id = 0;
  restored_count = 0;
  restored_seconds = 0;
  removed_output = none;
  removed_source = none;
}

abbrev first : Deleted
first = value_of (delete_contribution micros 1 3 20 (some 5000) (store ready))

while_processing :
    delete_contribution micros 1 3 20 (some 5000) (store processing) ≡ err is_processing
unfolding delete_contribution delete_row deletable_job
while_processing = refl

last_week : delete_contribution micros 1 3 20 (some 700_000_000) (store ready) ≡ err not_eligible
unfolding delete_contribution delete_row deletable_job current_window_start cycle_phase
    phase_between contribution_quota_window
last_week = refl

source_dropped :
    (first.store.metadata ≡ 61 ∷ []) × (first.store.staged ≡ []) × (first.removed_output ≡ some 40)
unfolding delete_contribution delete_row deletable_job current_window_start cycle_phase
    phase_between contribution_quota_window commit_deletion
source_dropped = (refl, refl, refl)

deletion-refund_example :
    (window.deletions_used ≡ 0)
    × (find (has_key 7 3 1000) first.store.windows ≡ some (refund micros 4_000_000 window))
    × (first.restored_seconds ≡ 4_000_000)
unfolding delete_contribution delete_row deletable_job current_window_start cycle_phase
    phase_between contribution_quota_window commit_deletion
deletion-refund_example =
    deletion-refund micros 1 3 (store ready) first 20 (some 5000) refl
      (row_of 20 (contribution 20) cycle) 1000 window refl refl (omega arith) refl

abbrev cycle_after : CycleRow
cycle_after = record cycle { count_used = 1; seconds_used = 5_000_000 }

deletion-once_per_window_example :
    ¬ ((r' : Deleted) × (delete_contribution micros 1 3 21 (some 6000) first.store ≡ ok r'))
unfolding delete_contribution delete_row deletable_job current_window_start cycle_phase
    phase_between contribution_quota_window commit_deletion tombstone_rows
deletion-once_per_window_example =
    deletion-once_per_window micros 1 3 (store ready) first 20 (some 5000) refl 21 (some 6000)
      (row_of 20 (contribution 20) cycle) (row_of 21 (contribution 21) cycle_after) refl refl refl
      refl
