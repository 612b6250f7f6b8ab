-- ===== src/Jobs/Clips/Tests.antt =====
-- Tests and instances for the clip jobs of server/src/jobs/index.ts.
use rewind_app.Common.{ℕ, ◌≡◌, ◌≢◌, refl, true, false, Option, none, some, [], ◌∷◌, arith}
use rewind_app.Tables.{MediaJobRow, JobStatus, clip, pending, processing, video, process_failed}
use rewind_app.Jobs.Reports.{published}
use rewind_app.Jobs.Clips.{
  ClipState, binding, claim_clip_job, claim_locked, claimed_row, mark_output_prepared, mark_failed,
  Prepared, finalize_prepared_output, finalize_locked, drop_source,
}
use rewind_app.Jobs.Clips.Claimed.{Takes, claim-Takes}
use rewind_app.Jobs.Clips.Fenced.{stale_clip_worker, PublishesClip, finalize-PublishesClip}

abbrev clip_job : JobStatus → ℕ → Option ℕ → Option ℕ → MediaJobRow
clip_job status generation started_at output_path = record {
  id = 101;
  group_id = 1;
  contribution_id = some 1;
  kind = clip;
  status = status;
  output_path = output_path;
  created_at = 2000;
  source_path = some 60;
  source_uri = some 70;
  source_generation = some 1;
  error_code = none;
  processing_started_at = started_at;
  cycle_id = none;
  progress = 0;
  input_count = 0;
  completed_count = 0;
  claim_generation = generation;
  deleted_at = none;
  attempt_count = generation;
  updated_at = none;
  failed_at = none;
  output_sha256 = none;
  output_bytes = none;
  output_verified_at = none;
  media_type = video;
}

abbrev state : MediaJobRow → ClipState
state job = record {
  tables = record {
    cycles = [];
    groups = [];
    events = [];
    contributions = [];
    jobs = job ∷ [];
    inputs = [];
  };
  staged =
      record { source_uri = 70; is_staged = true; claim_generation = 1; source_path = some 60 }
      ∷ [];
  metadata = 70 ∷ [];
}

abbrev waiting_clip : MediaJobRow
waiting_clip = clip_job pending 0 none none

abbrev taken_row : MediaJobRow
taken_row = claimed_row 5000 waiting_clip

claim-Takes_example : Takes 101 5000 (some 3) (state waiting_clip) taken_row
unfolding claim_clip_job claim_locked binding
claim-Takes_example = claim-Takes 101 5000 (some 3) (state waiting_clip) taken_row refl

abbrev prepared : Prepared
prepared = record {
  integrity = some (record { sha256 = 77; byte_length = 900 });
  same_file = true;
  moved = true;
  output_path = 80;
  is_part = true;
  final_output_path = 81;
  finalized_at = 9000;
}

abbrev running : ClipState
running = state (clip_job processing 2 (some 7000) (some 80))

stale_clip_worker_example :
    (mark_output_prepared taken_row 80 9000 running ≡ (running, false))
    × (mark_failed taken_row process_failed 9000 running ≡ (running, false))
    × ((finalize_prepared_output taken_row prepared running).0 ≡ running)
    × ((finalize_prepared_output taken_row prepared running).1 ≢ published)
stale_clip_worker_example =
    stale_clip_worker taken_row (clip_job processing 2 (some 7000) (some 80)) 80 9000 prepared
      process_failed running refl (λ e. absurd (omega (arith, e)))

abbrev second_row : MediaJobRow
second_row = clip_job processing 2 (some 7000) none

finalize-PublishesClip_example :
    PublishesClip second_row (clip_job processing 2 (some 7000) (some 80)) prepared running
unfolding finalize_prepared_output finalize_locked binding drop_source
finalize-PublishesClip_example =
    finalize-PublishesClip second_row (clip_job processing 2 (some 7000) (some 80)) 7000 prepared
      running refl refl refl refl
