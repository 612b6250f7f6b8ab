-- ===== src/Jobs/Reports.antt =====
-- server/src/jobs/index.ts: what a film worker reports under its claim: its progress, its failure,
-- its film. The file system, the hash of the film and the media store are not modelled: what they
-- answer is an argument.
use rewind_app.Common.{
  ℕ, Bool, true, false, not, ◌&&◌, Option, none, some, List, [], ◌∷◌, ltb, leb, ◌==◌, min,
  if◌then◌else◌, count, update, DateValue, Number, whole, other, max_safe_integer,
}
use rewind_app.Tables.{
  JobStatus, processing, ready, failed, ErrorCode, MediaJobRow, is_film, Database,
}
use rewind_app.Jobs.Compilation.{CompilationJobRecord, read_compilation_job}
use rewind_app.Jobs.Reconcile.{
  progress_of, frozen_compilation_inputs_complete, reconcile_compilation_job_inputs_locked,
}

abbrev pub is_processing : JobStatus → Bool
is_processing processing = true
is_processing _ = false

-- The rows that a worker of a generation may still write.
abbrev pub is_claimed_row : ℕ → ℕ → MediaJobRow → Bool
is_claimed_row job_id generation j =
    (j.id == job_id)
    && is_film j.kind
    && is_processing j.status
    && (j.claim_generation == generation)

-- `progress` is `none` where the caller leaves it out. A safe negative integer, which is read as 0,
-- is passed as 0.
pub record ProgressInput : Type 0 where
  pub job_id : ℕ
  pub claim_generation : Number
  pub completed_count : Number
  pub progress : Option Number
  pub now : DateValue

-- `max(0, min(100, progress))` of a safe integer, or what the counts give.
unfoldable pub reported_progress : (ℕ → ℕ → ℕ) → Option Number → ℕ → ℕ → Option ℕ
unfolding progress_of
reported_progress percent none completed total = some (progress_of percent completed total)
reported_progress percent (some other) completed total = none
reported_progress percent (some (whole n)) completed total =
    if leb n max_safe_integer then some (min 100 n) else none

abbrev pub set_progress : ℕ → ℕ → ℕ → MediaJobRow → MediaJobRow
set_progress completed progress now j = record j {
  completed_count = completed;
  progress = progress;
  processing_started_at = some now;
  updated_at = some now;
}

-- The worker of the generation still holds the job, and its count does not go back.
unfoldable pub may_report : ℕ → ℕ → CompilationJobRecord → Bool
may_report generation completed job =
    is_processing job.status
    && (job.claim_generation == generation)
    && leb job.completed_count completed
    && leb completed job.input_count

abbrev Reported : Type 0
Reported = Database × Option CompilationJobRecord

unfoldable pub write_progress : ℕ → ℕ → ℕ → ℕ → ℕ → Database → Reported
unfolding read_compilation_job
write_progress job_id generation completed progress now db =
    let db' = record db {
      jobs =
          update (is_claimed_row job_id generation) (set_progress completed progress now) db.jobs;
    } in
    if count (is_claimed_row job_id generation) db.jobs == 1
    then (elim (read_compilation_job db' job_id none) [
      | none ↦ (db, none)
      | some job ↦ (db', some job)
    ])
    else (db, none)

module _ (percent : ℕ → ℕ → ℕ) where
  unfoldable pub report_locked : ℕ → ℕ → ℕ → Option Number → ℕ → Database → Reported
  unfolding read_compilation_job may_report reported_progress write_progress
  report_locked job_id generation completed asked now db =
      elim (read_compilation_job db job_id none) [
        | none ↦ (db, none)
        | some current ↦
            if may_report generation completed current
            then (elim (reported_progress percent asked completed current.input_count) [
              | none ↦ (db, none)
              | some progress ↦
                  if ltb progress current.progress
                  then (db, none)
                  else write_progress job_id generation completed progress now db
            ])
            else (db, none)
      ]

  -- The database after the call, and `none` where the code returns null.
  unfoldable pub update_compilation_job_progress : ProgressInput → Database → Reported
  unfolding report_locked
  update_compilation_job_progress input db = elim input.now [
    | none ↦ (db, none)
    | some now ↦ elim input.claim_generation [
      | other ↦ (db, none)
      | whole generation ↦ elim input.completed_count [
        | other ↦ (db, none)
        | whole completed ↦
            if leb generation max_safe_integer
            then report_locked input.job_id generation completed input.progress now db
            else (db, none)
      ]
    ]
  ]

abbrev pub fail_row : ErrorCode → ℕ → MediaJobRow → MediaJobRow
fail_row error_code failed_at j = record j {
  status = failed;
  output_path = none;
  error_code = some error_code;
  processing_started_at = none;
  output_sha256 = none;
  output_bytes = none;
  output_verified_at = none;
  updated_at = some failed_at;
  failed_at = some failed_at;
}

unfoldable pub mark_compilation_failed : ℕ → ℕ → ErrorCode → ℕ → Database → Database
mark_compilation_failed job_id generation error_code failed_at db = record db {
  jobs = update (is_claimed_row job_id generation) (fail_row error_code failed_at) db.jobs;
}

pub record Integrity : Type 0 where
  pub sha256 : ℕ
  pub byte_length : ℕ

-- What surrounds the transaction that publishes a film: the hash of the temporary file, if it can
-- be read; whether the media store verifies it (or there is none); whether the file is still the
-- one that was hashed; whether it can be renamed (or need not be).
pub record Output : Type 0 where
  pub integrity : Option Integrity
  pub verified : Bool
  pub same_file : Bool
  pub renamed : Bool
  pub output_path : ℕ
  pub finalized_at : ℕ

pub data Publication : Type 0 where
  published refused raised : Publication

abbrev pub publish_row : Output → Integrity → MediaJobRow → MediaJobRow
publish_row output integrity j = record j {
  status = ready;
  output_path = some output.output_path;
  completed_count = j.input_count;
  progress = 100;
  error_code = none;
  processing_started_at = none;
  updated_at = some output.finalized_at;
  failed_at = none;
  output_sha256 = some integrity.sha256;
  output_bytes = some integrity.byte_length;
  output_verified_at = some (some output.finalized_at);
}

abbrev pub same_ids : List ℕ → List ℕ → Bool
same_ids [] [] = true
same_ids (x ∷ xs) (y ∷ ys) = (x == y) && same_ids xs ys
same_ids [] (y ∷ ys) = false
same_ids (x ∷ xs) [] = false

unfoldable pub may_publish : Database → CompilationJobRecord → List ℕ → CompilationJobRecord → Bool
unfolding frozen_compilation_inputs_complete
may_publish db job expected current =
    is_processing current.status
    && (current.claim_generation == job.claim_generation)
    && not (current.input_count == 0)
    && frozen_compilation_inputs_complete db current
    && same_ids current.clip_job_ids expected

module _ (percent : ℕ → ℕ → ℕ) where
  unfoldable pub publish_locked :
      CompilationJobRecord → List ℕ → Output → Integrity → Database → Database × Publication
  unfolding reconcile_compilation_job_inputs_locked may_publish
  publish_locked job expected output integrity db =
      let (db', current) = reconcile_compilation_job_inputs_locked percent job.id db in
      elim current [
        | none ↦ (db, refused)
        | some current ↦
            let row = is_claimed_row job.id job.claim_generation in
            if may_publish db' job expected current && output.same_file
            then (if output.renamed
                then (if count row db'.jobs == 1
                    then (
                      record db' { jobs = update row (publish_row output integrity) db'.jobs },
                      published,
                    )
                    else (db, refused))
                else (db, raised))
            else (db, refused)
      ]

  unfoldable pub publish_compilation_output :
      CompilationJobRecord → List ℕ → Output → Database → Database × Publication
  unfolding publish_locked
  publish_compilation_output job expected output db = elim output.integrity [
    | none ↦ (db, refused)
    | some integrity ↦
        if output.verified then publish_locked job expected output integrity db else (db, raised)
  ]
