-- ===== src/Jobs/Claims.antt =====
-- server/src/jobs/index.ts: the claims of the film workers. A claim carries a generation, which
-- fences what an earlier worker still reports, fails or publishes. `BEGIN ... ROLLBACK` answers the
-- database that it was given.
use rewind_app.Common.{
  ℕ, ◌+◌, Bool, true, false, not, ◌&&◌, Option, none, some, ltb, leb, ◌==◌, if◌then◌else◌, or_else,
  update, DateValue, Number, whole, other,
}
use rewind_app.Tables.{
  JobStatus, pending, processing, ready, failed, deleted, MediaJobRow, is_film, is_ready, Database,
}
use rewind_app.Jobs.Compilation.{
  max_compilation_attempts, CompilationJobRecord, read_compilation_job,
}
use rewind_app.Jobs.Reconcile.{
  waiting, unavailable, settled, accepted_clip_automatic_attempts, accepted_compilation_inputs,
  freeze_settled_compilation_inputs_locked, reconcile_compilation_job_inputs_locked,
}

abbrev pub processing_claim_lease_ms : ℕ
processing_claim_lease_ms = 900_000

-- `now` is `none` where the date does not parse.
pub record ClaimInput : Type 0 where
  pub job_id : ℕ
  pub group_id : Option ℕ
  pub now : DateValue
  pub lease_ms : Option Number
  pub require_settled_inputs : Bool
  pub clip_attempt_cap : Option ℕ

pub data ClaimReason : Type 0 where
  not_found invalid_state retry_exhausted waiting_for_inputs : ClaimReason

pub data ClaimResult : Type 0 where
  refused : ClaimReason → ClaimResult
  already_ready already_processing claimed : CompilationJobRecord → ClaimResult

-- A lease that is not a finite positive number is refused; a positive one is in whole
-- milliseconds.
abbrev pub lease_of : Option Number → Option ℕ
lease_of none = some processing_claim_lease_ms
lease_of (some other) = none
lease_of (some (whole n)) = if n == 0 then none else some n

abbrev pub is_held : Option ℕ → ℕ → ℕ → Bool
is_held none lease now = false
is_held (some started_at) lease now = ltb now (started_at + lease)

abbrev pub is_claimable : JobStatus → Bool
is_claimable pending = true
is_claimable failed = true
is_claimable processing = true
is_claimable ready = false
is_claimable deleted = false

abbrev pub starts_new_attempt : JobStatus → Bool
starts_new_attempt pending = true
starts_new_attempt failed = true
starts_new_attempt _ = false

abbrev pub begin_attempt : ℕ → ℕ → ℕ → MediaJobRow → MediaJobRow
begin_attempt now generation attempt_count j = record j {
  status = processing;
  error_code = none;
  processing_started_at = some now;
  claim_generation = generation;
  attempt_count = attempt_count;
  updated_at = some now;
  failed_at = none;
}

unfoldable pub grant_claim : ℕ → CompilationJobRecord → Database → Database
grant_claim now job db = record db {
  jobs =
      update (λ (j : MediaJobRow). (j.id == job.id) && is_film j.kind && is_claimable j.status)
        (begin_attempt now (job.claim_generation + 1)
          (job.attempt_count + (if starts_new_attempt job.status then 1 else 0)))
        db.jobs;
}

-- Every status but `ready` and a live `processing`.
unfoldable pub take_claim :
    ℕ → Option ℕ → Database → CompilationJobRecord → Database → Database × ClaimResult
unfolding grant_claim read_compilation_job
take_claim now group_id before job db =
    let db' = grant_claim now job db in
    elim (read_compilation_job db' job.id group_id) [
      | none ↦ (before, refused invalid_state)
      | some job' ↦ (db', claimed job')
    ]

unfoldable pub claim_reconciled :
    ℕ → ℕ → Option ℕ → Database → CompilationJobRecord → Database → Database × ClaimResult
unfolding take_claim
claim_reconciled now lease group_id before job db = elim job.status [
  | ready ↦ (db, already_ready job)
  | processing ↦
      if is_held job.processing_started_at lease now
      then (db, already_processing job)
      else take_claim now group_id before job db
  | failed ↦
      if leb max_compilation_attempts job.attempt_count
      then (db, refused retry_exhausted)
      else take_claim now group_id before job db
  | pending ↦ take_claim now group_id before job db
  | deleted ↦ (before, refused invalid_state)
]

-- The inputs are frozen once, when the first claim finds them settled.
unfoldable pub settle_inputs : ClaimInput → Database → CompilationJobRecord → Option Database
unfolding accepted_compilation_inputs freeze_settled_compilation_inputs_locked
settle_inputs input db job =
    if input.require_settled_inputs && not (is_ready job.status)
    then (elim (accepted_compilation_inputs db job
        (or_else input.clip_attempt_cap accepted_clip_automatic_attempts)) [
          | waiting ↦ none
          | unavailable ↦ some db
          | settled ids ↦ some (
              if job.claim_generation == 0
              then freeze_settled_compilation_inputs_locked db job
              else db)
        ])
    else some db

module _ (percent : ℕ → ℕ → ℕ) where
  unfoldable pub claim_found :
      ClaimInput → ℕ → ℕ → Database → CompilationJobRecord → Database × ClaimResult
  unfolding settle_inputs reconcile_compilation_job_inputs_locked claim_reconciled
  claim_found input now lease db job = elim (settle_inputs input db job) [
    | none ↦ (db, refused waiting_for_inputs)
    | some db' ↦
        let (db'', reconciled_job) = reconcile_compilation_job_inputs_locked percent job.id db' in
        elim reconciled_job [
          | none ↦ (db, refused invalid_state)
          | some job' ↦ claim_reconciled now lease input.group_id db job' db''
        ]
  ]

  unfoldable pub claim_compilation_job : ClaimInput → Database → Database × ClaimResult
  unfolding claim_found read_compilation_job
  claim_compilation_job input db = elim input.now [
    | none ↦ (db, refused invalid_state)
    | some now ↦ elim (lease_of input.lease_ms) [
      | none ↦ (db, refused invalid_state)
      | some lease ↦ elim (read_compilation_job db input.job_id input.group_id) [
        | none ↦ (db, refused not_found)
        | some job ↦ claim_found input now lease db job
      ]
    ]
  ]
