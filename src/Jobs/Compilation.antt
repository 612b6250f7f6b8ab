-- ===== src/Jobs/Compilation.antt =====
-- server/src/jobs/index.ts: the one film job of a closed cycle and the record that is read back.
-- The identifier of the film, a digest of the group and the cycle from node's crypto, is an
-- argument, and is taken to be new where a film is inserted: the primary key refuses no insertion.
pub mod Film
pub mod Snapshot
mod Tests
use rewind_app.Common.{
  ℕ, ◌+◌, Bool, true, false, not, ◌&&◌, ◌||◌, Option, none, some, List, [], ◌∷◌, ◌++◌, map, ltb,
  ◌==◌, same, is_some, if◌then◌else◌, keep, find, length, order_by, fmap,
}
use rewind_app.Jobs.Inputs.{before_by, EligibleRow, cycle_of, eligible_compilation_inputs}
use rewind_app.Tables.{
  revealing, archived, CycleRow, film, JobStatus, pending, processing, ready, failed, deleted,
  video, ErrorCode, MediaJobRow, InputRow, is_film, Database,
}

abbrev pub max_compilation_attempts : ℕ
max_compilation_attempts = 3

pub record CompilationJobRecord : Type 0 where
  pub id : ℕ
  pub group_id : ℕ
  pub cycle_id : ℕ
  pub status : JobStatus
  pub progress : ℕ
  pub input_count : ℕ
  pub completed_count : ℕ
  pub claim_generation : ℕ
  pub attempt_count : ℕ
  pub failure_category : Option ErrorCode
  pub retryable : Bool
  pub delayed : Bool
  pub processing_started_at : Option ℕ
  pub output_path : Option ℕ
  pub created_at : ℕ
  pub clip_job_ids : List ℕ

abbrev pub clip_job_ids : Database → ℕ → List ℕ
clip_job_ids db job_id =
    map (λ (i : InputRow). i.clip_job_id)
      (order_by
        (λ (i j : InputRow). before_by i.position j.position (ltb i.clip_job_id j.clip_job_id))
        (keep (λ (i : InputRow). i.job_id == job_id) db.inputs))

-- Any status but these three is read as pending.
abbrev pub read_status : JobStatus → JobStatus
read_status processing = processing
read_status ready = ready
read_status failed = failed
read_status pending = pending
read_status deleted = pending

abbrev is_failed : JobStatus → Bool
is_failed failed = true
is_failed _ = false

abbrev is_pending : JobStatus → Bool
is_pending pending = true
is_pending _ = false

unfoldable pub compilation_record : Database → MediaJobRow → ℕ → CompilationJobRecord
compilation_record db row cycle_id =
    let status = read_status row.status in
    let retryable =
      (is_pending status || is_failed status) && ltb row.attempt_count max_compilation_attempts in
    record {
      id = row.id;
      group_id = row.group_id;
      cycle_id = cycle_id;
      status = status;
      progress = row.progress;
      input_count = row.input_count;
      completed_count = row.completed_count;
      claim_generation = row.claim_generation;
      attempt_count = row.attempt_count;
      failure_category = if is_failed status then row.error_code else none;
      retryable = retryable;
      delayed = is_failed status && not retryable;
      processing_started_at = row.processing_started_at;
      output_path = row.output_path;
      created_at = row.created_at;
      clip_job_ids = clip_job_ids db row.id;
    }

-- `groupId ? 'AND group_id = ?' : ''`
abbrev pub in_group : Option ℕ → ℕ → Bool
in_group none id = true
in_group (some group_id) id = id == group_id

unfoldable pub read_compilation_job : Database → ℕ → Option ℕ → Option CompilationJobRecord
unfolding compilation_record
read_compilation_job db job_id group_id =
    elim (find
      (λ (j : MediaJobRow).
        (j.id == job_id) && is_film j.kind && is_some j.cycle_id && in_group group_id j.group_id)
      db.jobs) [ none ↦ none | some row ↦ fmap (compilation_record db row) row.cycle_id ]

-- `INSERT`s of the snapshot, with the positions counted from `position`.
unfoldable pub snapshot : ℕ → ℕ → List EligibleRow → List InputRow
snapshot job_id position [] = []
snapshot job_id position (r ∷ rs) =
    record {
      job_id = job_id;
      clip_job_id = r.clip_job_id;
      contribution_id = r.contribution_id;
      position = position;
    }
    ∷ snapshot job_id (position + 1) rs

unfoldable pub new_film : ℕ → ℕ → ℕ → ℕ → ℕ → MediaJobRow
new_film film_id group_id cycle_id created_at input_count = record {
  id = film_id;
  group_id = group_id;
  contribution_id = none;
  kind = film;
  status = pending;
  output_path = none;
  created_at = created_at;
  source_path = none;
  source_uri = none;
  source_generation = none;
  error_code = none;
  processing_started_at = none;
  cycle_id = some cycle_id;
  progress = 0;
  input_count = input_count;
  completed_count = 0;
  claim_generation = 0;
  deleted_at = none;
  attempt_count = 0;
  updated_at = some created_at;
  failed_at = none;
  output_sha256 = none;
  output_bytes = none;
  output_verified_at = none;
  media_type = video;
}

abbrev pub is_film_of : ℕ → ℕ → MediaJobRow → Bool
is_film_of group_id cycle_id j =
    is_film j.kind && same j.cycle_id (some cycle_id) && (j.group_id == group_id)

abbrev pub is_closed : Option CycleRow → Bool
is_closed none = false
is_closed (some cy) = elim cy.status [ revealing ↦ true | archived ↦ true | _ ↦ false ]

unfoldable pub insert_film : ℕ → ℕ → ℕ → ℕ → Database → Database
unfolding snapshot new_film eligible_compilation_inputs
insert_film film_id group_id cycle_id created_at db =
    let eligible = eligible_compilation_inputs db group_id cycle_id in
    record db {
      jobs = db.jobs ++ new_film film_id group_id cycle_id created_at (length eligible) ∷ [];
      inputs = db.inputs ++ snapshot film_id 0 eligible;
    }

-- Inside the caller's transaction: the database after it, and `none` where the code returns null.
unfoldable pub ensure_compilation_job :
    ℕ → ℕ → ℕ → ℕ → Database → Database × Option CompilationJobRecord
unfolding insert_film read_compilation_job
ensure_compilation_job film_id group_id cycle_id created_at db =
    if is_closed (cycle_of db group_id cycle_id)
    then (elim (find (is_film_of group_id cycle_id) db.jobs) [
      | some existing ↦ (db, read_compilation_job db existing.id (some group_id))
      | none ↦
          let db' = insert_film film_id group_id cycle_id created_at db in
          (db', read_compilation_job db' film_id (some group_id))
    ])
    else (db, none)
