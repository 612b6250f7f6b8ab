-- ===== src/Tables.antt =====
-- The rows that the components share: cycles, groups, contributions and media jobs, with the
-- columns of server/migrations/postgres/030-baseline.sql that the modelled code reads or writes.
-- Identifiers, paths, prompts and digests are numbers that stand for the texts; `none` is NULL.
-- Durations and seconds are doubles, as in Contributions/Quota.antt.
use rewind_app.Common.{ℕ, Bool, true, false, Option, List, DateValue}

pub data StoredStatus : Type 0 where
  collecting revealing archived unknown : StoredStatus

pub data LockState : Type 0 where
  locked unlocked : LockState

pub data ReleaseStatus : Type 0 where
  unpublished published : ReleaseStatus

pub record CycleRow : Type 0 where
  pub id : ℕ
  pub group_id : ℕ
  pub prompt : ℕ
  pub starts_at : DateValue
  pub ends_at : DateValue
  pub status : StoredStatus
  pub lock_state : LockState
  pub max_count : ℕ
  pub max_seconds : ℕ
  pub count_used : ℕ
  pub seconds_used : ℕ
  pub release_status : ReleaseStatus
  pub release_published_at : Option DateValue
  pub previous_cycle_id : Option ℕ

pub record GroupRow : Type 0 where
  pub id : ℕ
  pub current_cycle_id : Option ℕ

pub data Transition : Type 0 where
  collecting_to_revealing revealing_to_archived next_cycle_created : Transition

-- A row of `cycle_lifecycle_events`, less its random identifier, which nothing reads.
pub record EventRow : Type 0 where
  pub cycle_id : ℕ
  pub group_id : ℕ
  pub transition : Transition
  pub occurred_at : ℕ

pub record ContributionRow : Type 0 where
  pub id : ℕ
  pub cycle_id : ℕ
  pub member_id : ℕ
  pub media_job_id : Option ℕ
  pub duration : ℕ
  pub created_at : ℕ
  pub quota_window_start_at : Option ℕ
  pub deleted_at : Option ℕ
  pub replaced_by : Option ℕ
  pub removed_at : Option ℕ

pub data JobKind : Type 0 where
  clip film download : JobKind

pub data JobStatus : Type 0 where
  pending processing ready failed deleted : JobStatus

pub data MediaType : Type 0 where
  video photo : MediaType

pub data ErrorCode : Type 0 where
  invalid_metadata source_unavailable process_failed cleanup_failed : ErrorCode
  contribution_deleted other_code : ErrorCode

-- A row of `media_jobs`. `output_sha256` is NULL too where the text is not 64 hex digits.
pub record MediaJobRow : Type 0 where
  pub id : ℕ
  pub group_id : ℕ
  pub contribution_id : Option ℕ
  pub kind : JobKind
  pub status : JobStatus
  pub output_path : Option ℕ
  pub created_at : ℕ
  pub source_path : Option ℕ
  pub source_uri : Option ℕ
  pub source_generation : Option ℕ
  pub error_code : Option ErrorCode
  pub processing_started_at : Option ℕ
  pub cycle_id : Option ℕ
  pub progress : ℕ
  pub input_count : ℕ
  pub completed_count : ℕ
  pub claim_generation : ℕ
  pub deleted_at : Option ℕ
  pub attempt_count : ℕ
  pub updated_at : Option ℕ
  pub failed_at : Option ℕ
  pub output_sha256 : Option ℕ
  pub output_bytes : Option ℕ
  pub output_verified_at : Option DateValue
  pub media_type : MediaType

-- A row of `compilation_job_inputs`.
pub record InputRow : Type 0 where
  pub job_id : ℕ
  pub clip_job_id : ℕ
  pub contribution_id : ℕ
  pub position : ℕ

abbrev pub is_clip : JobKind → Bool
is_clip clip = true
is_clip _ = false

abbrev pub is_film : JobKind → Bool
is_film film = true
is_film _ = false

abbrev pub is_ready : JobStatus → Bool
is_ready ready = true
is_ready _ = false

pub record Database : Type 0 where
  pub cycles : List CycleRow
  pub groups : List GroupRow
  pub events : List EventRow
  pub contributions : List ContributionRow
  pub jobs : List MediaJobRow
  pub inputs : List InputRow
