-- ===== src/Contributions/Deletion.antt =====
-- server/src/contributions/index.ts: `deleteContribution`, one transaction. `err` stands for
-- ROLLBACK and the reason returned; `thrown` is an exception that the caller gets. The removal of
-- the two files after the commit is the list of the paths that `safeRemoveOwnedPath` is called on.
pub mod Run
pub mod Effects
mod Tests
use rewind_app.Common.{
  ℕ, ◌+◌, ◌-◌, Bool, true, false, not, ◌&&◌, Option, none, some, List, ltb, ◌==◌, same, is_some,
  keep, find, count, fmap, update, DateValue, Result, ok, err, ◌>>=◌, ◌>>◌, guard,
}
use rewind_app.Tables.{
  StoredStatus, CycleRow, ContributionRow, JobStatus, pending, processing, ready, failed, deleted,
  contribution_deleted, MediaJobRow, is_clip, Database,
}
use rewind_app.Cycles.Engine.{CycleStatus, CyclePhase, cycle_phase}
use rewind_app.Contributions.Quota.{Doubles, QuotaWindow, contribution_quota_window, has_key}

pub data DeleteContributionFailure : Type 0 where
  not_found already_deleted deletion_used not_eligible is_processing thrown :
      DeleteContributionFailure

-- A row of `staged_sources`.
pub record StagedSource : Type 0 where
  pub source_uri : ℕ
  pub group_id : ℕ
  pub member_id : ℕ

pub record Store : Type 0 where
  pub database : Database
  pub windows : List QuotaWindow
  pub metadata : List ℕ
  pub staged : List StagedSource

-- The joined row, its job as far as there is one.
pub record Deletable : Type 0 where
  pub contribution : ContributionRow
  pub cycle : CycleRow
  pub job : Option MediaJobRow

pub record Deleted : Type 0 where
  pub store : Store
  pub contribution_id : ℕ
  pub job_id : ℕ
  pub restored_count : ℕ
  pub restored_seconds : ℕ
  pub removed_output : Option ℕ
  pub removed_source : Option ℕ

abbrev pub clip_of : ℕ → MediaJobRow → Bool
clip_of contribution_id j = same j.contribution_id (some contribution_id) && is_clip j.kind

abbrev pub owned_by : ℕ → ℕ → ContributionRow → Bool
owned_by contribution_id member_id c = (c.id == contribution_id) && (c.member_id == member_id)

abbrev pub deletable : ℕ → ℕ → ℕ → Database → Option Deletable
deletable group_id member_id contribution_id db =
    elim (find (owned_by contribution_id member_id) db.contributions) [
      | none ↦ none
      | some c ↦
          fmap
            (λ (cy : CycleRow). record {
              contribution = c;
              cycle = cy;
              job = find (clip_of c.id) db.jobs;
            })
            (find (λ (cy : CycleRow). (cy.id == c.cycle_id) && (cy.group_id == group_id)) db.cycles)
    ]

-- Any status but the two is looked up by the clock.
abbrev engine_status : StoredStatus → CycleStatus
engine_status StoredStatus.revealing = CycleStatus.revealing
engine_status StoredStatus.archived = CycleStatus.archived
engine_status StoredStatus.collecting = CycleStatus.collecting
engine_status StoredStatus.unknown = CycleStatus.collecting

abbrev is_collecting : CyclePhase → Bool
is_collecting CyclePhase.collecting = true
is_collecting _ = false

abbrev or_thrown {ℓ κ} : {E : Type ℓ} {A : Type κ} → Result E A → Result DeleteContributionFailure A
or_thrown (ok a) = ok a
or_thrown (err e) = err thrown

-- The checks on the job's status, in their order.
unfoldable pub deletable_job : Option MediaJobRow → Result DeleteContributionFailure MediaJobRow
deletable_job none = err not_eligible
deletable_job (some j) = elim j.status [
  | processing ↦ err is_processing
  | pending ↦ ok j
  | failed ↦ ok j
  | ready ↦ ok j
  | deleted ↦ err not_eligible
]

abbrev present : Option ℕ → Result DeleteContributionFailure ℕ
present none = err not_eligible
present (some t) = ok t

-- The start of the allowance window that the contribution was charged to, if it is the current one.
unfoldable pub current_window_start : Deletable → DateValue → Result DeleteContributionFailure ℕ
current_window_start row now = do
  phase ← or_thrown (
      cycle_phase (engine_status row.cycle.status)
        (record { starts_at = row.cycle.starts_at; ends_at = row.cycle.ends_at }) now)
  _ ← guard (is_collecting phase) not_eligible
  charged ← present row.contribution.quota_window_start_at
  current ← or_thrown (contribution_quota_window row.cycle.starts_at row.cycle.ends_at now)
  _ ← guard (charged == current.starts_at) not_eligible
  ok charged

-- `WHERE ... AND deletions_used < 1`
abbrev pub may_delete : ℕ → ℕ → ℕ → QuotaWindow → Bool
may_delete cycle_id member_id starts_at w =
    has_key cycle_id member_id starts_at w && ltb w.deletions_used 1

abbrev pub refund : Doubles → ℕ → QuotaWindow → QuotaWindow
refund f64 duration w = record w {
  count_used = w.count_used - 1;
  seconds_used = f64.take_off w.seconds_used duration;
  deletions_used = w.deletions_used + 1;
}

abbrev pub is_open_status : JobStatus → Bool
is_open_status pending = true
is_open_status failed = true
is_open_status ready = true
is_open_status processing = false
is_open_status deleted = false

abbrev pub tombstone : ℕ → MediaJobRow → MediaJobRow
tombstone now j = record j {
  status = deleted;
  deleted_at = some now;
  output_path = none;
  output_sha256 = none;
  output_bytes = none;
  output_verified_at = none;
  source_uri = none;
  source_generation = none;
  source_path = none;
  error_code = some contribution_deleted;
}

abbrev pub refund_cycle : Doubles → ℕ → CycleRow → CycleRow
refund_cycle f64 duration c = record c {
  count_used = c.count_used - 1;
  seconds_used = f64.take_off c.seconds_used duration;
}

-- The statements after the allowance, on contributions, jobs and cycles.
unfoldable pub tombstone_rows : Doubles → ContributionRow → ℕ → ℕ → Database → Database
tombstone_rows f64 c job_id now db = record db {
  contributions =
      update (λ (x : ContributionRow). (x.id == c.id) && not (is_some x.deleted_at))
        (λ x. record x { deleted_at = some now }) db.contributions;
  jobs =
      update (λ (j : MediaJobRow). (j.id == job_id) && is_clip j.kind && is_open_status j.status)
        (tombstone now) db.jobs;
  cycles = update (λ (x : CycleRow). x.id == c.cycle_id) (refund_cycle f64 c.duration) db.cycles;
}

-- The staged source goes with its metadata, where the job has one.
abbrev drop_source : Option ℕ → ℕ → ℕ → Store → Store
drop_source none group_id member_id s = s
drop_source (some uri) group_id member_id s = record s {
  metadata = keep (λ m. not (m == uri)) s.metadata;
  staged =
      keep
        (λ (x : StagedSource).
          not ((x.source_uri == uri) && (x.group_id == group_id) && (x.member_id == member_id)))
        s.staged;
}

unfoldable pub commit_deletion : Doubles → ℕ → Deletable → MediaJobRow → ℕ → ℕ → Store → Deleted
unfolding tombstone_rows
commit_deletion f64 group_id row job charged now s =
    let c = row.contribution in
    record {
      store = drop_source job.source_uri group_id c.member_id (record s {
        database = tombstone_rows f64 c job.id now s.database;
        windows =
            update (may_delete c.cycle_id c.member_id charged) (refund f64 c.duration) s.windows;
      });
      contribution_id = c.id;
      job_id = job.id;
      restored_count = 1;
      restored_seconds = c.duration;
      removed_output = job.output_path;
      removed_source = job.source_path;
    }

-- The chain of early returns of a row that was found, to the commit.
unfoldable pub delete_row :
    Doubles → ℕ → Deletable → DateValue → Store → Result DeleteContributionFailure Deleted
unfolding deletable_job current_window_start
delete_row f64 group_id row now s = do
  _ ← guard (not (is_some row.contribution.deleted_at)) already_deleted
  job ← deletable_job row.job
  charged ← current_window_start row now
  _ ←
      guard
        (count (may_delete row.contribution.cycle_id row.contribution.member_id charged) s.windows
          == 1)
        deletion_used
  elim now [ none ↦ err thrown | some t ↦ ok (commit_deletion f64 group_id row job charged t s) ]

unfoldable pub delete_contribution :
    Doubles → ℕ → ℕ → ℕ → DateValue → Store → Result DeleteContributionFailure Deleted
unfolding delete_row
delete_contribution f64 group_id member_id contribution_id now s =
    elim (deletable group_id member_id contribution_id s.database) [
      | none ↦ err not_found
      | some row ↦ delete_row f64 group_id row now s
    ]
