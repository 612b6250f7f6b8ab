-- ===== src/Jobs/Lease.antt =====
-- The contract of server/src/jobs/index.ts for the workers of a film: what a worker can see of the
-- job, and the steps that the claims, the reports and the publication take on it.
pub mod Rows
pub mod Claiming
pub mod Reporting
pub mod Runs
pub mod Fence
pub mod Published
pub mod Readable
pub mod Answers
pub mod Grants
mod Tests
use rewind_app.Common.{
  ℕ, ◌+◌, ◌≤◌, ◌<◌, ◌≡◌, Bool, false, Option, none, some, ◌==◌, find, count, fmap,
}
use rewind_app.Tables.{JobStatus, pending, processing, ready, failed, MediaJobRow, Database}
use rewind_app.Jobs.Compilation.{max_compilation_attempts}
use rewind_app.Jobs.Claims.{is_held}

pub record Lease : Type 0 where
  pub status : JobStatus
  pub generation : ℕ
  pub attempts : ℕ
  pub started_at : Option ℕ
  pub output_path : Option ℕ

abbrev pub lease_of_row : MediaJobRow → Lease
lease_of_row j = record {
  status = j.status;
  generation = j.claim_generation;
  attempts = j.attempt_count;
  started_at = j.processing_started_at;
  output_path = j.output_path;
}

abbrev pub has_id : ℕ → MediaJobRow → Bool
has_id k j = j.id == k

-- The job of an identifier, as its workers see it.
abbrev pub held : Database → ℕ → Option Lease
held db k = fmap lease_of_row (find (has_id k) db.jobs)

-- `id` is the primary key of `media_jobs`.
abbrev pub Keyed : ℕ → Database → Type 0
Keyed k db = count (has_id k) db.jobs ≤ 1

abbrev pub Keys : Database → Type 0
Keys db = (k : ℕ) → Keyed k db

abbrev pub claimed_at : ℕ → ℕ → Lease → Lease
claimed_at now attempts l = record l {
  status = processing;
  generation = l.generation + 1;
  attempts = attempts;
  started_at = some now;
}

pub data Step : Lease → Lease → Type 0 where
  rest : {l : Lease} → Step l l
  begin : {l : Lease} (now : ℕ) → l.status ≡ pending → Step l (claimed_at now (l.attempts + 1) l)
  retry :
      {l : Lease} (now : ℕ)
      → l.status ≡ failed
      → l.attempts < max_compilation_attempts
      → Step l (claimed_at now (l.attempts + 1) l)
  take_over :
      {l : Lease} (now lease : ℕ)
      → l.status ≡ processing
      → is_held l.started_at lease now ≡ false
      → Step l (claimed_at now l.attempts l)
  renew :
      {l : Lease} (now : ℕ) → l.status ≡ processing → Step l (record l { started_at = some now })
  fail :
      {l : Lease}
      → l.status ≡ processing
      → Step l (record l { status = failed; started_at = none; output_path = none })
  publish :
      {l : Lease} (path : ℕ)
      → l.status ≡ processing
      → Step l (record l { status = ready; started_at = none; output_path = some path })

-- Any number of steps, the first step first.
pub data Steps : Lease → Lease → Type 0 where
  here : {l : Lease} → Steps l l
  onward : {l m n : Lease} → Step l m → Steps m n → Steps l n
