-- ===== src/Jobs/Clips.antt =====
-- server/src/jobs/index.ts: the clip jobs: the claim of a clip, the output that is prepared, its
-- publication, and its failure. Files, their hashes and the clock are arguments. The status of a
-- staged source is read as `staged` or not.
pub mod Claimed
pub mod Fenced
mod Tests
use rewind_app.Common.{
  ℕ, ◌+◌, Bool, true, false, not, ◌&&◌, ◌||◌, Option, none, some, List, leb, ◌==◌, same, is_some,
  if◌then◌else◌, keep, find, any, count, update,
}
use rewind_app.Tables.{processing, ready, ErrorCode, MediaJobRow, is_clip, is_ready, Database}
use rewind_app.Jobs.Claims.{processing_claim_lease_ms, is_claimable, starts_new_attempt}
use rewind_app.Jobs.Reports.{
  is_processing, fail_row, Integrity, Publication, published, refused, raised,
}

pub record StagedRow : Type 0 where
  pub source_uri : ℕ
  pub is_staged : Bool
  pub claim_generation : ℕ
  pub source_path : Option ℕ

-- `metadata` lists the source URIs of `media_metadata`.
pub record ClipState : Type 0 where
  pub tables : Database
  pub staged : List StagedRow
  pub metadata : List ℕ

abbrev pub is_clip_job : ℕ → MediaJobRow → Bool
is_clip_job job_id j = (j.id == job_id) && is_clip j.kind

abbrev pub read_clip_job : Database → ℕ → Option MediaJobRow
read_clip_job db job_id = find (is_clip_job job_id) db.jobs

-- The staged source is still the one that the job was created for.
abbrev pub is_bound : ℕ → ℕ → StagedRow → Bool
is_bound generation path s =
    s.is_staged && (s.claim_generation == generation) && same s.source_path (some path)

abbrev pub bound_source : ℕ → ℕ → Option StagedRow → Bool
bound_source generation path none = false
bound_source generation path (some s) = is_bound generation path s

unfoldable pub binding : List StagedRow → Option ℕ → Option ℕ → Option ℕ → Bool
binding staged none generation path = true
binding staged (some uri) none path = false
binding staged (some uri) (some generation) none = false
binding staged (some uri) (some generation) (some path) =
    bound_source generation path (find (λ (s : StagedRow). s.source_uri == uri) staged)

abbrev pub staged_binding_matches : List StagedRow → MediaJobRow → Bool
staged_binding_matches staged row =
    binding staged row.source_uri row.source_generation row.source_path

pub data ClipReason : Type 0 where
  not_found already_processing not_claimable retry_exhausted : ClipReason

pub data ClipClaim : Type 0 where
  claimed : MediaJobRow → ClipClaim
  unclaimed : ClipReason → ClipClaim

-- `= ?`, which is not met by NULL; `IS ?` and `===` are `same`.
abbrev pub equals : Option ℕ → Option ℕ → Bool
equals (some a) (some b) = a == b
equals none b = false
equals (some a) none = false

abbrev pub is_stale : ℕ → MediaJobRow → Bool
is_stale now j = elim j.processing_started_at [
  | none ↦ true
  | some started_at ↦ leb (started_at + processing_claim_lease_ms) now
]

-- A cap that is not a safe integer from 1 on is no cap, and is passed as `none`.
abbrev pub at_cap : Option ℕ → MediaJobRow → Bool
at_cap none j = false
at_cap (some cap) j = not (is_processing j.status) && leb cap j.attempt_count

abbrev pub begin_clip : ℕ → MediaJobRow → MediaJobRow
begin_clip now j = record j {
  status = processing;
  error_code = none;
  processing_started_at = some now;
  updated_at = some now;
  failed_at = none;
  claim_generation = j.claim_generation + 1;
  attempt_count = j.attempt_count + (if starts_new_attempt j.status then 1 else 0);
}

abbrev pub claimable_row : MediaJobRow → MediaJobRow → Bool
claimable_row locked j =
    (j.id == locked.id)
    && is_clip j.kind
    && is_claimable j.status
    && same j.processing_started_at locked.processing_started_at

-- The row that is answered is the one that was read, with the claim written into it.
abbrev pub claimed_row : ℕ → MediaJobRow → MediaJobRow
claimed_row now locked = record locked {
  status = processing;
  processing_started_at = some now;
  claim_generation = locked.claim_generation + 1;
  attempt_count = locked.attempt_count + (if starts_new_attempt locked.status then 1 else 0);
}

unfoldable pub claim_locked : ℕ → Option ℕ → MediaJobRow → ClipState → ClipState × ClipClaim
unfolding binding
claim_locked now cap locked s =
    if is_processing locked.status && not (is_stale now locked)
    then (s, unclaimed already_processing)
    else if not (is_claimable locked.status)
    then (s, unclaimed not_claimable)
    else if at_cap cap locked
    then (s, unclaimed retry_exhausted)
    else if not (staged_binding_matches s.staged locked)
    then (s, unclaimed not_claimable)
    else if count (claimable_row locked) s.tables.jobs == 1
    then (
      record s {
        tables = record s.tables {
          jobs = update (claimable_row locked) (begin_clip now) s.tables.jobs;
        };
      },
      claimed (claimed_row now locked),
    )
    else (s, unclaimed already_processing)

unfoldable pub claim_clip_job : ℕ → ℕ → Option ℕ → ClipState → ClipState × ClipClaim
unfolding claim_locked
claim_clip_job job_id now cap s = elim (read_clip_job s.tables job_id) [
  | none ↦ (s, unclaimed not_found)
  | some locked ↦ claim_locked now cap locked s
]

-- The row is still claimed as it was when the worker began.
abbrev pub still_claimed : MediaJobRow → MediaJobRow → Bool
still_claimed row locked =
    is_processing locked.status
    && (locked.claim_generation == row.claim_generation)
    && same locked.processing_started_at row.processing_started_at
    && same locked.source_path row.source_path
    && same locked.source_uri row.source_uri
    && same locked.source_generation row.source_generation

abbrev pub is_clip_claim : MediaJobRow → MediaJobRow → Bool
is_clip_claim row j =
    is_clip_job row.id j
    && is_processing j.status
    && (j.claim_generation == row.claim_generation)
    && equals j.processing_started_at row.processing_started_at

abbrev pub preparable_row : MediaJobRow → ℕ → MediaJobRow → Bool
preparable_row row output_path j =
    is_clip_claim row j && (not (is_some j.output_path) || same j.output_path (some output_path))

abbrev pub set_output : ℕ → ℕ → MediaJobRow → MediaJobRow
set_output output_path now j = record j {
  output_path = some output_path;
  error_code = none;
  updated_at = some now;
}

abbrev pub with_jobs : List MediaJobRow → ClipState → ClipState
with_jobs jobs s = record s { tables = record s.tables { jobs = jobs } }

unfoldable pub mark_output_prepared : MediaJobRow → ℕ → ℕ → ClipState → ClipState × Bool
unfolding binding
mark_output_prepared row output_path now s = elim (read_clip_job s.tables row.id) [
  | none ↦ (s, false)
  | some locked ↦
      if still_claimed row locked && staged_binding_matches s.staged locked
      then (
        with_jobs
            (update (preparable_row row output_path) (set_output output_path now) s.tables.jobs) s,
        count (preparable_row row output_path) s.tables.jobs == 1,
      )
      else (s, false)
]

-- The paths, and what the file system answers: the hash of the prepared output, whether it is still
-- the file that was hashed, and whether the rename and the removal of the staged file succeed.
pub record Prepared : Type 0 where
  pub integrity : Option Integrity
  pub same_file : Bool
  pub moved : Bool
  pub output_path : ℕ
  pub is_part : Bool
  pub final_output_path : ℕ
  pub finalized_at : ℕ

-- A part file is renamed to the final path; an output that is there already stays.
abbrev pub published_path : Prepared → ℕ
published_path p = if p.is_part then p.final_output_path else p.output_path

abbrev pub publishable_row : MediaJobRow → ℕ → MediaJobRow → Bool
publishable_row row output_path j = is_clip_claim row j && same j.output_path (some output_path)

abbrev pub publish_clip : Prepared → Integrity → MediaJobRow → MediaJobRow
publish_clip p integrity j = record j {
  status = ready;
  output_path = some (published_path p);
  source_path = none;
  error_code = none;
  output_sha256 = some integrity.sha256;
  output_bytes = some integrity.byte_length;
  output_verified_at = some (some p.finalized_at);
  processing_started_at = none;
  updated_at = some p.finalized_at;
  failed_at = none;
}

-- The staged source of the row that was read.
abbrev pub is_spent : MediaJobRow → StagedRow → Bool
is_spent locked s =
    same locked.source_uri (some s.source_uri)
    && same locked.source_generation (some s.claim_generation)
    && same s.source_path locked.source_path

unfoldable pub drop_source : MediaJobRow → ClipState → ClipState
drop_source locked s = elim locked.source_uri [
  | none ↦ s
  | some uri ↦ record s {
    metadata =
        if any (is_spent locked) s.staged
        then keep (λ (u : ℕ). not (u == uri)) s.metadata
        else s.metadata;
    staged = keep (λ (x : StagedRow). not (is_spent locked x)) s.staged;
  }
]

unfoldable pub finalize_locked :
    MediaJobRow → Prepared → Integrity → MediaJobRow → ClipState → ClipState × Publication
unfolding drop_source binding
finalize_locked row p integrity locked s =
    if is_ready locked.status
    then (
      s,
      (if (locked.claim_generation == row.claim_generation)
            && same locked.output_path (some p.final_output_path)
          then published
          else refused),
    )
    else if still_claimed row locked
        && same locked.output_path (some p.output_path)
        && staged_binding_matches s.staged locked
        && p.same_file
    then (if p.moved
        then (if count (publishable_row row p.output_path) s.tables.jobs == 1
            then (
              drop_source locked (
                  with_jobs
                    (update (publishable_row row p.output_path) (publish_clip p integrity)
                      s.tables.jobs)
                    s),
              published,
            )
            else (s, refused))
        else (s, raised))
    else (s, refused)

unfoldable pub finalize_prepared_output :
    MediaJobRow → Prepared → ClipState → ClipState × Publication
unfolding finalize_locked
finalize_prepared_output row p s = elim p.integrity [
  | none ↦ (s, refused)
  | some integrity ↦ elim (read_clip_job s.tables row.id) [
    | none ↦ (s, refused)
    | some locked ↦ finalize_locked row p integrity locked s
  ]
]

abbrev pub failable_row : MediaJobRow → MediaJobRow → Bool
failable_row row j =
    is_clip_job row.id j && is_processing j.status && (j.claim_generation == row.claim_generation)

unfoldable pub mark_failed : MediaJobRow → ErrorCode → ℕ → ClipState → ClipState × Bool
mark_failed row error_code failed_at s = elim (read_clip_job s.tables row.id) [
  | none ↦ (s, false)
  | some current ↦
      if is_processing current.status && (current.claim_generation == row.claim_generation)
      then (
        with_jobs (update (failable_row row) (fail_row error_code failed_at) s.tables.jobs) s,
        count (failable_row row) s.tables.jobs == 1,
      )
      else (s, false)
]
