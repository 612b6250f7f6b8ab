-- ===== src/Jobs/Reconcile.antt =====
-- server/src/jobs/index.ts: the inputs of a film, reconciled with the clips that are still there,
-- and the clips that a film waits for. `floor(completed / total * 100)` is computed in floating
-- point by the runtime, so it is an argument, `percent`.
use rewind_app.Common.{
  ℕ, ◌-◌, Bool, true, false, not, ◌&&◌, ◌||◌, Option, none, some, List, [], ◌∷◌, ◌++◌, map, ltb,
  leb, ◌==◌, same, suc, min, is_some, if◌then◌else◌, keep, find, any, all, count, length, flat_map,
  order_by, update,
}
use rewind_app.Tables.{
  archived, published, unpublished, CycleRow, ContributionRow, pending, processing, ready, failed,
  deleted, MediaJobRow, InputRow, is_clip, is_film, is_ready, Database,
}
use rewind_app.Jobs.Inputs.{before_by, cycle_of, is_live, eligible_compilation_inputs}
use rewind_app.Jobs.Compilation.{CompilationJobRecord, read_compilation_job, snapshot}

abbrev pub inputs_of : Database → ℕ → List InputRow
inputs_of db job_id =
    order_by (λ (i j : InputRow). before_by i.position j.position (ltb i.clip_job_id j.clip_job_id))
      (keep (λ (i : InputRow). i.job_id == job_id) db.inputs)

abbrev is_revealed : CycleRow → Bool
is_revealed cy = elim cy.status [
  | archived ↦ elim cy.release_status [ published ↦ true | unpublished ↦ false ]
  | _ ↦ false
]

-- The cycle of the contribution is the film's, or one of the group's published archive.
abbrev pub is_of_film : CompilationJobRecord → ContributionRow → CycleRow → Bool
is_of_film job c cy =
    (cy.group_id == job.group_id)
    && ((c.cycle_id == job.cycle_id) || (not (c.cycle_id == job.cycle_id) && is_revealed cy))

abbrev pub is_processed_clip : CompilationJobRecord → ContributionRow → MediaJobRow → Bool
is_processed_clip job c clip =
    (clip.group_id == job.group_id)
    && is_clip clip.kind
    && same clip.contribution_id (some c.id)
    && not (is_some clip.deleted_at)
    && is_ready clip.status
    && not (is_some clip.source_path)
    && is_some clip.output_path

unfoldable pub valid_with :
    CompilationJobRecord → Option ContributionRow → Option CycleRow → Option MediaJobRow → Bool
valid_with job (some c) (some cy) (some clip) =
    is_live c && is_of_film job c cy && is_processed_clip job c clip
valid_with job (some c) (some cy) none = false
valid_with job (some c) none clip = false
valid_with job none cy clip = false

-- The `CASE` column of the joined rows: the three tables joined by their primary keys.
unfoldable pub is_valid_input : Database → CompilationJobRecord → InputRow → Bool
unfolding valid_with
is_valid_input db job i =
    let c = find (λ (c : ContributionRow). c.id == i.contribution_id) db.contributions in
    let cy : Option CycleRow = (elim c [
      | none ↦ none
      | some c ↦ find (λ (cy : CycleRow). cy.id == c.cycle_id) db.cycles
    ]) in
    valid_with job c cy (find (λ (j : MediaJobRow). j.id == i.clip_job_id) db.jobs)

abbrev pub is_input : ℕ → ℕ → InputRow → Bool
is_input job_id clip_job_id i = (i.job_id == job_id) && (i.clip_job_id == clip_job_id)

-- `DELETE` for each row whose clip is not among the valid.
unfoldable pub delete_invalid : ℕ → List InputRow → List InputRow → List InputRow → List InputRow
delete_invalid job_id valid [] inputs = inputs
delete_invalid job_id valid (r ∷ rs) inputs = delete_invalid job_id valid rs (
    if any (λ (v : InputRow). v.clip_job_id == r.clip_job_id) valid
    then inputs
    else keep (λ (i : InputRow). not (is_input job_id r.clip_job_id i)) inputs)

-- `UPDATE ... SET position` for each valid row, with the positions counted from `position`.
unfoldable pub compact : ℕ → ℕ → List InputRow → List InputRow → List InputRow
compact job_id position [] inputs = inputs
compact job_id position (r ∷ rs) inputs = compact job_id (suc position) rs (
    update (is_input job_id r.clip_job_id) (λ (i : InputRow). record i { position = position })
      inputs)

abbrev pub set_counters : ℕ → ℕ → ℕ → MediaJobRow → MediaJobRow
set_counters input_count completed_count progress j = record j {
  input_count = input_count;
  completed_count = completed_count;
  progress = progress;
}

-- `WHERE id = ? AND kind = 'film' AND cycle_id IS NOT NULL`
abbrev pub is_film_job : ℕ → MediaJobRow → Bool
is_film_job job_id j = (j.id == job_id) && is_film j.kind && is_some j.cycle_id

unfoldable pub completed_after : ℕ → (InputRow → Bool) → List InputRow → ℕ
completed_after completed_count valid rows =
    let completed_before = min completed_count (length rows) in
    min (length (keep valid rows)) (
      completed_before
      - count (λ (r : InputRow). not (valid r) && ltb r.position completed_before) rows)

unfoldable pub progress_of : (ℕ → ℕ → ℕ) → ℕ → ℕ → ℕ
progress_of percent completed total = if total == 0 then 0 else percent completed total

module _ (percent : ℕ → ℕ → ℕ) where
  unfoldable pub reconciled : Database → CompilationJobRecord → Database
  unfolding is_valid_input delete_invalid compact completed_after progress_of
  reconciled db job =
      let rows = inputs_of db job.id in
      let valid = keep (is_valid_input db job) rows in
      let completed = completed_after job.completed_count (is_valid_input db job) rows in
      record db {
        inputs = compact job.id 0 valid (delete_invalid job.id valid rows db.inputs);
        jobs =
            update (is_film_job job.id)
              (set_counters (length valid) completed (progress_of percent completed (length valid)))
              db.jobs;
      }

  unfoldable pub reconcile_compilation_job_inputs_locked :
      ℕ → Database → Database × Option CompilationJobRecord
  unfolding read_compilation_job reconciled
  reconcile_compilation_job_inputs_locked job_id db = elim (read_compilation_job db job_id none) [
    | none ↦ (db, none)
    | some job ↦ let db' = reconciled db job in (db', read_compilation_job db' job_id none)
  ]

-- What the film of a cycle waits for: an accepted contribution with its clip, if it has one.
pub record AcceptedRow : Type 0 where
  pub created_at : ℕ
  pub contribution_id : ℕ
  pub clip : Option MediaJobRow

pub data Acceptance : Type 0 where
  waiting unavailable : Acceptance
  settled : List ℕ → Acceptance

abbrev pub accepted_clip_automatic_attempts : ℕ
accepted_clip_automatic_attempts = 3

abbrev clip_key : Option MediaJobRow → ℕ
clip_key none = 0
clip_key (some j) = j.id

abbrev with_clips : ContributionRow → List MediaJobRow → List AcceptedRow
with_clips c [] = record { created_at = c.created_at; contribution_id = c.id; clip = none } ∷ []
with_clips c (j ∷ js) =
    map
      (λ (j : MediaJobRow). record {
        created_at = c.created_at;
        contribution_id = c.id;
        clip = some j;
      })
      (j ∷ js)

abbrev is_clip_of : ℕ → ContributionRow → MediaJobRow → Bool
is_clip_of group_id c j =
    same j.contribution_id (some c.id)
    && is_clip j.kind
    && (j.group_id == group_id)
    && not (is_some j.deleted_at)

unfoldable pub accepted_rows : Database → ℕ → ℕ → List AcceptedRow
accepted_rows db group_id cycle_id =
    order_by
      (λ (a b : AcceptedRow).
        before_by a.created_at b.created_at
          (before_by a.contribution_id b.contribution_id (ltb (clip_key a.clip) (clip_key b.clip))))
      (flat_map
        (λ (c : ContributionRow).
          if (c.cycle_id == cycle_id) && is_live c && is_some (cycle_of db group_id cycle_id)
          then with_clips c (keep (is_clip_of group_id c) db.jobs)
          else [])
        db.contributions)

abbrev pub is_unavailable : ℕ → AcceptedRow → Bool
is_unavailable cap row = elim row.clip [
  | none ↦ true
  | some j ↦ elim j.status [
    | pending ↦ false
    | processing ↦ false
    | ready ↦ is_some j.source_path || not (is_some j.output_path)
    | failed ↦ leb cap j.attempt_count
    | deleted ↦ true
  ]
]

abbrev pub is_settled : AcceptedRow → Bool
is_settled row = elim row.clip [ none ↦ false | some j ↦ is_ready j.status ]

unfoldable pub accepted_compilation_inputs : Database → CompilationJobRecord → ℕ → Acceptance
unfolding accepted_rows
accepted_compilation_inputs db job cap =
    let rows = accepted_rows db job.group_id job.cycle_id in
    if any (is_unavailable cap) rows
    then unavailable
    else if any (λ (r : AcceptedRow). not (is_settled r)) rows
    then waiting
    else settled (map (λ (r : AcceptedRow). clip_key r.clip) rows)

unfoldable pub frozen_compilation_inputs_complete : Database → CompilationJobRecord → Bool
unfolding accepted_compilation_inputs
frozen_compilation_inputs_complete db job =
    elim (accepted_compilation_inputs db job accepted_clip_automatic_attempts) [
      | settled ids ↦ all (λ (id : ℕ). any (λ (x : ℕ). x == id) job.clip_job_ids) ids
      | waiting ↦ false
      | unavailable ↦ false
    ]

-- The keys of `compilation_job_inputs` are not tested: the rows of the job are deleted before. Two
-- ready clip jobs of one contribution would make the insertion fail; one is created for each.
unfoldable pub freeze_settled_compilation_inputs_locked : Database → CompilationJobRecord → Database
unfolding snapshot eligible_compilation_inputs
freeze_settled_compilation_inputs_locked db job =
    let inputs = eligible_compilation_inputs db job.group_id job.cycle_id in
    record db {
      inputs =
          keep (λ (i : InputRow). not (i.job_id == job.id)) db.inputs ++ snapshot job.id 0 inputs;
      jobs =
          update (λ (j : MediaJobRow). j.id == job.id) (set_counters (length inputs) 0 0) db.jobs;
    }
