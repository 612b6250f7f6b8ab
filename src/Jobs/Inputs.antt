-- ===== src/Jobs/Inputs.antt =====
-- server/src/jobs/index.ts: the clips that a film of a closed cycle is made of.
pub mod Eligible
mod Tests
use rewind_app.Common.{
  ℕ, Bool, true, false, not, ◌&&◌, ◌||◌, Option, none, some, List, [], ◌++◌, map, ltb, ◌==◌, same,
  is_some, if◌then◌else◌, keep, find, length, take, flat_map, order_by, fmap, DateValue,
}
use rewind_app.Tables.{
  StoredStatus, archived, ReleaseStatus, unpublished, published, CycleRow, ContributionRow,
  MediaJobRow, is_clip, is_ready, Database,
}

abbrev pub archive_filler_minimum_clip_count : ℕ
archive_filler_minimum_clip_count = 2

-- `a < b` on keys of several columns, first column first.
abbrev pub before_by : ℕ → ℕ → Bool → Bool
before_by a b rest = ltb a b || ((a == b) && rest)

-- A clip joined with its contribution, with the columns that the queries order by.
pub record EligibleRow : Type 0 where
  pub clip_job_id : ℕ
  pub contribution_id : ℕ
  pub created_at : ℕ
  pub released_at : ℕ

abbrev pub cycle_of : Database → ℕ → ℕ → Option CycleRow
cycle_of db group_id cycle_id =
    find (λ (c : CycleRow). (c.id == cycle_id) && (c.group_id == group_id)) db.cycles

-- A clip of the contribution that has been processed: its raw staged source is gone.
abbrev pub is_processed : ℕ → ContributionRow → MediaJobRow → Bool
is_processed group_id c j =
    same j.contribution_id (some c.id)
    && (j.group_id == group_id)
    && is_clip j.kind
    && is_ready j.status
    && not (is_some j.deleted_at)
    && not (is_some j.source_path)
    && is_some j.output_path

abbrev pub is_live : ContributionRow → Bool
is_live c = not (is_some c.deleted_at) && not (is_some c.removed_at)

abbrev pub joined : Database → ℕ → ContributionRow → ℕ → List EligibleRow
joined db group_id c released_at =
    map
      (λ (j : MediaJobRow). record {
        clip_job_id = j.id;
        contribution_id = c.id;
        created_at = c.created_at;
        released_at = released_at;
      })
      (keep (is_processed group_id c) db.jobs)

abbrev pub clip_before : EligibleRow → EligibleRow → Bool
clip_before a b =
    before_by a.created_at b.created_at
      (before_by a.contribution_id b.contribution_id (ltb a.clip_job_id b.clip_job_id))

unfoldable pub current_cycle_clips : Database → ℕ → ℕ → List EligibleRow
current_cycle_clips db group_id cycle_id = order_by clip_before (
    flat_map
      (λ (c : ContributionRow).
        if (c.cycle_id == cycle_id) && is_live c && is_some (cycle_of db group_id cycle_id)
        then joined db group_id c 0
        else [])
      db.contributions)

abbrev is_archived : StoredStatus → Bool
is_archived archived = true
is_archived _ = false

abbrev is_published : ReleaseStatus → Bool
is_published published = true
is_published unpublished = false

abbrev pub filler_before : EligibleRow → EligibleRow → Bool
filler_before a b = before_by b.released_at a.released_at (clip_before b a)

-- When the cycle was released, if it is archived and published; a date that does not parse sorts
-- as the earliest.
abbrev pub archive_release : Option CycleRow → Option ℕ
archive_release none = none
archive_release (some cy) =
    if is_archived cy.status && is_published cy.release_status
    then fmap (λ (d : DateValue). elim d [ none ↦ 0 | some t ↦ t ]) cy.release_published_at
    else none

unfoldable pub archive_clips : Database → ℕ → ℕ → List EligibleRow
archive_clips db group_id cycle_id = order_by filler_before (
    flat_map
      (λ (c : ContributionRow).
        if not (c.cycle_id == cycle_id) && is_live c
        then (elim (archive_release (cycle_of db group_id c.cycle_id)) [
          | none ↦ []
          | some released_at ↦ joined db group_id c released_at
        ])
        else [])
      db.contributions)

-- A cycle with one clip gets one clip of the group's archive behind it.
unfoldable pub eligible_compilation_inputs : Database → ℕ → ℕ → List EligibleRow
unfolding current_cycle_clips archive_clips
eligible_compilation_inputs db group_id cycle_id =
    let clips = current_cycle_clips db group_id cycle_id in
    if ltb 0 (length clips) && ltb (length clips) archive_filler_minimum_clip_count
    then clips ++ take 1 (archive_clips db group_id cycle_id)
    else clips
