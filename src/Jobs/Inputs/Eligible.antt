-- ===== src/Jobs/Inputs/Eligible.antt =====
-- server/src/jobs/index.ts: the clips that a film is made of.
use rewind_app.Common.{
  ℕ, ◌≡◌, Bool, true, not, ◌&&◌, Option, none, some, [], ltb, ◌==◌, ==_refl, same, is_some,
  if_intro, any, any-Mem, All-flat_map, All-map-keep, All-order_by, All-take, Memᴰ, All, All-append,
  length, take, arith,
}
use rewind_app.Tables.{is_clip, is_ready, ContributionRow, MediaJobRow, Database}
use rewind_app.Jobs.Inputs.{
  EligibleRow, is_processed, is_live, joined, cycle_of, clip_before, filler_before, archive_release,
  current_cycle_clips, archive_clips, eligible_compilation_inputs,
  archive_filler_minimum_clip_count,
}

-- The clip job is ready, was not deleted, has its output and no raw source left.
abbrev pub is_finished : ℕ → MediaJobRow → Bool
is_finished group_id j =
    (j.group_id == group_id)
    && is_clip j.kind
    && is_ready j.status
    && not (is_some j.deleted_at)
    && not (is_some j.source_path)
    && is_some j.output_path

-- The row is of a contribution that is neither deleted nor removed, and of a finished clip of it.
abbrev pub is_compilable : Database → ℕ → EligibleRow → Bool
is_compilable db group_id r =
    any
      (λ (c : ContributionRow).
        (c.id == r.contribution_id)
        && not (is_some c.deleted_at)
        && not (is_some c.removed_at)
        && any
            (λ (j : MediaJobRow).
              (j.id == r.clip_job_id)
              && same j.contribution_id (some c.id)
              && is_finished group_id j)
            db.jobs)
      db.contributions

module _ (db : Database) (group_id : ℕ) where
  abbrev Compilable : EligibleRow → Type 0
  Compilable r = is_compilable db group_id r ≡ true

  joined-Compilable :
      (c : ContributionRow) (released_at : ℕ)
      → Memᴰ c db.contributions
      → is_live c ≡ true
      → All Compilable (joined db group_id c released_at)
  joined-Compilable c released_at m live =
      All-map-keep Compilable
        (λ (j : MediaJobRow). record {
          clip_job_id = j.id;
          contribution_id = c.id;
          created_at = c.created_at;
          released_at = released_at;
        })
        (is_processed group_id c) db.jobs
        (λ j mj p.
          let clip =
            any-Mem
              (λ (k : MediaJobRow).
                (k.id == j.id) && same k.contribution_id (some c.id) && is_finished group_id k)
              db.jobs mj (ground (arith, p, ==_refl j.id)) in
          any-Mem
            (λ (d : ContributionRow).
              (d.id == c.id)
              && not (is_some d.deleted_at)
              && not (is_some d.removed_at)
              && any
                  (λ (k : MediaJobRow).
                    (k.id == j.id) && same k.contribution_id (some d.id) && is_finished group_id k)
                  db.jobs)
            db.contributions m (ground (arith, clip, live, ==_refl c.id)))

  current-Compilable : (cycle_id : ℕ) → All Compilable (current_cycle_clips db group_id cycle_id)
  unfolding current_cycle_clips
  current-Compilable cycle_id = All-order_by Compilable clip_before _ (
      All-flat_map Compilable _ db.contributions (λ c m.
        if_intro (All Compilable)
          ((c.cycle_id == cycle_id) && is_live c && is_some (cycle_of db group_id cycle_id))
          (λ e. joined-Compilable c 0 m (ground (arith, e))) (λ _. tt)))

  released-Compilable :
      (c : ContributionRow) (released : Option ℕ)
      → Memᴰ c db.contributions
      → is_live c ≡ true
      → All Compilable
          (elim released [ none ↦ [] | some released_at ↦ joined db group_id c released_at ])
  released-Compilable c none m live = tt
  released-Compilable c (some released_at) m live = joined-Compilable c released_at m live

  archive-Compilable : (cycle_id : ℕ) → All Compilable (archive_clips db group_id cycle_id)
  unfolding archive_clips
  archive-Compilable cycle_id = All-order_by Compilable filler_before _ (
      All-flat_map Compilable _ db.contributions (λ c m.
        if_intro (All Compilable) (not (c.cycle_id == cycle_id) && is_live c)
          (λ e.
            released-Compilable c (archive_release (cycle_of db group_id c.cycle_id)) m
              (ground (arith, e)))
          (λ _. tt)))

  -- Every clip of a film, the filler too, is a ready and processed clip of the group, of a
  -- contribution that is neither deleted nor removed.
  pub eligible-Compilable :
      (cycle_id : ℕ)
      → All
          (λ (r : EligibleRow). is_compilable db group_id r ≡ true)
          (eligible_compilation_inputs db group_id cycle_id)
  unfolding eligible_compilation_inputs
  eligible-Compilable cycle_id =
      let clips = current_cycle_clips db group_id cycle_id in
      if_intro (All Compilable)
        (ltb 0 (length clips) && ltb (length clips) archive_filler_minimum_clip_count)
        (λ _.
          All-append Compilable clips (take 1 (archive_clips db group_id cycle_id))
            (current-Compilable cycle_id)
            (All-take Compilable 1 (archive_clips db group_id cycle_id)
              (archive-Compilable cycle_id)))
        (λ _. current-Compilable cycle_id)
