-- ===== src/Jobs/Lease/Fence.antt =====
-- server/src/jobs/index.ts: the claim generation fences earlier workers, and a film is published
-- from the very inputs that were expected.
use rewind_app.Common.{
  ℕ, ◌≡◌, ◌≢◌, refl, sym, ap, ◌∙◌, subst, inl, inr, Bool, true, ◌&&◌, none, some, List, [], ◌∷◌,
  ◌==◌, ==_iff, find, find_sound, find-and, count, count-eq-zero_of_find, update, Option-cases,
  arith, whole,
}
use rewind_app.Tables.{MediaJobRow, Database, ErrorCode, is_film}
use rewind_app.Jobs.Compilation.{CompilationJobRecord, read_compilation_job}
use rewind_app.Jobs.Reconcile.{reconcile_compilation_job_inputs_locked}
use rewind_app.Jobs.Reports.{
  ProgressInput, Output, published, is_processing, is_claimed_row, may_report,
  update_compilation_job_progress, fail_row, mark_compilation_failed, may_publish,
  publish_compilation_output,
}
use rewind_app.Jobs.Lease.{Lease, lease_of_row, has_id, held, Keyed, Keys}
use rewind_app.Jobs.Lease.Rows.{Shows, read-Shows, reconcile-Reconciles}
use rewind_app.Jobs.Lease.Reporting.{report-Writes, publish_cases, Unpublished}

-- A test that no row passes rewrites none.
update_none {ℓ} :
    {A : Type ℓ} (q : A → Bool) (f : A → A) (xs : List A) → count q xs ≡ 0 → update q f xs ≡ xs
update_none q f [] h = refl
update_none q f (x ∷ xs) h = ground (arith, h, update_none q f xs)

module _ (percent : ℕ → ℕ → ℕ) (k generation : ℕ) (db : Database) (l : Lease) where
  -- No row of the job can be written under another generation.
  stale_rows :
      Keyed k db
      → held db k ≡ some l
      → l.generation ≢ generation
      → count (is_claimed_row k generation) db.jobs ≡ 0
  stale_rows keyed e stale = elim (Option-cases (find (is_claimed_row k generation) db.jobs)) [
    | inl n ↦ count-eq-zero_of_find (is_claimed_row k generation) db.jobs n
    | inr (x, f) ↦
        let passes : is_claimed_row k generation x ≡ true =
          find_sound (is_claimed_row k generation) db.jobs f in
        let found : find (has_id k) db.jobs ≡ some x =
          find-and (has_id k)
            (λ (j : MediaJobRow).
              is_film j.kind && is_processing j.status && (j.claim_generation == generation))
            (is_claimed_row k generation) db.jobs (λ y. ground arith) keyed f in
        let own : lease_of_row x ≡ l = ground (arith, e, found) in
        absurd (
          stale (
            ap (λ (m : Lease). m.generation) (sym own)
            ∙ ground (arith, passes, ==_iff x.claim_generation generation)))
  ]

  -- A worker whose claim of a job is of another generation than the job's, where identifiers are
  -- unique: its report is refused, the failure that it marks changes nothing, and its publication
  -- does not succeed and changes nothing.
  pub stale_worker :
      (input : ProgressInput) (error_code : ErrorCode) (failed_at : ℕ) (job : CompilationJobRecord)
      (expected : List ℕ) (output : Output)
      → Keys db
      → held db k ≡ some l
      → l.generation ≢ generation
      → input.job_id ≡ k
      → input.claim_generation ≡ whole generation
      → job.id ≡ k
      → job.claim_generation ≡ generation
      → (update_compilation_job_progress percent input db ≡ (db, none))
        × (mark_compilation_failed k generation error_code failed_at db ≡ db)
        × ((publish_compilation_output percent job expected output db).0 ≡ db)
        × ((publish_compilation_output percent job expected output db).1 ≢ published)
  unfolding mark_compilation_failed may_report may_publish
  stale_worker input error_code failed_at job expected output keys e stale i g j h =
      (reported, failed_row, unpublished.0, unpublished.1)
    where
      generation_of :
          (db' : Database) (r : CompilationJobRecord)
          → Shows db' k r
          → held db' k ≡ some l
          → r.claim_generation ≡ l.generation
      generation_of db' r shows e' = ground (arith, shows.generation, shows.found, e')

      reported : update_compilation_job_progress percent input db ≡ (db, none)
      reported = elim (report-Writes percent input db) [
        | inl r ↦ r
        | inr w ↦
            let shows =
              read-Shows db k none (keys k)
                (subst (λ (u : ℕ). read_compilation_job db u none ≡ some w.job) i w.read) in
            let same : w.job.claim_generation ≡ w.generation =
              ground (arith, w.allowed, ==_iff w.job.claim_generation w.generation) in
            absurd (
              stale
                (sym (generation_of db w.job shows e) ∙ same ∙ ground (arith, w.of_generation, g)))
      ]

      failed_row : mark_compilation_failed k generation error_code failed_at db ≡ db
      failed_row =
          let r =
            update_none (is_claimed_row k generation) (fail_row error_code failed_at) db.jobs
              (stale_rows (keys k) e stale) in
          ap (λ js. record db { jobs = js }) r

      unpublished : Unpublished percent job expected output db
      unpublished = elim (publish_cases percent job expected output db) [
        | inl u ↦ u
        | inr w ↦
            let reconciles = reconcile-Reconciles percent job.id db in
            let after = reconcile_compilation_job_inputs_locked percent job.id db in
            let shows =
              subst (λ (u : ℕ). Shows after.0 u w.current) j
                (reconciles.shows keys w.current w.read) in
            let same : w.current.claim_generation ≡ job.claim_generation =
              ground (arith, w.allowed, ==_iff w.current.claim_generation job.claim_generation) in
            absurd (
              stale (
                sym (generation_of after.0 w.current shows ((reconciles.hidden k).same_lease ∙ e))
                ∙ same
                ∙ h))
      ]
