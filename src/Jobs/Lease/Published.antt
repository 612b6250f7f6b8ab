-- ===== src/Jobs/Lease/Published.antt =====
-- server/src/jobs/index.ts: what a publication and a report that succeed leave behind.
use rewind_app.Common.{
  ℕ, ◌≤◌, ◌≡◌, ◌≢◌, refl, ap, ◌∙◌, subst, inl, inr, true, Option, none, some, List, [], ◌∷◌, ◌==◌,
  ==_iff, if◌then◌else◌, find, find_sound, any, all, fmap, update, arith, Number, whole, other,
}
use rewind_app.Tables.{ready, MediaJobRow, Database}
use rewind_app.Jobs.Compilation.{CompilationJobRecord, read_compilation_job}
use rewind_app.Jobs.Reconcile.{
  reconcile_compilation_job_inputs_locked, frozen_compilation_inputs_complete,
  accepted_compilation_inputs, accepted_clip_automatic_attempts, Acceptance, settled, waiting,
  unavailable, progress_of,
}
use rewind_app.Jobs.Reports.{
  ProgressInput, Output, published, is_processing, is_claimed_row, reported_progress, set_progress,
  may_report, write_progress, update_compilation_job_progress, publish_row, may_publish,
  publish_compilation_output, same_ids,
}
use rewind_app.Jobs.Lease.{Lease, lease_of_row, has_id, held, Keys}
use rewind_app.Jobs.Lease.Rows.{read-Shows, found-update, kept-Keyed, reconcile-Reconciles}
use rewind_app.Jobs.Lease.Reporting.{report-Writes, publish_cases}

same_ids-eq : (xs ys : List ℕ) → same_ids xs ys ≡ true → xs ≡ ys
same_ids-eq [] [] e = refl
same_ids-eq [] (y ∷ ys) e = absurd (ground (arith, e))
same_ids-eq (x ∷ xs) [] e = absurd (ground (arith, e))
same_ids-eq (x ∷ xs) (y ∷ ys) e =
    ground (arith, e, ==_iff x y, same_ids-eq xs ys (ground (arith, e)))

frozen_ids :
    (db : Database) (job : CompilationJobRecord)
    → frozen_compilation_inputs_complete db job ≡ true
    → (ids : List ℕ) × (accepted_compilation_inputs db job accepted_clip_automatic_attempts
        ≡ settled ids)
      × (all (λ (id : ℕ). any (λ (x : ℕ). x == id) job.clip_job_ids) ids ≡ true)
unfolding frozen_compilation_inputs_complete
frozen_ids db job e =
    by_acceptance (accepted_compilation_inputs db job accepted_clip_automatic_attempts) refl
  where
    by_acceptance :
        (a : Acceptance)
        → accepted_compilation_inputs db job accepted_clip_automatic_attempts ≡ a
        → (ids : List ℕ) × (accepted_compilation_inputs db job accepted_clip_automatic_attempts
            ≡ settled ids)
          × (all (λ (id : ℕ). any (λ (x : ℕ). x == id) job.clip_job_ids) ids ≡ true)
    by_acceptance waiting f = absurd (ground (arith, e, f))
    by_acceptance unavailable f = absurd (ground (arith, e, f))
    by_acceptance (settled ids) f = (ids, f, ground (arith, e, f))

-- What a published film stands on, and what workers see of it then.
pub record Published (percent : ℕ → ℕ → ℕ) (job : CompilationJobRecord) (expected : List ℕ)
    (output : Output) (db : Database) : Type 0 where
  pub current : CompilationJobRecord
  pub reconciled : (reconcile_compilation_job_inputs_locked percent job.id db).1 ≡ some current
  pub exact : current.clip_job_ids ≡ expected
  pub some_input : current.input_count ≢ 0
  pub accepted : List ℕ
  pub is_settled :
      accepted_compilation_inputs
        (reconcile_compilation_job_inputs_locked percent job.id db).0
        current
        accepted_clip_automatic_attempts
      ≡ settled accepted
  pub complete : all (λ (id : ℕ). any (λ (x : ℕ). x == id) expected) accepted ≡ true
  pub lease : Lease
  pub held_after :
      held (publish_compilation_output percent job expected output db).0 job.id ≡ some lease
  pub is_ready : lease.status ≡ ready
  pub of_generation : lease.generation ≡ job.claim_generation
  pub at_path : lease.output_path ≡ some output.output_path

-- A publication that succeeds, where identifiers are unique: the reconciled film has exactly the
-- clips that were expected, in their order, and counts one at least; every accepted contribution of
-- its cycle has settled, and its clip is one of them; and workers then see the film ready, under the
-- generation of the publication, at the path of the output.
pub publish-Published :
    (percent : ℕ → ℕ → ℕ) (job : CompilationJobRecord) (expected : List ℕ) (output : Output)
    (db : Database)
    → Keys db
    → (publish_compilation_output percent job expected output db).1 ≡ published
    → Published percent job expected output db
unfolding may_publish
publish-Published percent job expected output db keys e =
    elim (publish_cases percent job expected output db) [
      | inl u ↦ absurd (u.1 e)
      | inr w ↦
          let after = (reconcile_compilation_job_inputs_locked percent job.id db).0 in
          let rec = reconcile-Reconciles percent job.id db in
          let shows = rec.shows keys w.current w.read in
          let exact : w.current.clip_job_ids ≡ expected =
            same_ids-eq w.current.clip_job_ids expected (ground (arith, w.allowed)) in
          let frozen = frozen_ids after w.current (ground (arith, w.allowed)) in
          let generation : shows.row.claim_generation ≡ job.claim_generation = ground (
            arith,
            shows.generation,
            w.allowed,
            ==_iff w.current.claim_generation job.claim_generation,
          ) in
          let q = is_claimed_row job.id job.claim_generation in
          let running : is_processing shows.row.status ≡ true =
            ground (arith, w.allowed, shows.status) in
          let own : (shows.row.id == job.id) ≡ true =
            find_sound (has_id job.id) after.jobs shows.found in
          let passes : q shows.row ≡ true = ground (
            arith,
            own,
            shows.film,
            running,
            generation,
            ==_iff shows.row.claim_generation job.claim_generation,
          ) in
          let f = publish_row output w.integrity in
          let row_after : find (has_id job.id) (update q f after.jobs)
              ≡ some (if q shows.row then f shows.row else shows.row) =
            found-update job.id q f after.jobs (λ j. refl) shows.found in
          let row_ready : find (has_id job.id) (update q f after.jobs) ≡ some (f shows.row) =
            row_after ∙ ap (λ b. some (if b then f shows.row else shows.row)) passes in
          record {
            current = w.current;
            reconciled = w.read;
            exact = exact;
            some_input = λ z. absurd (ground (arith, w.allowed, z));
            accepted = frozen.0;
            is_settled = frozen.1;
            complete =
                subst (λ xs. all (λ (id : ℕ). any (λ (x : ℕ). x == id) xs) frozen.0 ≡ true) exact
                  frozen.2;
            lease = lease_of_row (f shows.row);
            held_after = ap (λ p. held p.0 job.id) w.write ∙ ap (fmap lease_of_row) row_ready;
            is_ready = refl;
            of_generation = generation;
            at_path = refl;
          }
    ]

-- A report that is accepted moves the counters of the record forward and within their bounds.
pub record Advances (before after : CompilationJobRecord) : Type 0 where
  pub completed_forward : before.completed_count ≤ after.completed_count
  pub completed_bounded : after.completed_count ≤ before.input_count
  pub progress_forward : before.progress ≤ after.progress
  pub progress_bounded : after.progress ≤ 100

reported-le :
    (percent : ℕ → ℕ → ℕ) (asked : Option Number) (completed total : ℕ) {progress : ℕ}
    → ((c n : ℕ) → c ≤ n → percent c n ≤ 100)
    → completed ≤ total
    → reported_progress percent asked completed total ≡ some progress
    → progress ≤ 100
unfolding reported_progress progress_of
reported-le percent none completed total h le e = ground (arith, e, h completed total le)
reported-le percent (some other) completed total h le e = absurd (cc e)
reported-le percent (some (whole n)) completed total h le e = ground (arith, e)

-- A report that is accepted moves the completed count and the progress of the film forward, where
-- identifiers are unique and a part is at most 100 percent of the whole: the count stays within the
-- number of inputs, and the progress within 100.
pub report-Advances :
    (percent : ℕ → ℕ → ℕ) (input : ProgressInput) (db : Database) (after : CompilationJobRecord)
    → Keys db
    → ((c n : ℕ) → c ≤ n → percent c n ≤ 100)
    → (update_compilation_job_progress percent input db).1 ≡ some after
    → (before : CompilationJobRecord) × (read_compilation_job db input.job_id none ≡ some before)
      × Advances before after
unfolding write_progress may_report
report-Advances percent input db after keys h e = elim (report-Writes percent input db) [
  | inl r ↦ absurd (ground (arith, r, e))
  | inr w ↦
      let q = is_claimed_row input.job_id w.generation in
      let f = set_progress w.completed w.progress w.now in
      let db' : Database = record db { jobs = update q f db.jobs } in
      let read_after : read_compilation_job db' input.job_id none ≡ some after =
        ground (arith, w.write, e) in
      let shows = read-Shows db input.job_id none (keys input.job_id) w.read in
      let own : (shows.row.id == input.job_id) ≡ true =
        find_sound (has_id input.job_id) db.jobs shows.found in
      let passes : q shows.row ≡ true =
        ground (arith, own, shows.film, shows.status, shows.generation, w.allowed) in
      let row_after : find (has_id input.job_id) db'.jobs ≡ some (f shows.row) =
        found-update input.job_id q f db.jobs (λ j. refl) shows.found
        ∙ ap (λ b. some (if b then f shows.row else shows.row)) passes in
      let shown =
        read-Shows db' input.job_id none
          (kept-Keyed input.job_id q f db.jobs (λ j. refl) (keys input.job_id)) read_after in
      let same_row : shown.row ≡ f shows.row = ground (arith, shown.found, row_after) in
      let completed : after.completed_count ≡ w.completed =
        shown.completed ∙ ap (λ (j : MediaJobRow). j.completed_count) same_row in
      let progress : after.progress ≡ w.progress =
        shown.progress ∙ ap (λ (j : MediaJobRow). j.progress) same_row in
      let within : w.completed ≤ w.job.input_count = ground (arith, w.allowed) in
      (
        w.job,
        w.read,
        record {
          completed_forward = ground (arith, completed, w.allowed);
          completed_bounded = ground (arith, completed, within);
          progress_forward = ground (arith, progress, w.forward);
          progress_bounded = ground (
            arith,
            progress,
            reported-le percent input.progress w.completed w.job.input_count h within w.of_progress,
          );
        },
      )
]
