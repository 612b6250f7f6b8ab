-- ===== src/Jobs/Lease/Reporting.antt =====
-- server/src/jobs/index.ts: a report, a failure and a publication make one step of the contract of
-- the film workers.
use rewind_app.Common.{
  ℕ, ◌≤◌, ◌≡◌, ◌≢◌, refl, ap, ◌⊎◌, inl, inr, true, ◌&&◌, none, some, List, ltb, leb, ◌==◌, count,
  update, Option-cases, Bool-cases, arith, Number, whole, other, max_safe_integer,
}
use rewind_app.Tables.{JobStatus, processing, Database, ErrorCode}
use rewind_app.Jobs.Compilation.{CompilationJobRecord, read_compilation_job}
use rewind_app.Jobs.Reconcile.{reconcile_compilation_job_inputs_locked}
use rewind_app.Jobs.Reports.{
  ProgressInput, Output, Integrity, published, is_processing, is_claimed_row, reported_progress,
  set_progress, may_report, write_progress, report_locked, update_compilation_job_progress,
  fail_row, mark_compilation_failed, publish_row, may_publish, publish_locked,
  publish_compilation_output,
}
use rewind_app.Jobs.Lease.{lease_of_row, renew, fail, publish}
use rewind_app.Jobs.Lease.Rows.{Moves, rest-Moves, write-Moves, Hidden-Moves, reconcile-Reconciles}

processing_of : (s : JobStatus) → is_processing s ≡ true → s ≡ processing
processing_of s e = ground arith

write_progress-Moves :
    (k job_id generation completed progress now : ℕ) (db : Database)
    → Moves k db (write_progress job_id generation completed progress now db).0
unfolding write_progress
write_progress-Moves k job_id generation completed progress now db =
    let q = is_claimed_row job_id generation in
    let f = set_progress completed progress now in
    let written : Moves k db (record db { jobs = update q f db.jobs }) =
      write-Moves k q f db _ refl (λ j. refl)
        (λ x _ t. renew {l = lease_of_row x} now (processing_of x.status (ground (arith, t)))) in
    let either : ((write_progress job_id generation completed progress now db).0 ≡ db)
        ⊎ ((write_progress job_id generation completed progress now db).0
            ≡ record db { jobs = update q f db.jobs }) =
      ground arith in
    elim either [ inl r ↦ rw r (rest-Moves k db) | inr r ↦ rw r written ]

-- A report that passes the guards, and the write that it makes.
pub record Writes (percent : ℕ → ℕ → ℕ) (input : ProgressInput) (db : Database) : Type 0 where
  pub generation : ℕ
  pub completed : ℕ
  pub progress : ℕ
  pub now : ℕ
  pub job : CompilationJobRecord
  pub of_generation : input.claim_generation ≡ whole generation
  pub of_completed : input.completed_count ≡ whole completed
  pub read : read_compilation_job db input.job_id none ≡ some job
  pub allowed : may_report generation completed job ≡ true
  pub of_progress :
      reported_progress percent input.progress completed job.input_count ≡ some progress
  pub forward : job.progress ≤ progress
  pub write :
      update_compilation_job_progress percent input db
      ≡ write_progress input.job_id generation completed progress now db

module _ (percent : ℕ → ℕ → ℕ) (input : ProgressInput) (db : Database) where
  abbrev pub Silent : Type 0
  Silent = update_compilation_job_progress percent input db ≡ (db, none)

  locked-Writes :
      (now generation completed : ℕ)
      → input.now ≡ some now
      → input.claim_generation ≡ whole generation
      → input.completed_count ≡ whole completed
      → Silent ⊎ Writes percent input db
  unfolding update_compilation_job_progress report_locked
  locked-Writes now generation completed e g c =
      elim (Bool-cases (leb generation max_safe_integer)) [
        | inr f ↦ inl (ground (arith, e, g, c, f))
        | inl s ↦ elim (Option-cases (read_compilation_job db input.job_id none)) [
          | inl n ↦ inl (ground (arith, e, g, c, s, n))
          | inr (job, r) ↦ elim (Bool-cases (may_report generation completed job)) [
            | inr f ↦ inl (ground (arith, e, g, c, s, r, f))
            | inl m ↦
                elim (Option-cases
                  (reported_progress percent input.progress completed job.input_count)) [
                    | inl n ↦ inl (ground (arith, e, g, c, s, r, m, n))
                    | inr (progress, p) ↦ elim (Bool-cases (ltb progress job.progress)) [
                      | inl t ↦ inl (ground (arith, e, g, c, s, r, m, p, t))
                      | inr f ↦ inr (record {
                        generation = generation;
                        completed = completed;
                        progress = progress;
                        now = now;
                        job = job;
                        of_generation = g;
                        of_completed = c;
                        read = r;
                        allowed = m;
                        of_progress = p;
                        forward = ground (arith, f);
                        write = ground (arith, e, g, c, s, r, m, p, f);
                      })
                    ]
                  ]
          ]
        ]
      ]

  -- A report writes the progress, or nothing.
  pub report-Writes : Silent ⊎ Writes percent input db
  unfolding update_compilation_job_progress
  report-Writes = elim (Option-cases input.now) [
    | inl n ↦ inl (ground (arith, n))
    | inr (now, e) ↦ by_counts now e input.claim_generation refl input.completed_count refl
  ]
    where
      by_counts :
          (now : ℕ)
          → input.now ≡ some now
          → (g : Number) → input.claim_generation ≡ g
          → (c : Number) → input.completed_count ≡ c
          → Silent ⊎ Writes percent input db
      by_counts now e other g c h = inl (ground (arith, e, g))
      by_counts now e (whole n) g other h = inl (ground (arith, e, g, h))
      by_counts now e (whole n) g (whole m) h = locked-Writes now n m e g h

  -- A report, whatever it answers, makes one step of the contract on each job.
  pub report-Moves : (k : ℕ) → Moves k db (update_compilation_job_progress percent input db).0
  report-Moves k = elim report-Writes [
    | inl r ↦ rw r (rest-Moves k db)
    | inr w ↦
        rw (w.write)
          (write_progress-Moves k input.job_id w.generation w.completed w.progress w.now db)
  ]

-- So does a failure.
pub fail-Moves :
    (k job_id generation : ℕ) (error_code : ErrorCode) (failed_at : ℕ) (db : Database)
    → Moves k db (mark_compilation_failed job_id generation error_code failed_at db)
unfolding mark_compilation_failed
fail-Moves k job_id generation error_code failed_at db =
    write-Moves k (is_claimed_row job_id generation) (fail_row error_code failed_at) db _ refl
      (λ j. refl) (λ x _ t. fail {l = lease_of_row x} (processing_of x.status (ground (arith, t))))

-- The database after a publication that succeeds, from the reconciled one.
abbrev pub published_database : CompilationJobRecord → Output → Integrity → Database → Database
published_database job output integrity db = record db {
  jobs = update (is_claimed_row job.id job.claim_generation) (publish_row output integrity) db.jobs;
}

module _ (percent : ℕ → ℕ → ℕ) (job : CompilationJobRecord) (expected : List ℕ) (output : Output)
    (db : Database) where
  -- A publication that succeeds, and the reconciled record that it stands on.
  pub record Publishes : Type 0 where
    pub integrity : Integrity
    pub current : CompilationJobRecord
    pub hashed : output.integrity ≡ some integrity
    pub read : (reconcile_compilation_job_inputs_locked percent job.id db).1 ≡ some current
    pub allowed :
        may_publish
          (reconcile_compilation_job_inputs_locked percent job.id db).0
          job
          expected
          current
        ≡ true
    pub write : publish_compilation_output percent job expected output db ≡ (
      published_database job output integrity
          (reconcile_compilation_job_inputs_locked percent job.id db).0,
      published,
    )

  abbrev pub Unpublished : Type 0
  Unpublished =
      ((publish_compilation_output percent job expected output db).0 ≡ db)
      × ((publish_compilation_output percent job expected output db).1 ≢ published)

  pub publish_cases : Unpublished ⊎ Publishes
  unfolding publish_compilation_output publish_locked
  publish_cases = elim (Option-cases output.integrity) [
    | inl n ↦ inl (ground (arith, n))
    | inr (integrity, h) ↦ elim (Bool-cases output.verified) [
      | inr f ↦ inl (ground (arith, h, f))
      | inl v ↦ elim (Option-cases (reconcile_compilation_job_inputs_locked percent job.id db).1) [
        | inl n ↦ inl (ground (arith, h, v, n))
        | inr (current, r) ↦
            elim (Bool-cases (
              may_publish (reconcile_compilation_job_inputs_locked percent job.id db).0 job expected
                current
              && output.same_file)) [
                | inr f ↦ inl (ground (arith, h, v, r, f))
                | inl m ↦
                    elim (Bool-cases (
                      output.renamed
                      && (count (is_claimed_row job.id job.claim_generation)
                            (reconcile_compilation_job_inputs_locked percent job.id db).0.jobs
                          == 1))) [
                            | inr f ↦ inl (ground (arith, h, v, r, m, f))
                            | inl t ↦ inr (record {
                              integrity = integrity;
                              current = current;
                              hashed = h;
                              read = r;
                              allowed = ground (arith, m);
                              write = ground (arith, h, v, r, m, t);
                            })
                          ]
              ]
      ]
    ]
  ]

  -- So does a publication.
  pub publish-Moves :
      (k : ℕ) → Moves k db (publish_compilation_output percent job expected output db).0
  publish-Moves k = elim publish_cases [
    | inl r ↦ rw (r.0) (rest-Moves k db)
    | inr w ↦
        let after = (reconcile_compilation_job_inputs_locked percent job.id db).0 in
        let r : (publish_compilation_output percent job expected output db).0
            ≡ published_database job output w.integrity after =
          ap (λ p. p.0) w.write in
        rw r (
          Hidden-Moves ((reconcile-Reconciles percent job.id db).hidden k) (
            write-Moves k (is_claimed_row job.id job.claim_generation)
              (publish_row output w.integrity) after _ refl (λ j. refl)
              (λ x _ t.
                publish {l = lease_of_row x} output.output_path
                  (processing_of x.status (ground (arith, t))))))
  ]
