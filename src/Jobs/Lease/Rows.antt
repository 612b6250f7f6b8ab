-- ===== src/Jobs/Lease/Rows.antt =====
-- server/src/jobs/index.ts: what each write of the film jobs does to the job that workers see.
use rewind_app.Common.{
  ℕ, ◌≤◌, ◌≡◌, refl, ap, ◌∙◌, subst, inl, inr, Bool, true, ◌&&◌, Option, none, some, List, ◌==◌,
  ==_iff, is_some, if◌then◌else◌, if_intro, find, find_sound, find-update, find-and, count,
  count-update, fmap, update, Option-cases, arith,
}
use rewind_app.Tables.{MediaJobRow, Database, is_film}
use rewind_app.Jobs.Compilation.{
  CompilationJobRecord, compilation_record, read_compilation_job, read_status, in_group,
}
use rewind_app.Jobs.Reconcile.{
  reconciled, reconcile_compilation_job_inputs_locked, freeze_settled_compilation_inputs_locked,
}
use rewind_app.Jobs.Lease.{Lease, lease_of_row, has_id, held, Keyed, Keys, Step, rest}

-- A record that is read back shows the row of its job.
pub record Shows (db : Database) (job_id : ℕ) (job : CompilationJobRecord) : Type 0 where
  pub row : MediaJobRow
  pub found : find (has_id job_id) db.jobs ≡ some row
  pub film : is_film row.kind ≡ true
  pub cycle : is_some row.cycle_id ≡ true
  pub id : job.id ≡ job_id
  pub status : job.status ≡ read_status row.status
  pub generation : job.claim_generation ≡ row.claim_generation
  pub attempts : job.attempt_count ≡ row.attempt_count
  pub started_at : job.processing_started_at ≡ row.processing_started_at
  pub completed : job.completed_count ≡ row.completed_count
  pub progress : job.progress ≡ row.progress

Shows-found :
    (db : Database) (job_id : ℕ) (row : MediaJobRow) (job : CompilationJobRecord)
    → find (has_id job_id) db.jobs ≡ some row
    → is_film row.kind ≡ true
    → fmap (compilation_record db row) row.cycle_id ≡ some job
    → Shows db job_id job
unfolding compilation_record
Shows-found db job_id row job found film e = elim (Option-cases row.cycle_id) [
  | inl n ↦ absurd (ground (arith, e, n))
  | inr (c, k) ↦
      let own : row.id ≡ job_id =
        ground (arith, ==_iff row.id job_id, find_sound (has_id job_id) db.jobs found) in
      let e' : compilation_record db row c ≡ job = ground (arith, e, k) in
      subst (λ j. Shows db job_id j) e'
        (record {
          row = row;
          found = found;
          film = film;
          cycle = ground (arith, k);
          id = own;
          status = refl;
          generation = refl;
          attempts = refl;
          started_at = refl;
          completed = refl;
          progress = refl;
        })
]

pub read-Shows :
    (db : Database) (job_id : ℕ) (group : Option ℕ) {job : CompilationJobRecord}
    → Keyed job_id db
    → read_compilation_job db job_id group ≡ some job
    → Shows db job_id job
unfolding read_compilation_job
read-Shows db job_id group {job} keyed e =
    elim (Option-cases (
      find
        (λ (j : MediaJobRow).
          (j.id == job_id) && is_film j.kind && is_some j.cycle_id && in_group group j.group_id)
        db.jobs)) [
          | inl n ↦ absurd (ground (arith, e, n))
          | inr (row, f) ↦
              let found : find (has_id job_id) db.jobs ≡ some row =
                find-and (has_id job_id)
                  (λ (j : MediaJobRow).
                    is_film j.kind && is_some j.cycle_id && in_group group j.group_id)
                  _ db.jobs (λ y. ground arith) keyed f in
              Shows-found db job_id row job found
                (ground (
                  arith,
                  find_sound
                      (λ (j : MediaJobRow).
                        (j.id == job_id)
                        && is_film j.kind
                        && is_some j.cycle_id
                        && in_group group j.group_id)
                      db.jobs f,
                ))
                (ground (arith, e, f))
        ]

-- A write that keeps the identifiers is read back row by row.
pub found-update :
    (k : ℕ) (q : MediaJobRow → Bool) (f : MediaJobRow → MediaJobRow) (jobs : List MediaJobRow)
    {x : MediaJobRow}
    → ((j : MediaJobRow) → (f j).id ≡ j.id)
    → find (has_id k) jobs ≡ some x
    → find (has_id k) (update q f jobs) ≡ some (if q x then f x else x)
found-update k q f jobs {x} same_id e =
    find-update (has_id k) q f jobs (λ j. ap (λ (n : ℕ). n == k) (same_id j))
    ∙ ap (fmap (λ x. if q x then f x else x)) e

pub update-Keyed :
    (k : ℕ) (q : MediaJobRow → Bool) (f : MediaJobRow → MediaJobRow) (jobs : List MediaJobRow)
    → ((j : MediaJobRow) → (f j).id ≡ j.id)
    → count (has_id k) (update q f jobs) ≡ count (has_id k) jobs
update-Keyed k q f jobs same_id =
    count-update q (has_id k) f jobs (λ j. ap (λ (n : ℕ). n == k) (same_id j))

pub kept-Keyed :
    (k : ℕ) (q : MediaJobRow → Bool) (f : MediaJobRow → MediaJobRow) (jobs : List MediaJobRow)
    → ((j : MediaJobRow) → (f j).id ≡ j.id)
    → count (has_id k) jobs ≤ 1
    → count (has_id k) (update q f jobs) ≤ 1
kept-Keyed k q f jobs same_id h = rw (update-Keyed k q f jobs same_id) h

-- From one database to the next, the job of an identifier makes one step of the contract.
pub record Moves (k : ℕ) (db db' : Database) : Type 0 where
  pub keyed : Keyed k db → Keyed k db'
  pub step : (l : Lease) → held db k ≡ some l → (m : Lease) × (held db' k ≡ some m) × Step l m

pub rest-Moves : (k : ℕ) (db : Database) → Moves k db db
rest-Moves k db = record { keyed = λ h. h; step = λ l e. (l, e, rest) }

-- A write is a step if it is one on the row of the identifier.
pub write-Moves :
    (k : ℕ) (q : MediaJobRow → Bool) (f : MediaJobRow → MediaJobRow) (db db' : Database)
    → db'.jobs ≡ update q f db.jobs
    → ((j : MediaJobRow) → (f j).id ≡ j.id)
    → ((x : MediaJobRow)
        → find (has_id k) db.jobs ≡ some x
        → q x ≡ true
        → Step (lease_of_row x) (lease_of_row (f x)))
    → Moves k db db'
write-Moves k q f db db' e same_id s = record {
  keyed = λ h. rw e (rw (update-Keyed k q f db.jobs same_id) h);
  step = λ l g. elim (Option-cases (find (has_id k) db.jobs)) [
    | inl n ↦ absurd (ground (arith, g, n))
    | inr (x, found) ↦
        let own : lease_of_row x ≡ l = ground (arith, g, found) in
        let after : held db' k ≡ some (lease_of_row (if q x then f x else x)) =
          rw e (ap (fmap lease_of_row) (found-update k q f db.jobs same_id found)) in
        (
          lease_of_row (if q x then f x else x),
          after,
          subst (λ l. Step l (lease_of_row (if q x then f x else x))) own
              (if_intro (λ y. Step (lease_of_row x) (lease_of_row y)) (q x) (λ t. s x found t)
                (λ _. rest)),
        )
  ];
}

-- A write that workers do not see.
pub hidden-held :
    (k : ℕ) (q : MediaJobRow → Bool) (f : MediaJobRow → MediaJobRow) (jobs : List MediaJobRow)
    → ((j : MediaJobRow) → (f j).id ≡ j.id)
    → ((j : MediaJobRow) → lease_of_row (f j) ≡ lease_of_row j)
    → fmap lease_of_row (find (has_id k) (update q f jobs))
      ≡ fmap lease_of_row (find (has_id k) jobs)
hidden-held k q f jobs same_id same_lease = elim (Option-cases (find (has_id k) jobs)) [
  | inl n ↦
      rw (find-update (has_id k) q f jobs (λ j. ap (λ (n : ℕ). n == k) (same_id j)))
        (ground (arith, n))
  | inr (x, e) ↦ rw (found-update k q f jobs same_id e) (ground (arith, e, same_lease x))
]

-- To a worker of the job of an identifier nothing happens.
pub record Hidden (k : ℕ) (db db' : Database) : Type 0 where
  pub keyed : Keyed k db → Keyed k db'
  pub same_lease : held db' k ≡ held db k

pub rest-Hidden : (k : ℕ) (db : Database) → Hidden k db db
rest-Hidden k db = record { keyed = λ h. h; same_lease = refl }

pub then-Hidden : {k : ℕ} {a b c : Database} → Hidden k a b → Hidden k b c → Hidden k a c
then-Hidden p q = record {
  keyed = λ h. q.keyed (p.keyed h);
  same_lease = q.same_lease ∙ p.same_lease;
}

pub Hidden-Moves : {k : ℕ} {a b c : Database} → Hidden k a b → Moves k b c → Moves k a c
Hidden-Moves h m = record {
  keyed = λ u. m.keyed (h.keyed u);
  step = λ l e. m.step l (h.same_lease ∙ e);
}

pub reconciled-Hidden :
    (percent : ℕ → ℕ → ℕ) (k : ℕ) (db : Database) (job : CompilationJobRecord)
    → Hidden k db (reconciled percent db job)
unfolding reconciled
reconciled-Hidden percent k db job = record {
  keyed = λ h. kept-Keyed k _ _ db.jobs (λ j. refl) h;
  same_lease = hidden-held k _ _ db.jobs (λ j. refl) (λ j. refl);
}

pub freeze-Hidden :
    (k : ℕ) (db : Database) (job : CompilationJobRecord)
    → Hidden k db (freeze_settled_compilation_inputs_locked db job)
unfolding freeze_settled_compilation_inputs_locked
freeze-Hidden k db job = record {
  keyed = λ h. kept-Keyed k _ _ db.jobs (λ j. refl) h;
  same_lease = hidden-held k _ _ db.jobs (λ j. refl) (λ j. refl);
}

-- What a reconciliation answers is the record of the job in the database that it leaves.
pub record Reconciles (job_id : ℕ) (db db' : Database) (answer : Option CompilationJobRecord)
    : Type 0 where
  pub hidden : (k : ℕ) → Hidden k db db'
  pub shows : Keys db → (job : CompilationJobRecord) → answer ≡ some job → Shows db' job_id job

pub reconcile-Reconciles :
    (percent : ℕ → ℕ → ℕ) (job_id : ℕ) (db : Database)
    → let after = reconcile_compilation_job_inputs_locked percent job_id db in
      Reconciles job_id db after.0 after.1
unfolding reconcile_compilation_job_inputs_locked
reconcile-Reconciles percent job_id db = elim (Option-cases (read_compilation_job db job_id none)) [
  | inl n ↦
      let r : reconcile_compilation_job_inputs_locked percent job_id db ≡ (db, none) =
        ground (arith, n) in
      rw r (record { hidden = λ k. rest-Hidden k db; shows = λ keys job e. absurd (cc e) })
  | inr (job, e) ↦
      let db' = reconciled percent db job in
      let r : reconcile_compilation_job_inputs_locked percent job_id db
          ≡ (db', read_compilation_job db' job_id none) =
        ground (arith, e) in
      rw r (record {
        hidden = λ k. reconciled-Hidden percent k db job;
        shows = λ keys job' e'.
            read-Shows (reconciled percent db job) job_id none
              ((reconciled-Hidden percent job_id db job).keyed (keys job_id)) e';
      })
]
