-- ===== src/Jobs/Lease/Claiming.antt =====
-- server/src/jobs/index.ts: a claim makes one step of the contract of the film workers.
use rewind_app.Common.{
  ℕ, ◌+◌, ◌<◌, ◌≡◌, refl, sym, subst, ◌⊎◌, inl, inr, true, false, Option, some, leb, ==_iff,
  if◌then◌else◌, find_sound, Option-cases, Bool-cases, arith,
}
use rewind_app.Tables.{
  JobStatus, pending, processing, ready, failed, deleted, MediaJobRow, Database,
}
use rewind_app.Jobs.Compilation.{
  CompilationJobRecord, read_compilation_job, read_status, max_compilation_attempts,
}
use rewind_app.Jobs.Reconcile.{
  reconcile_compilation_job_inputs_locked, freeze_settled_compilation_inputs_locked,
}
use rewind_app.Jobs.Claims.{
  ClaimInput, refused, already_ready, already_processing, claimed, invalid_state, retry_exhausted,
  waiting_for_inputs, is_held, is_claimable, grant_claim, take_claim, begin_attempt,
  starts_new_attempt, claim_reconciled, settle_inputs, claim_found, claim_compilation_job, lease_of,
}
use rewind_app.Jobs.Lease.{lease_of_row, has_id, Keys, Step, begin, retry, take_over}
use rewind_app.Jobs.Lease.Rows.{
  Shows, Moves, rest-Moves, write-Moves, Hidden, rest-Hidden, then-Hidden, Hidden-Moves,
  freeze-Hidden, reconcile-Reconciles,
}

-- The status in which the code grants a claim.
data Open (job : CompilationJobRecord) (now : ℕ) : Type 0 where
  is_new : job.status ≡ pending → Open job now
  has_failed : job.status ≡ failed → job.attempt_count < max_compilation_attempts → Open job now
  has_expired :
      (lease : ℕ)
      → job.status ≡ processing
      → is_held job.processing_started_at lease now ≡ false
      → Open job now

open-Step :
    (now : ℕ) (job : CompilationJobRecord) (x : MediaJobRow)
    → job.status ≡ read_status x.status
    → job.claim_generation ≡ x.claim_generation
    → job.attempt_count ≡ x.attempt_count
    → job.processing_started_at ≡ x.processing_started_at
    → is_claimable x.status ≡ true
    → Open job now
    → Step (lease_of_row x) (
        lease_of_row (
          begin_attempt now
            (job.claim_generation + 1)
            (job.attempt_count + (if starts_new_attempt job.status then 1 else 0))
            x))
open-Step now job x s g a t c (is_new e) =
    let own : x.status ≡ pending = ground (arith, s, e, c) in
    subst (λ m. Step (lease_of_row x) m) (ground (arith, s, g, a, t, e))
      (begin {l = lease_of_row x} now own)
open-Step now job x s g a t c (has_failed e few) =
    let own : x.status ≡ failed = ground (arith, s, e, c) in
    subst (λ m. Step (lease_of_row x) m) (ground (arith, s, g, a, t, e))
      (retry {l = lease_of_row x} now own (omega (arith, a, few)))
open-Step now job x s g a t c (has_expired lease e late) =
    let own : x.status ≡ processing = ground (arith, s, e, c) in
    subst (λ m. Step (lease_of_row x) m) (ground (arith, s, g, a, t, e))
      (take_over {l = lease_of_row x} now lease own (rw (← t) late))

grant-Moves :
    (k now : ℕ) (job : CompilationJobRecord) (db : Database)
    → Shows db job.id job
    → Open job now
    → Moves k db (grant_claim now job db)
unfolding grant_claim
grant-Moves k now job db shows open_job =
    write-Moves k _ _ db _ refl (λ j. refl)
      (λ x found t.
        let same_row : x ≡ shows.row = ground (
          arith,
          t,
          found,
          shows.found,
          ==_iff x.id job.id,
          ==_iff x.id k,
          find_sound (has_id k) db.jobs found,
        ) in
        let stat : job.status ≡ read_status x.status = rw same_row shows.status in
        open-Step now job x stat (ground (arith, same_row, shows.generation))
          (ground (arith, same_row, shows.attempts)) (ground (arith, same_row, shows.started_at))
          (ground (arith, t)) open_job)

take_claim-Moves :
    (k now : ℕ) (group : Option ℕ) (before : Database) (job : CompilationJobRecord) (db : Database)
    → Hidden k before db
    → Shows db job.id job
    → Open job now
    → Moves k before (take_claim now group before job db).0
unfolding take_claim
take_claim-Moves k now group before job db hidden shows open_job =
    elim (Option-cases (read_compilation_job (grant_claim now job db) job.id group)) [
      | inl n ↦
          let r : take_claim now group before job db ≡ (before, refused invalid_state) =
            ground (arith, n) in
          rw r (rest-Moves k before)
      | inr (job', e) ↦
          let r : take_claim now group before job db ≡ (grant_claim now job db, claimed job') =
            ground (arith, e) in
          rw r (Hidden-Moves hidden (grant-Moves k now job db shows open_job))
    ]

claim_reconciled-Moves :
    (k now lease : ℕ) (group : Option ℕ) (before : Database) (job : CompilationJobRecord)
    (db : Database)
    → Hidden k before db
    → Shows db job.id job
    → Moves k before (claim_reconciled now lease group before job db).0
unfolding claim_reconciled
claim_reconciled-Moves k now lease group before job db hidden shows = by_status job.status refl
  where
    quiet : Moves k before db
    quiet = Hidden-Moves hidden (rest-Moves k db)

    granted : Open job now → Moves k before (take_claim now group before job db).0
    granted open_job = take_claim-Moves k now group before job db hidden shows open_job

    by_status :
        (s : JobStatus)
        → job.status ≡ s
        → Moves k before (claim_reconciled now lease group before job db).0
    by_status ready e =
        let r : claim_reconciled now lease group before job db ≡ (db, already_ready job) =
          ground (arith, e) in
        rw r quiet
    by_status deleted e =
        let r : claim_reconciled now lease group before job db ≡ (before, refused invalid_state) =
          ground (arith, e) in
        rw r (rest-Moves k before)
    by_status pending e =
        let r : claim_reconciled now lease group before job db
            ≡ take_claim now group before job db =
          ground (arith, e) in
        rw r (granted (is_new e))
    by_status processing e = elim (Bool-cases (is_held job.processing_started_at lease now)) [
      | inl t ↦
          let r : claim_reconciled now lease group before job db ≡ (db, already_processing job) =
            ground (arith, e, t) in
          rw r quiet
      | inr f ↦
          let r : claim_reconciled now lease group before job db
              ≡ take_claim now group before job db =
            ground (arith, e, f) in
          rw r (granted (has_expired lease e f))
    ]
    by_status failed e = elim (Bool-cases (leb max_compilation_attempts job.attempt_count)) [
      | inl t ↦
          let r : claim_reconciled now lease group before job db ≡ (db, refused retry_exhausted) =
            ground (arith, e, t) in
          rw r quiet
      | inr f ↦
          let r : claim_reconciled now lease group before job db
              ≡ take_claim now group before job db =
            ground (arith, e, f) in
          rw r (granted (has_failed e (ground (arith, f))))
    ]

pub settle-Hidden :
    (input : ClaimInput) (db : Database) (job : CompilationJobRecord) {db' : Database}
    → settle_inputs input db job ≡ some db'
    → (k : ℕ) → Hidden k db db'
unfolding settle_inputs
settle-Hidden input db job {db'} e k =
    let either : (db' ≡ db) ⊎ (db' ≡ freeze_settled_compilation_inputs_locked db job) =
      ground (arith, e) in
    elim either [ inl p ↦ rw p (rest-Hidden k db) | inr p ↦ rw p (freeze-Hidden k db job) ]

module _ (percent : ℕ → ℕ → ℕ) where
  claim_found-Moves :
      (k : ℕ) (input : ClaimInput) (now lease : ℕ) (db : Database) (job : CompilationJobRecord)
      → Keys db
      → Moves k db (claim_found percent input now lease db job).0
  unfolding claim_found
  claim_found-Moves k input now lease db job keys =
      elim (Option-cases (settle_inputs input db job)) [
        | inl n ↦
            let r : claim_found percent input now lease db job ≡ (db, refused waiting_for_inputs) =
              ground (arith, n) in
            rw r (rest-Moves k db)
        | inr (db', e) ↦
            let hidden = settle-Hidden input db job e in
            let after = reconcile_compilation_job_inputs_locked percent job.id db' in
            let reconciles = reconcile-Reconciles percent job.id db' in
            elim (Option-cases after.1) [
              | inl n ↦
                  let r : claim_found percent input now lease db job ≡ (db, refused invalid_state) =
                    ground (arith, e, n) in
                  rw r (rest-Moves k db)
              | inr (job', e') ↦
                  let r : claim_found percent input now lease db job
                      ≡ claim_reconciled now lease input.group_id db job' after.0 =
                    ground (arith, e, e') in
                  let shows = reconciles.shows (λ u. (hidden u).keyed (keys u)) job' e' in
                  rw r (
                    claim_reconciled-Moves k now lease input.group_id db job' after.0
                      (then-Hidden (hidden k) (reconciles.hidden k))
                      (subst (λ (u : ℕ). Shows after.0 u job') (sym shows.id) shows))
            ]
      ]

  -- A claim, whatever it answers, makes one step of the contract on each job.
  pub claim-Moves :
      (k : ℕ) (input : ClaimInput) (db : Database)
      → Keys db
      → Moves k db (claim_compilation_job percent input db).0
  unfolding claim_compilation_job
  claim-Moves k input db keys =
      let either : ((claim_compilation_job percent input db).0 ≡ db)
          ⊎ ((now : ℕ) × (lease : ℕ) × (job : CompilationJobRecord) × (claim_compilation_job percent
                  input db
                ≡ claim_found percent input now lease db job)) =
        elim (Option-cases input.now) [
          | inl n ↦ inl (ground (arith, n))
          | inr (now, e) ↦ elim (Option-cases (lease_of input.lease_ms)) [
            | inl n ↦ inl (ground (arith, e, n))
            | inr (lease, f) ↦
                elim (Option-cases (read_compilation_job db input.job_id input.group_id)) [
                  | inl n ↦ inl (ground (arith, e, f, n))
                  | inr (job, g) ↦ inr (now, lease, job, ground (arith, e, f, g))
                ]
          ]
        ] in
      elim either [
        | inl r ↦ rw r (rest-Moves k db)
        | inr t ↦ rw (t.3) (claim_found-Moves k input t.0 t.1 db t.2 keys)
      ]
