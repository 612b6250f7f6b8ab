-- ===== src/Jobs/Lease/Answers.antt =====
-- server/src/jobs/index.ts: how far a claim of a film comes, and what a refused one leaves behind.
use rewind_app.Common.{
  ℕ, ◌≤◌, ◌≡◌, ◌≢◌, sym, ap, ◌∙◌, subst, ◌⊎◌, inl, inr, Bool, true, false, not, Option, some, ltb,
  leb, find, Option-cases, Bool-cases, arith,
}
use rewind_app.Tables.{pending, processing, ready, failed, deleted, MediaJobRow, Database, is_film}
use rewind_app.Jobs.Compilation.{
  CompilationJobRecord, read_compilation_job, read_status, max_compilation_attempts,
}
use rewind_app.Jobs.Reconcile.{reconcile_compilation_job_inputs_locked}
use rewind_app.Jobs.Claims.{
  ClaimInput, ClaimReason, refused, invalid_state, retry_exhausted, not_found, waiting_for_inputs,
  is_held, take_claim, claim_reconciled, settle_inputs, claim_found, claim_compilation_job,
  lease_of,
}
use rewind_app.Jobs.Lease.{Lease, lease_of_row, has_id, held, Keys}
use rewind_app.Jobs.Lease.Rows.{Shows, read-Shows, reconcile-Reconciles}
use rewind_app.Jobs.Lease.Claiming.{settle-Hidden}

-- The leases that a claim may take.
abbrev pub is_open : ℕ → ℕ → Lease → Bool
is_open now lease l = elim l.status [
  | pending ↦ true
  | failed ↦ ltb l.attempts max_compilation_attempts
  | processing ↦ not (is_held l.started_at lease now)
  | ready ↦ false
  | deleted ↦ false
]

-- A claim that comes as far as the status of the reconciled job.
pub record Reaches (percent : ℕ → ℕ → ℕ) (input : ClaimInput) (db : Database) : Type 0 where
  pub now : ℕ
  pub lease : ℕ
  pub found : CompilationJobRecord
  pub settled_db : Database
  pub job : CompilationJobRecord
  pub at : input.now ≡ some now
  pub leased : lease_of input.lease_ms ≡ some lease
  pub read : read_compilation_job db input.job_id input.group_id ≡ some found
  pub settles : settle_inputs input db found ≡ some settled_db
  pub reconciles :
      (reconcile_compilation_job_inputs_locked percent found.id settled_db).1 ≡ some job
  pub goes :
      claim_compilation_job percent input db
      ≡ claim_reconciled now lease input.group_id db job
          (reconcile_compilation_job_inputs_locked percent found.id settled_db).0

-- A claim that stops before leaves the database as it is.
pub record Stops (percent : ℕ → ℕ → ℕ) (input : ClaimInput) (db : Database) : Type 0 where
  pub reason : ClaimReason
  pub other_reason : reason ≢ retry_exhausted
  pub answers : claim_compilation_job percent input db ≡ (db, refused reason)

module _ (percent : ℕ → ℕ → ℕ) (input : ClaimInput) (db : Database) where
  pub claim_cases : Stops percent input db ⊎ Reaches percent input db
  unfolding claim_compilation_job claim_found
  claim_cases = elim (Option-cases input.now) [
    | inl n ↦ inl (record {
      reason = invalid_state;
      other_reason = λ q. absurd (cc q);
      answers = ground (arith, n);
    })
    | inr (now, a) ↦ elim (Option-cases (lease_of input.lease_ms)) [
      | inl n ↦ inl (record {
        reason = invalid_state;
        other_reason = λ q. absurd (cc q);
        answers = ground (arith, a, n);
      })
      | inr (lease, b) ↦ elim (Option-cases (read_compilation_job db input.job_id input.group_id)) [
        | inl n ↦ inl (record {
          reason = not_found;
          other_reason = λ q. absurd (cc q);
          answers = ground (arith, a, b, n);
        })
        | inr (found, c) ↦ elim (Option-cases (settle_inputs input db found)) [
          | inl n ↦ inl (record {
            reason = waiting_for_inputs;
            other_reason = λ q. absurd (cc q);
            answers = ground (arith, a, b, c, n);
          })
          | inr (settled_db, d) ↦
              elim (Option-cases
                (reconcile_compilation_job_inputs_locked percent found.id settled_db).1) [
                  | inl n ↦ inl (record {
                    reason = invalid_state;
                    other_reason = λ q. absurd (cc q);
                    answers = ground (arith, a, b, c, d, n);
                  })
                  | inr (job, e) ↦ inr (record {
                    now = now;
                    lease = lease;
                    found = found;
                    settled_db = settled_db;
                    job = job;
                    at = a;
                    leased = b;
                    read = c;
                    settles = d;
                    reconciles = e;
                    goes = ground (arith, a, b, c, d, e);
                  })
                ]
        ]
      ]
    ]
  ]

-- A failed job with all its attempts used.
abbrev exhausted : CompilationJobRecord → Bool
exhausted job = elim job.status [
  | failed ↦ leb max_compilation_attempts job.attempt_count
  | _ ↦ false
]

module _ (now lease : ℕ) (group : Option ℕ) (before : Database) (job : CompilationJobRecord)
    (db : Database) where
  claim_reconciled-exhausted :
      exhausted job ≡ true
      → (claim_reconciled now lease group before job db ≡ (db, refused retry_exhausted))
        × (job.status ≡ failed)
        × (max_compilation_attempts ≤ job.attempt_count)
  unfolding claim_reconciled
  claim_reconciled-exhausted t = (ground (arith, t), ground (arith, t), ground (arith, t))

  claim_reconciled_reason :
      exhausted job ≡ false
      → (claim_reconciled now lease group before job db).1 ≢ refused retry_exhausted
  unfolding claim_reconciled take_claim
  claim_reconciled_reason f e = ground (arith, f, e)

  claim_reconciled_before :
      {reason : ClaimReason}
      → exhausted job ≡ false
      → (claim_reconciled now lease group before job db).1 ≡ refused reason
      → (claim_reconciled now lease group before job db).0 ≡ before
  unfolding claim_reconciled take_claim
  claim_reconciled_before f e = ground (arith, f, e)

-- What a refused claim leaves: the database as it was, or, when the attempts of a failed job are
-- exhausted, the one in which its inputs have been settled and reconciled.
pub data Leaves (percent : ℕ → ℕ → ℕ) (input : ClaimInput) (db : Database)
    : ClaimReason → Database → Type 0 where
  unchanged : {reason : ClaimReason} → reason ≢ retry_exhausted → Leaves percent input db reason db
  settled :
      (r : Reaches percent input db)
      → r.job.status ≡ failed
      → max_compilation_attempts ≤ r.job.attempt_count
      → Leaves percent input db retry_exhausted
          (reconcile_compilation_job_inputs_locked percent r.found.id r.settled_db).0

-- A refused claim leaves the database as it is, unless the reason is that the attempts are
-- exhausted: then the job has failed with all its attempts used, and what is left is the database
-- with the inputs of the job settled and reconciled.
pub claim_refused_unchanged :
    (percent : ℕ → ℕ → ℕ) (input : ClaimInput) (db : Database) (reason : ClaimReason)
    → (claim_compilation_job percent input db).1 ≡ refused reason
    → Leaves percent input db reason (claim_compilation_job percent input db).0
claim_refused_unchanged percent input db reason e = elim (claim_cases percent input db) [
  | inl s ↦
      let own : s.reason ≡ reason = cc (s.answers, e) in
      subst (Leaves percent input db reason) (sym (ap (λ p. p.0) s.answers))
        (unchanged (λ q. s.other_reason (own ∙ q)))
  | inr r ↦
      let after = (reconcile_compilation_job_inputs_locked percent r.found.id r.settled_db).0 in
      let answered : (claim_reconciled r.now r.lease input.group_id db r.job after).1
          ≡ refused reason =
        sym (ap (λ p. p.1) r.goes) ∙ e in
      elim (Bool-cases (exhausted r.job)) [
        | inl t ↦
            let (goes, status, used) =
              claim_reconciled-exhausted r.now r.lease input.group_id db r.job after t in
            let own : retry_exhausted ≡ reason = cc (goes, answered) in
            subst (λ q. Leaves percent input db q (claim_compilation_job percent input db).0) own
              (subst (Leaves percent input db retry_exhausted) (sym (ap (λ p. p.0) (r.goes ∙ goes)))
                (settled r status used))
        | inr f ↦
            subst (Leaves percent input db reason)
              (sym (
                ap (λ p. p.0) r.goes
                ∙ claim_reconciled_before r.now r.lease input.group_id db r.job after f answered))
              (unchanged (λ q.
                claim_reconciled_reason r.now r.lease input.group_id db r.job after f
                  (answered ∙ ap refused q)))
      ]
]

-- The reconciled job, as the workers see it before the claim.
pub record Sees (k : ℕ) (l : Lease) (db : Database) (job : CompilationJobRecord) : Type 0 where
  pub id : job.id ≡ k
  pub status : job.status ≡ read_status l.status
  pub generation : job.claim_generation ≡ l.generation
  pub attempts : job.attempt_count ≡ l.attempts
  pub started_at : job.processing_started_at ≡ l.started_at
  pub row : MediaJobRow
  pub row_found : find (has_id k) db.jobs ≡ some row
  pub row_film : is_film row.kind ≡ true
  pub row_lease : lease_of_row row ≡ l

pub Reaches-Sees :
    (percent : ℕ → ℕ → ℕ) (input : ClaimInput) (db : Database) (l : Lease)
    → Keys db
    → held db input.job_id ≡ some l
    → (r : Reaches percent input db)
    → Sees input.job_id l
        (reconcile_compilation_job_inputs_locked percent r.found.id r.settled_db).0
        r.job
Reaches-Sees percent input db l keys e r =
    let first = read-Shows db input.job_id input.group_id (keys input.job_id) r.read in
    let settled_keys : Keys r.settled_db =
      λ k. (settle-Hidden input db r.found r.settles k).keyed (keys k) in
    let rec = reconcile-Reconciles percent r.found.id r.settled_db in
    let after = reconcile_compilation_job_inputs_locked percent r.found.id r.settled_db in
    let shows =
      subst (λ (u : ℕ). Shows after.0 u r.job) first.id
        (rec.shows settled_keys r.job r.reconciles) in
    let lease_after : held after.0 input.job_id ≡ some l =
      (rec.hidden input.job_id).same_lease
      ∙ (settle-Hidden input db r.found r.settles input.job_id).same_lease
      ∙ e in
    let own : lease_of_row shows.row ≡ l = ground (arith, lease_after, shows.found) in
    record {
      id = shows.id;
      status = shows.status ∙ ap (λ (m : Lease). read_status m.status) own;
      generation = shows.generation ∙ ap (λ (m : Lease). m.generation) own;
      attempts = shows.attempts ∙ ap (λ (m : Lease). m.attempts) own;
      started_at = shows.started_at ∙ ap (λ (m : Lease). m.started_at) own;
      row = shows.row;
      row_found = shows.found;
      row_film = shows.film;
      row_lease = own;
    }
