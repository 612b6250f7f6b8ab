-- ===== src/Jobs/Lease/Grants.antt =====
-- server/src/jobs/index.ts: which claims of a film are granted.
use rewind_app.Common.{
  ℕ, ◌+◌, ◌<◌, ◌≡◌, ◌≢◌, refl, sym, ap, ◌∙◌, subst, inl, inr, true, ◌&&◌, Option, none, some, ◌==◌,
  ==_iff, same, is_some, if◌then◌else◌, find_sound, fmap, or_else, Option-cases, arith,
}
use rewind_app.Tables.{processing, deleted, MediaJobRow, Database, is_film}
use rewind_app.Jobs.Compilation.{CompilationJobRecord, read_compilation_job}
use rewind_app.Jobs.Reconcile.{
  reconcile_compilation_job_inputs_locked, reconciled, accepted_compilation_inputs,
  accepted_clip_automatic_attempts, waiting,
}
use rewind_app.Jobs.Claims.{
  ClaimInput, already_processing, claimed, is_held, is_claimable, grant_claim, take_claim,
  begin_attempt, starts_new_attempt, claim_reconciled, claim_found, claim_compilation_job, lease_of,
}
use rewind_app.Jobs.Lease.{Lease, lease_of_row, has_id, held, Keys}
use rewind_app.Jobs.Lease.Rows.{read-Shows, found-update}
use rewind_app.Jobs.Lease.Readable.{read_any_group, read-reconciled, read-grant, settle_goes_on}
use rewind_app.Jobs.Lease.Claiming.{claim-Moves}
use rewind_app.Jobs.Lease.Answers.{is_open, Reaches, claim_cases, Sees, Reaches-Sees}

module _ (now lease : ℕ) (group : Option ℕ) (before : Database) (job : CompilationJobRecord)
    (db : Database) (k : ℕ) (l : Lease) (sees : Sees k l db job) where
  held_excludes :
      l.status ≡ processing
      → is_held l.started_at lease now ≡ true
      → claim_reconciled now lease group before job db ≡ (db, already_processing job)
  unfolding claim_reconciled
  held_excludes p h = ground (arith, p, h, sees.status, sees.started_at)

  granted_row :
      l.status ≢ deleted
      → is_claimable job.status ≡ true
      → held (grant_claim now job db) k
        ≡ some (
            lease_of_row (
              begin_attempt now
                (job.claim_generation + 1)
                (job.attempt_count + (if starts_new_attempt job.status then 1 else 0))
                sees.row))
  unfolding grant_claim
  granted_row live c =
      let own : sees.row.status ≡ l.status = ap (λ (m : Lease). m.status) sees.row_lease in
      let same : sees.row.id ≡ job.id =
        ground
          (arith, sees.id, ==_iff sees.row.id k, find_sound (has_id k) db.jobs sees.row_found) in
      let claimable : is_claimable sees.row.status ≡ true =
        ground (arith, own, c, live, sees.status) in
      let f =
        begin_attempt now (job.claim_generation + 1)
          (job.attempt_count + (if starts_new_attempt job.status then 1 else 0)) in
      let q = λ (j : MediaJobRow). (j.id == job.id) && is_film j.kind && is_claimable j.status in
      let passes : q sees.row ≡ true =
        ground (arith, same, ==_iff sees.row.id job.id, claimable, sees.row_film) in
      ap (fmap lease_of_row) (
        found-update k q f db.jobs (λ j. refl) sees.row_found
        ∙ ap (λ b. some (if b then f sees.row else sees.row)) passes)

  claimed_takes :
      {r : CompilationJobRecord}
      → (claim_reconciled now lease group before job db).1 ≡ claimed r
      → ((claim_reconciled now lease group before job db).0 ≡ grant_claim now job db)
        × (is_claimable job.status ≡ true)
  unfolding claim_reconciled take_claim
  claimed_takes e = ground (arith, e)

  claimed_lease :
      {r : CompilationJobRecord}
      → l.status ≢ deleted
      → (claim_reconciled now lease group before job db).1 ≡ claimed r
      → (m : Lease) × (held (claim_reconciled now lease group before job db).0 k ≡ some m)
        × (m.status ≡ processing)
        × (m.started_at ≡ some now)
        × (m.generation ≡ l.generation + 1)
  claimed_lease live e =
      let (same, c) = claimed_takes e in
      let m = lease_of_row (
        begin_attempt now (job.claim_generation + 1)
          (job.attempt_count + (if starts_new_attempt job.status then 1 else 0)) sees.row) in
      (
        m,
        ap (λ (d : Database). held d k) same ∙ granted_row live c,
        refl,
        refl,
        omega (arith, sees.generation),
      )

module _ (percent : ℕ → ℕ → ℕ) (db : Database) (l : Lease) where
  -- The claim of a job that is processing, where identifiers are unique, while its claim has not
  -- run out at the caller's instant, is not granted, and leaves the job to its worker.
  live_claim :
      (input : ClaimInput) (now lease : ℕ)
      → Keys db
      → held db input.job_id ≡ some l
      → input.now ≡ some now
      → lease_of input.lease_ms ≡ some lease
      → l.status ≡ processing
      → is_held l.started_at lease now ≡ true
      → (r : CompilationJobRecord) → (claim_compilation_job percent input db).1 ≢ claimed r
  live_claim input now lease keys e at leased p h r granted = elim (claim_cases percent input db) [
    | inl s ↦ absurd (ground (arith, s.answers, granted))
    | inr t ↦
        let same_now : t.now ≡ now = ground (arith, t.at, at) in
        let same_lease : t.lease ≡ lease = ground (arith, t.leased, leased) in
        let h' : is_held l.started_at t.lease t.now ≡ true =
          ground (arith, h, same_now, same_lease) in
        let after = (reconcile_compilation_job_inputs_locked percent t.found.id t.settled_db).0 in
        let answer =
          held_excludes t.now t.lease input.group_id db t.job after input.job_id l
            (Reaches-Sees percent input db l keys e t) p h' in
        absurd (ground (arith, t.goes, answer, granted))
  ]

  -- After a claim of a job is granted, where identifiers are unique and the job was not deleted,
  -- workers see it processing since the instant of the claim, under the next generation.
  claimed_held :
      (input : ClaimInput) (now : ℕ) (r : CompilationJobRecord)
      → Keys db
      → held db input.job_id ≡ some l
      → l.status ≢ deleted
      → input.now ≡ some now
      → (claim_compilation_job percent input db).1 ≡ claimed r
      → (m : Lease) × (held (claim_compilation_job percent input db).0 input.job_id ≡ some m)
        × (m.status ≡ processing)
        × (m.started_at ≡ some now)
        × (m.generation ≡ l.generation + 1)
  claimed_held input now r keys e live at granted = elim (claim_cases percent input db) [
    | inl s ↦ absurd (ground (arith, s.answers, granted))
    | inr t ↦
        let same_now : t.now ≡ now = ground (arith, t.at, at) in
        let after = (reconcile_compilation_job_inputs_locked percent t.found.id t.settled_db).0 in
        let own =
          claimed_lease t.now t.lease input.group_id db t.job after input.job_id l
            (Reaches-Sees percent input db l keys e t) live
            (sym (ap (λ p. p.1) t.goes) ∙ granted) in
        (
          own.0,
          ap (λ p. held p.0 input.job_id) t.goes ∙ own.1,
          own.2,
          own.3 ∙ ap some same_now,
          own.4,
        )
  ]

-- Once a claim of a job is granted, where identifiers are unique and the job was not deleted, the
-- next claim of that job is not granted at any instant before the lease that it asks for has run
-- from the instant of the first.
pub claim_excludes :
    (percent : ℕ → ℕ → ℕ) (db : Database) (l : Lease) (first second : ClaimInput)
    (now later lease : ℕ) (r s : CompilationJobRecord)
    → Keys db
    → held db first.job_id ≡ some l
    → l.status ≢ deleted
    → first.now ≡ some now
    → second.job_id ≡ first.job_id
    → second.now ≡ some later
    → lease_of second.lease_ms ≡ some lease
    → later < now + lease
    → (claim_compilation_job percent first db).1 ≡ claimed r
    → (claim_compilation_job percent second (claim_compilation_job percent first db).0).1
      ≢ claimed s
claim_excludes percent db l first second now later lease r s keys e live at same at' leased early
      granted =
    let own = claimed_held percent db l first now r keys e live at granted in
    let db' = (claim_compilation_job percent first db).0 in
    let keys' : Keys db' = λ k. (claim-Moves percent k first db keys).keyed (keys k) in
    let seen : held db' second.job_id ≡ some own.0 = rw same own.1 in
    live_claim percent db' own.0 second later lease keys' seen at' leased own.2
      (ground (arith, own.3, early)) s

module _ (percent : ℕ → ℕ → ℕ) where
  reconcile_answers :
      (job_id : ℕ) (db : Database) (group : Option ℕ)
      → is_some (read_compilation_job db job_id group) ≡ true
      → (job : CompilationJobRecord) × ((reconcile_compilation_job_inputs_locked percent job_id
            db).1
          ≡ some job)
        × (is_some (
              read_compilation_job
                (reconcile_compilation_job_inputs_locked percent job_id db).0
                job_id
                group)
            ≡ true)
  unfolding reconcile_compilation_job_inputs_locked
  reconcile_answers job_id db group readable =
      elim (Option-cases (read_compilation_job db job_id none)) [
        | inl n ↦ absurd (ground (arith, n, read_any_group db job_id group readable))
        | inr (job, e) ↦
            let db' = reconciled percent db job in
            let again = read-reconciled db job_id group percent job ∙ readable in
            elim (Option-cases (read_compilation_job db' job_id none)) [
              | inl n ↦ absurd (ground (arith, n, read_any_group db' job_id group again))
              | inr (job', f) ↦
                  (let e2 : db' ≡ (reconcile_compilation_job_inputs_locked percent job_id db).0 =
                      ground (arith, e) in
                    (
                      job',
                      ground (arith, e, f),
                      subst (λ (d : Database). is_some (read_compilation_job d job_id group) ≡ true)
                          e2 again,
                    ))
            ]
      ]

-- A claim of an open job is granted.
open_granted :
    (now lease : ℕ) (group : Option ℕ) (before : Database) (job : CompilationJobRecord)
    (db : Database) (k : ℕ) (l : Lease)
    → Sees k l db job
    → is_open now lease l ≡ true
    → is_some (read_compilation_job db k group) ≡ true
    → (r : CompilationJobRecord) × ((claim_reconciled now lease group before job db).1 ≡ claimed r)
unfolding claim_reconciled take_claim
open_granted now lease group before job db k l sees free readable =
    elim (Option-cases (read_compilation_job (grant_claim now job db) job.id group)) [
      | inl n ↦
          let again : is_some (read_compilation_job (grant_claim now job db) job.id group) ≡ true =
            subst
              (λ (u : ℕ). is_some (read_compilation_job (grant_claim now job db) u group) ≡ true)
              (sym sees.id) (read-grant db k group now job ∙ readable) in
          absurd (ground (arith, again, n))
      | inr (r, e) ↦ (r, ground (arith, e, free, sees.status, sees.started_at, sees.attempts))
    ]

-- A claim of a pending film, of a failed one with attempts left, or of one whose claim has run out
-- is granted, where identifiers are unique, the film can be read in the group, the inputs are not
-- awaited, and the instant and the lease are good; workers then see the film processing under the
-- next generation.
pub claim_granted :
    (percent : ℕ → ℕ → ℕ) (db : Database) (l : Lease) (input : ClaimInput) (now lease : ℕ)
    (job : CompilationJobRecord)
    → Keys db
    → held db input.job_id ≡ some l
    → input.now ≡ some now
    → lease_of input.lease_ms ≡ some lease
    → read_compilation_job db input.job_id input.group_id ≡ some job
    → accepted_compilation_inputs db job
        (or_else input.clip_attempt_cap accepted_clip_automatic_attempts)
      ≢ waiting
    → is_open now lease l ≡ true
    → ((r : CompilationJobRecord) × ((claim_compilation_job percent input db).1 ≡ claimed r))
      × ((m : Lease) × (held (claim_compilation_job percent input db).0 input.job_id ≡ some m)
          × (m.status ≡ processing)
          × (m.started_at ≡ some now)
          × (m.generation ≡ l.generation + 1))
unfolding claim_compilation_job claim_found
claim_granted percent db l input now lease job keys e at leased read settles free =
    let own = (read-Shows db input.job_id input.group_id (keys input.job_id) read).id in
    let readable : is_some (read_compilation_job db job.id input.group_id) ≡ true =
      rw own (ground (arith, read)) in
    let (db', s, kept) = settle_goes_on db job.id input.group_id input job settles in
    let answered = reconcile_answers percent job.id db' input.group_id (kept ∙ readable) in
    let after = (reconcile_compilation_job_inputs_locked percent job.id db').0 in
    let reach : Reaches percent input db = record {
      now = now;
      lease = lease;
      found = job;
      settled_db = db';
      job = answered.0;
      at = at;
      leased = leased;
      read = read;
      settles = s;
      reconciles = answered.1;
      goes = ground (arith, at, leased, read, s, answered.1);
    } in
    let granted =
      open_granted now lease input.group_id db answered.0 after input.job_id l
        (Reaches-Sees percent input db l keys e reach) free
        (subst (λ (u : ℕ). is_some (read_compilation_job after u input.group_id) ≡ true) own
          answered.2) in
    let answer = ap (λ p. p.1) reach.goes ∙ granted.1 in
    (
      (granted.0, answer),
      claimed_held percent db l input now granted.0 keys e (ground (arith, free)) at answer,
    )
