-- ===== src/Jobs/Lease/Runs.antt =====
-- server/src/jobs/index.ts: any sequence of claims, reports, failures and publications of films.
use rewind_app.Common.{ℕ, ◌≤◌, ◌≡◌, refl, ap, ◌∙◌, some, List, [], ◌∷◌, arith}
use rewind_app.Tables.{pending, ready, Database, ErrorCode}
use rewind_app.Jobs.Compilation.{CompilationJobRecord, max_compilation_attempts}
use rewind_app.Jobs.Claims.{ClaimInput, claim_compilation_job}
use rewind_app.Jobs.Reports.{
  ProgressInput, Output, update_compilation_job_progress, mark_compilation_failed,
  publish_compilation_output,
}
use rewind_app.Jobs.Lease.{
  Lease, held, Keys, Step, Steps, here, onward, rest, begin, retry, take_over, renew, fail, publish,
}
use rewind_app.Jobs.Lease.Rows.{Moves}
use rewind_app.Jobs.Lease.Claiming.{claim-Moves}
use rewind_app.Jobs.Lease.Reporting.{report-Moves, fail-Moves, publish-Moves}

-- A call of a worker, on whatever job.
pub data Call : Type 0 where
  claims : ClaimInput → Call
  reports : ProgressInput → Call
  fails : (job_id generation : ℕ) → ErrorCode → (failed_at : ℕ) → Call
  publishes : CompilationJobRecord → List ℕ → Output → Call

module _ (percent : ℕ → ℕ → ℕ) where
  unfoldable pub run_call : Call → Database → Database
  run_call (claims input) db = (claim_compilation_job percent input db).0
  run_call (reports input) db = (update_compilation_job_progress percent input db).0
  run_call (fails job_id generation error_code failed_at) db =
      mark_compilation_failed job_id generation error_code failed_at db
  run_call (publishes job expected output) db =
      (publish_compilation_output percent job expected output db).0

  unfoldable pub run_calls : List Call → Database → Database
  run_calls [] db = db
  run_calls (c ∷ cs) db = run_calls cs (run_call c db)

  run_call-Moves : (k : ℕ) (c : Call) (db : Database) → Keys db → Moves k db (run_call c db)
  unfolding run_call
  run_call-Moves k (claims input) db keys = claim-Moves percent k input db keys
  run_call-Moves k (reports input) db keys = report-Moves percent input db k
  run_call-Moves k (fails job_id generation error_code failed_at) db keys =
      fail-Moves k job_id generation error_code failed_at db
  run_call-Moves k (publishes job expected output) db keys =
      publish-Moves percent job expected output db k

  -- Any sequence of claims, reports, failures and publications, on whatever jobs, with whatever
  -- inputs and answers from outside, takes the job of an identifier, where identifiers are unique,
  -- from what workers see of it by steps of the contract to what they see of it afterwards.
  pub run_calls-refines :
      (k : ℕ) (calls : List Call) (db : Database) (l : Lease)
      → Keys db
      → held db k ≡ some l
      → (m : Lease) × (held (run_calls calls db) k ≡ some m) × Steps l m
  unfolding run_calls
  run_calls-refines k [] db l keys e = (l, e, here)
  run_calls-refines k (c ∷ cs) db l keys e =
      let moved = (run_call-Moves k c db keys).step l e in
      let rest_of =
        run_calls-refines k cs (run_call c db) moved.0
          (λ n. (run_call-Moves n c db keys).keyed (keys n)) moved.1 in
      (rest_of.0, rest_of.1, onward moved.2 rest_of.2)

-- What holds of the lease of a job that has been claimed three times at most.
pub record Sound (l : Lease) : Type 0 where
  pub capped : l.attempts ≤ max_compilation_attempts
  pub fresh : l.status ≡ pending → l.attempts ≡ 0

Step-Sound : {l m : Lease} → Step l m → Sound l → Sound m
Step-Sound rest s = s
Step-Sound (begin now e) s = record {
  capped = omega (arith, s.fresh e);
  fresh = λ p. absurd (ground (arith, p));
}
Step-Sound (retry now e few) s = record {
  capped = omega (arith, few);
  fresh = λ p. absurd (ground (arith, p));
}
Step-Sound (take_over now lease e f) s = record {
  capped = s.capped;
  fresh = λ p. absurd (ground (arith, p));
}
Step-Sound (renew now e) s = record { capped = s.capped; fresh = λ p. s.fresh p }
Step-Sound (fail e) s = record { capped = s.capped; fresh = λ p. absurd (ground (arith, p)) }
Step-Sound (publish path e) s = record {
  capped = s.capped;
  fresh = λ p. absurd (ground (arith, p));
}

Steps-Sound : {l m : Lease} → Steps l m → Sound l → Sound m
Steps-Sound here s = s
Steps-Sound (onward st sts) s = Steps-Sound sts (Step-Sound st s)

-- What no step takes back: the generation grows, and a published film stays as it is.
pub record Forward (l m : Lease) : Type 0 where
  pub generation : l.generation ≤ m.generation
  pub final : l.status ≡ ready → m ≡ l

Step-Forward : {l m : Lease} → Step l m → Forward l m
Step-Forward rest = record { generation = omega arith; final = λ p. refl }
Step-Forward (begin now e) = record {
  generation = omega arith;
  final = λ p. absurd (ground (arith, e, p));
}
Step-Forward (retry now e few) = record {
  generation = omega arith;
  final = λ p. absurd (ground (arith, e, p));
}
Step-Forward (take_over now lease e f) = record {
  generation = omega arith;
  final = λ p. absurd (ground (arith, e, p));
}
Step-Forward (renew now e) = record {
  generation = omega arith;
  final = λ p. absurd (ground (arith, e, p));
}
Step-Forward (fail e) = record {
  generation = omega arith;
  final = λ p. absurd (ground (arith, e, p));
}
Step-Forward (publish path e) = record {
  generation = omega arith;
  final = λ p. absurd (ground (arith, e, p));
}

Steps-Forward : {l m : Lease} → Steps l m → Forward l m
Steps-Forward here = record { generation = omega arith; final = λ p. refl }
Steps-Forward {l} (onward {m = n} st sts) =
    let one = Step-Forward st in
    let more = Steps-Forward sts in
    record {
      generation = omega (arith, one.generation, more.generation);
      final = λ p.
          let same_lease = one.final p in
          more.final (ap (λ (x : Lease). x.status) same_lease ∙ p) ∙ same_lease;
    }

module _ (percent : ℕ → ℕ → ℕ) (k : ℕ) (calls : List Call) (db : Database) (l : Lease) where
  -- Where identifiers are unique, no sequence of calls gives a film a fourth attempt, if it starts
  -- with three at most, and with none where it is pending; and a pending film has made none.
  pub run_calls-Sound :
      Keys db
      → held db k ≡ some l
      → Sound l
      → (m : Lease) × (held (run_calls percent calls db) k ≡ some m) × Sound m
  run_calls-Sound keys e s =
      let (m, f, steps) = run_calls-refines percent k calls db l keys e in
      (m, f, Steps-Sound steps s)

  -- Where identifiers are unique, no sequence of calls takes the claim generation of a film back,
  -- or changes the status, the attempts or the output of a film that is ready.
  pub run_calls-Forward :
      Keys db
      → held db k ≡ some l
      → (m : Lease) × (held (run_calls percent calls db) k ≡ some m) × Forward l m
  run_calls-Forward keys e =
      let (m, f, steps) = run_calls-refines percent k calls db l keys e in
      (m, f, Steps-Forward steps)
