-- ===== src/Jobs/Lease/Readable.antt =====
-- server/src/jobs/index.ts: a film that can be read before a write of its job can be read after it.
use rewind_app.Common.{
  ℕ, ◌≡◌, ◌≢◌, refl, sym, ◌∙◌, ◌⊎◌, inl, inr, Bool, true, not, ◌&&◌, Option, none, some, ◌==◌, same,
  is_some, if◌then◌else◌, find, find_sound, find-update, find-weaken, fmap, or_else, update,
  Option-cases, Bool-cases, arith,
}
use rewind_app.Tables.{MediaJobRow, Database, is_film, is_ready}
use rewind_app.Jobs.Compilation.{CompilationJobRecord, read_compilation_job, in_group}
use rewind_app.Jobs.Reconcile.{
  reconciled, freeze_settled_compilation_inputs_locked, accepted_compilation_inputs,
  accepted_clip_automatic_attempts, Acceptance, settled, waiting, unavailable,
}
use rewind_app.Jobs.Claims.{ClaimInput, settle_inputs, grant_claim}

-- Whether the row of a film can be read.
abbrev readable_row : ℕ → Option ℕ → MediaJobRow → Bool
readable_row k group j =
    (j.id == k) && is_film j.kind && is_some j.cycle_id && in_group group j.group_id

read-is_some :
    (db : Database) (k : ℕ) (group : Option ℕ)
    → is_some (read_compilation_job db k group) ≡ is_some (find (readable_row k group) db.jobs)
unfolding read_compilation_job
read-is_some db k group = elim (Option-cases (find (readable_row k group) db.jobs)) [
  | inl n ↦ ground (arith, n)
  | inr (x, e) ↦ ground (arith, e, find_sound (readable_row k group) db.jobs e)
]

pub read-update :
    (db db' : Database) (k : ℕ) (group : Option ℕ) (q : MediaJobRow → Bool)
    (f : MediaJobRow → MediaJobRow)
    → db'.jobs ≡ update q f db.jobs
    → ((j : MediaJobRow) → readable_row k group (f j) ≡ readable_row k group j)
    → is_some (read_compilation_job db' k group) ≡ is_some (read_compilation_job db k group)
read-update db db' k group q f e same =
    let found : is_some (find (readable_row k group) db'.jobs)
        ≡ is_some (find (readable_row k group) db.jobs) =
      rw e (
        rw (find-update (readable_row k group) q f db.jobs same)
          (by_case (find (readable_row k group) db.jobs))) in
    read-is_some db' k group ∙ found ∙ sym (read-is_some db k group)
  where
    by_case : (o : Option MediaJobRow) → is_some (fmap (λ x. if q x then f x else x) o) ≡ is_some o
    by_case none = refl
    by_case (some x) = refl

pub read_any_group :
    (db : Database) (k : ℕ) (group : Option ℕ)
    → is_some (read_compilation_job db k group) ≡ true
    → is_some (read_compilation_job db k none) ≡ true
read_any_group db k group e =
    read-is_some db k none
    ∙ find-weaken (readable_row k group) (readable_row k none) db.jobs (λ y t. ground (arith, t))
        (sym (read-is_some db k group) ∙ e)

module _ (db : Database) (k : ℕ) (group : Option ℕ) where
  pub read-reconciled :
      (percent : ℕ → ℕ → ℕ) (job : CompilationJobRecord)
      → is_some (read_compilation_job (reconciled percent db job) k group)
        ≡ is_some (read_compilation_job db k group)
  unfolding reconciled
  read-reconciled percent job = read-update db _ k group _ _ refl (λ j. refl)

  pub read-grant :
      (now : ℕ) (job : CompilationJobRecord)
      → is_some (read_compilation_job (grant_claim now job db) k group)
        ≡ is_some (read_compilation_job db k group)
  unfolding grant_claim
  read-grant now job = read-update db _ k group _ _ refl (λ j. refl)

  read-freeze :
      (job : CompilationJobRecord)
      → is_some (read_compilation_job (freeze_settled_compilation_inputs_locked db job) k group)
        ≡ is_some (read_compilation_job db k group)
  unfolding freeze_settled_compilation_inputs_locked
  read-freeze job = read-update db _ k group _ _ refl (λ j. refl)

  -- Where the inputs are not awaited, the claim goes on, and its job can still be read.
  pub settle_goes_on :
      (input : ClaimInput) (job : CompilationJobRecord)
      → accepted_compilation_inputs db job
          (or_else input.clip_attempt_cap accepted_clip_automatic_attempts)
        ≢ waiting
      → (db' : Database) × (settle_inputs input db job ≡ some db')
        × (is_some (read_compilation_job db' k group) ≡ is_some (read_compilation_job db k group))
  unfolding settle_inputs
  settle_goes_on input job not_waiting =
      let either : (settle_inputs input db job ≡ some db)
          ⊎ (settle_inputs input db job ≡ some (freeze_settled_compilation_inputs_locked db job)) =
        elim (Bool-cases (input.require_settled_inputs && not (is_ready job.status))) [
          | inl t ↦
              by_acceptance t
                (accepted_compilation_inputs db job
                  (or_else input.clip_attempt_cap accepted_clip_automatic_attempts))
                refl
          | inr f ↦ inl (ground (arith, f))
        ] in
      elim either [
        | inl e ↦ (db, e, refl)
        | inr e ↦ (freeze_settled_compilation_inputs_locked db job, e, read-freeze job)
      ]
    where
      by_acceptance :
          (input.require_settled_inputs && not (is_ready job.status)) ≡ true
          → (a : Acceptance)
          → accepted_compilation_inputs db job
              (or_else input.clip_attempt_cap accepted_clip_automatic_attempts)
            ≡ a
          → (settle_inputs input db job ≡ some db)
            ⊎ (settle_inputs input db job ≡ some (freeze_settled_compilation_inputs_locked db job))
      by_acceptance t waiting e = absurd (not_waiting e)
      by_acceptance t unavailable e = inl (ground (arith, t, e))
      by_acceptance t (settled ids) e = elim (Bool-cases (job.claim_generation == 0)) [
        | inl z ↦ inr (ground (arith, t, e, z))
        | inr z ↦ inl (ground (arith, t, e, z))
      ]
