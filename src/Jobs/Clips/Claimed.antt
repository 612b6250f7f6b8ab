-- ===== src/Jobs/Clips/Claimed.antt =====
-- server/src/jobs/index.ts: which claims of a clip are granted.
use rewind_app.Common.{
  ℕ, ◌≡◌, refl, ap, ◌∙◌, inl, inr, Bool, true, false, not, ◌&&◌, Option, some, ◌==◌, ==_refl,
  same_refl, if◌then◌else◌, find, find_sound, find-update, count, fmap, update, Option-cases,
  Bool-cases, arith,
}
use rewind_app.Tables.{MediaJobRow}
use rewind_app.Jobs.Claims.{is_claimable}
use rewind_app.Jobs.Reports.{is_processing}
use rewind_app.Jobs.Clips.{
  ClipState, is_clip_job, read_clip_job, staged_binding_matches, ClipReason, claimed, unclaimed,
  is_stale, at_cap, begin_clip, claimable_row, claimed_row, claim_locked, claim_clip_job,
}

module _ (job_id now : ℕ) (cap : Option ℕ) (s : ClipState) where
  -- A claim of a clip that is granted: what it took, and what it leaves.
  pub record Takes (row : MediaJobRow) : Type 0 where
    pub locked : MediaJobRow
    pub read : read_clip_job s.tables job_id ≡ some locked
    pub was_open : (is_processing locked.status && not (is_stale now locked)) ≡ false
    pub was_claimable : is_claimable locked.status ≡ true
    pub under_cap : at_cap cap locked ≡ false
    pub bound : staged_binding_matches s.staged locked ≡ true
    pub answer : row ≡ claimed_row now locked
    pub read_after :
        read_clip_job (claim_clip_job job_id now cap s).0.tables job_id
        ≡ some (begin_clip now locked)
    pub same_sources : (claim_clip_job job_id now cap s).0.staged ≡ s.staged

  -- A claim of a clip is granted only for a clip that can be claimed: one that is pending or failed
  -- with fewer attempts than the cap, or one whose claim has run out; and only if its staged source
  -- is still the one that it was created for. The clip is then processing since the instant of the
  -- claim, under the next generation, with one attempt more unless it was processing.
  pub claim-Takes :
      (row : MediaJobRow) → (claim_clip_job job_id now cap s).1 ≡ claimed row → Takes row
  unfolding claim_clip_job claim_locked
  claim-Takes row e = elim (Option-cases (read_clip_job s.tables job_id)) [
    | inl n ↦ absurd (ground (arith, n, e))
    | inr (locked, r) ↦
        elim (Bool-cases (is_processing locked.status && not (is_stale now locked))) [
          | inl t ↦ absurd (ground (arith, r, t, e))
          | inr f ↦ elim (Bool-cases (is_claimable locked.status)) [
            | inr c ↦ absurd (ground (arith, r, f, c, e))
            | inl c ↦ elim (Bool-cases (at_cap cap locked)) [
              | inl x ↦ absurd (ground (arith, r, f, c, x, e))
              | inr x ↦ elim (Bool-cases (staged_binding_matches s.staged locked)) [
                | inr b ↦ absurd (ground (arith, r, f, c, x, b, e))
                | inl b ↦ elim (Bool-cases (count (claimable_row locked) s.tables.jobs == 1)) [
                  | inr one ↦ absurd (ground (arith, r, f, c, x, b, one, e))
                  | inl one ↦
                      let own : is_clip_job job_id locked ≡ true =
                        find_sound (is_clip_job job_id) s.tables.jobs r in
                      let passes : claimable_row locked locked ≡ true = ground (
                        arith,
                        own,
                        c,
                        same_refl locked.processing_started_at,
                        ==_refl locked.id,
                      ) in
                      let found : find (is_clip_job job_id)
                            (update (claimable_row locked) (begin_clip now) s.tables.jobs)
                          ≡ some (begin_clip now locked) =
                        find-update (is_clip_job job_id) (claimable_row locked) (begin_clip now)
                          s.tables.jobs (λ j. refl)
                        ∙ ap
                            (fmap (λ (j : MediaJobRow).
                              if claimable_row locked j then begin_clip now j else j))
                            r
                        ∙ ap (λ (b : Bool). some (if b then begin_clip now locked else locked))
                            passes in
                      record {
                        locked = locked;
                        read = r;
                        was_open = f;
                        was_claimable = c;
                        under_cap = x;
                        bound = b;
                        answer = ground (arith, r, f, c, x, b, one, e);
                        read_after = ground (arith, r, f, c, x, b, one, found);
                        same_sources = ground (arith, r, f, c, x, b, one);
                      }
                ]
              ]
            ]
          ]
        ]
  ]

  -- A claim of a clip that is not granted changes nothing, whatever the reason.
  pub unclaimed_unchanged :
      (reason : ClipReason)
      → (claim_clip_job job_id now cap s).1 ≡ unclaimed reason
      → (claim_clip_job job_id now cap s).0 ≡ s
  unfolding claim_clip_job claim_locked
  unclaimed_unchanged reason e = ground (arith, e)
