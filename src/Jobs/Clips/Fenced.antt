-- ===== src/Jobs/Clips/Fenced.antt =====
-- server/src/jobs/index.ts: a clip worker whose claim was taken over, and a clip that is published.
use rewind_app.Common.{
  ℕ, ◌≡◌, ◌≢◌, refl, ap, ◌∙◌, inl, inr, Bool, true, false, not, ◌&&◌, Option, none, some, List, [],
  ◌∷◌, ◌==◌, ==_iff, same, if◌then◌else◌, keep, find, find_sound, find-update, count, fmap, update,
  Option-cases, Bool-cases, arith,
}
use rewind_app.Tables.{ErrorCode, MediaJobRow, is_ready, Database}
use rewind_app.Jobs.Reports.{Integrity, published}
use rewind_app.Jobs.Clips.{
  StagedRow, ClipState, is_clip_job, read_clip_job, staged_binding_matches, equals, still_claimed,
  with_jobs, mark_output_prepared, Prepared, publishable_row, publish_clip, is_spent, drop_source,
  finalize_locked, finalize_prepared_output, mark_failed,
}

-- A worker whose claim of a clip is of another generation than the clip's can neither prepare an
-- output, nor publish one, nor fail the clip: each answers that it did not, and changes nothing.
pub stale_clip_worker :
    (row locked : MediaJobRow) (output_path now : ℕ) (p : Prepared) (error_code : ErrorCode)
    (s : ClipState)
    → read_clip_job s.tables row.id ≡ some locked
    → locked.claim_generation ≢ row.claim_generation
    → (mark_output_prepared row output_path now s ≡ (s, false))
      × (mark_failed row error_code now s ≡ (s, false))
      × ((finalize_prepared_output row p s).0 ≡ s)
      × ((finalize_prepared_output row p s).1 ≢ published)
unfolding mark_output_prepared mark_failed finalize_prepared_output finalize_locked
stale_clip_worker row locked output_path now p error_code s r stale =
    let differs : (locked.claim_generation == row.claim_generation) ≡ false =
      elim (Bool-cases (locked.claim_generation == row.claim_generation)) [
        | inl t ↦
            absurd (stale (ground (arith, t, ==_iff locked.claim_generation row.claim_generation)))
        | inr f ↦ f
      ] in
    elim (Option-cases p.integrity) [
      | inl n ↦ (
        ground (arith, r, differs),
        ground (arith, r, differs),
        ground (arith, n),
        ground (arith, n),
      )
      | inr (i, e) ↦ (
        ground (arith, r, differs),
        ground (arith, r, differs),
        ground (arith, r, differs, e),
        ground (arith, r, differs, e),
      )
    ]

keep-none {ℓ} :
    {A : Type ℓ} (p : A → Bool) (xs : List A) → find p (keep (λ (x : A). not (p x)) xs) ≡ none
keep-none p [] = refl
keep-none p (x ∷ xs) = elim (Bool-cases (p x)) [
  | inl t ↦ ground (arith, t, keep-none p xs)
  | inr f ↦ ground (arith, f, keep-none p xs)
]

-- What the publication of a clip leaves.
pub record PublishesClip (row locked : MediaJobRow) (p : Prepared) (s : ClipState) : Type 0 where
  pub integrity : Integrity
  pub hashed : p.integrity ≡ some integrity
  pub claimed : still_claimed row locked ≡ true
  pub prepared : locked.output_path ≡ some p.output_path
  pub bound : staged_binding_matches s.staged locked ≡ true
  pub unchanged_file : p.same_file ≡ true
  pub read_after :
      read_clip_job (finalize_prepared_output row p s).0.tables row.id
      ≡ some (publish_clip p integrity locked)
  pub source_dropped : find (is_spent locked) (finalize_prepared_output row p s).0.staged ≡ none

drop_source-staged :
    (locked : MediaJobRow) (s : ClipState)
    → find (is_spent locked) (drop_source locked s).staged ≡ none
unfolding drop_source
drop_source-staged locked s = elim (Option-cases locked.source_uri) [
  | inr (uri, e) ↦
      let r : (drop_source locked s).staged
          ≡ keep (λ (x : StagedRow). not (is_spent locked x)) s.staged =
        ground (arith, e) in
      rw r (keep-none (is_spent locked) s.staged)
  | inl n ↦ ground (arith, n, no_source s.staged n)
]
  where
    no_source : (xs : List StagedRow) → locked.source_uri ≡ none → find (is_spent locked) xs ≡ none
    no_source [] n = refl
    no_source (x ∷ xs) n = ground (arith, n, no_source xs n)

drop_source-tables :
    (locked : MediaJobRow) (s : ClipState) → (drop_source locked s).tables ≡ s.tables
unfolding drop_source
drop_source-tables locked s = ground arith

-- A publication of a clip that succeeds, where the clip was not ready yet and the worker's claim has
-- its instant: the claim still holds as the worker knew it, the prepared output is the one that is
-- published, the staged source is still bound and the file is the one that was hashed; the clip is
-- then ready at the published path with the digest and the size of that file and without its raw
-- source, and no staged source of it is left.
pub finalize-PublishesClip :
    (row locked : MediaJobRow) (started : ℕ) (p : Prepared) (s : ClipState)
    → read_clip_job s.tables row.id ≡ some locked
    → is_ready locked.status ≡ false
    → row.processing_started_at ≡ some started
    → (finalize_prepared_output row p s).1 ≡ published
    → PublishesClip row locked p s
unfolding finalize_prepared_output finalize_locked
finalize-PublishesClip row locked started p s r not_ready at e = elim (Option-cases p.integrity) [
  | inl n ↦ absurd (ground (arith, n, e))
  | inr (i, h) ↦
      elim (Bool-cases (
        still_claimed row locked
        && same locked.output_path (some p.output_path)
        && staged_binding_matches s.staged locked
        && p.same_file)) [
          | inr f ↦ absurd (ground (arith, h, r, not_ready, f, e))
          | inl t ↦ elim (Bool-cases p.moved) [
            | inr f ↦ absurd (ground (arith, h, r, not_ready, t, f, e))
            | inl m ↦
                elim (Bool-cases (count (publishable_row row p.output_path) s.tables.jobs == 1)) [
                  | inr f ↦ absurd (ground (arith, h, r, not_ready, t, m, f, e))
                  | inl one ↦
                      let claimed_still : still_claimed row locked ≡ true = ground (arith, t) in
                      let at_path : locked.output_path ≡ some p.output_path =
                        path_of locked.output_path p.output_path (ground (arith, t)) in
                      let own : is_clip_job row.id locked ≡ true =
                        find_sound (is_clip_job row.id) s.tables.jobs r in
                      let started_too : equals locked.processing_started_at
                            row.processing_started_at
                          ≡ true =
                        equals_of locked.processing_started_at row.processing_started_at started at
                          (ground (arith, claimed_still)) in
                      let passes : publishable_row row p.output_path locked ≡ true =
                        ground (arith, own, claimed_still, started_too, t) in
                      let jobs' =
                        update (publishable_row row p.output_path) (publish_clip p i)
                          s.tables.jobs in
                      let found : find (is_clip_job row.id) jobs' ≡ some (publish_clip p i locked) =
                        find-update (is_clip_job row.id) (publishable_row row p.output_path)
                          (publish_clip p i) s.tables.jobs (λ j. refl)
                        ∙ ap
                            (fmap (λ (j : MediaJobRow).
                              if publishable_row row p.output_path j
                              then publish_clip p i j
                              else j))
                            r
                        ∙ ap (λ (b : Bool). some (if b then publish_clip p i locked else locked))
                            passes in
                      let after : (finalize_prepared_output row p s).0
                          ≡ drop_source locked (with_jobs jobs' s) =
                        ground (arith, h, r, not_ready, t, m, one) in
                      record {
                        integrity = i;
                        hashed = h;
                        claimed = claimed_still;
                        prepared = at_path;
                        bound = ground (arith, t);
                        unchanged_file = ground (arith, t);
                        read_after =
                            ap (λ (x : ClipState). read_clip_job x.tables row.id) after
                            ∙ ap (λ (d : Database). read_clip_job d row.id)
                                (drop_source-tables locked (with_jobs jobs' s))
                            ∙ found;
                        source_dropped =
                            ap (λ (x : ClipState). find (is_spent locked) x.staged) after
                            ∙ drop_source-staged locked (with_jobs jobs' s);
                      }
                ]
          ]
        ]
]
  where
    path_of : (o : Option ℕ) (n : ℕ) → same o (some n) ≡ true → o ≡ some n
    path_of none n t = absurd (ground (arith, t))
    path_of (some m) n t = ap some (ground (arith, t, ==_iff m n))

    equals_of : (o q : Option ℕ) (n : ℕ) → q ≡ some n → same o q ≡ true → equals o q ≡ true
    equals_of none q n e t = absurd (ground (arith, e, t))
    equals_of (some m) none n e t = absurd (cc e)
    equals_of (some m) (some k) n e t = ground (arith, t)
