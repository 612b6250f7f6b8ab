-- ===== src/Jobs/Compilation/Snapshot.antt =====
-- server/src/jobs/index.ts: the snapshot of a film's clips, read back in its order.
use rewind_app.Common.{
  ℕ, ◌+◌, ◌≡◌, refl, ap, ◌∙◌, Bool, true, false, ◌&&◌, none, some, List, [], ◌∷◌, ◌++◌, map, ltb,
  ◌==◌, ==_refl, is_some, keep, find, find-append, any, insert_sorted, length, order_by, arith,
}
use rewind_app.Tables.{is_film, MediaJobRow, InputRow, Database}
use rewind_app.Jobs.Compilation.{
  CompilationJobRecord, is_film_of, is_closed, clip_job_ids, snapshot, new_film, insert_film,
  compilation_record, in_group, read_compilation_job, ensure_compilation_job,
}
use rewind_app.Jobs.Inputs.{EligibleRow, cycle_of, before_by, eligible_compilation_inputs}

abbrev of_job : ℕ → InputRow → Bool
of_job job_id i = i.job_id == job_id

abbrev by_position : InputRow → InputRow → Bool
by_position i j = before_by i.position j.position (ltb i.clip_job_id j.clip_job_id)

module _ (job_id : ℕ) where
  keep-snapshot :
      (n : ℕ) (rs : List EligibleRow)
      → keep (of_job job_id) (snapshot job_id n rs) ≡ snapshot job_id n rs
  unfolding snapshot
  keep-snapshot n [] = refl
  keep-snapshot n (r ∷ rs) = ground (arith, keep-snapshot (n + 1) rs, ==_refl job_id)

  keep-none :
      (is : List InputRow)
      → any (of_job job_id) is ≡ false
      → (tail : List InputRow) → keep (of_job job_id) (is ++ tail) ≡ keep (of_job job_id) tail
  keep-none [] h tail = refl
  keep-none (i ∷ is) h tail = ground (arith, h, keep-none is (ground (arith, h)) tail)

  insert-first :
      (n : ℕ) (r : EligibleRow) (rs : List EligibleRow) (i : InputRow)
      → i.position ≡ n
      → insert_sorted by_position i (snapshot job_id (n + 1) rs) ≡ i ∷ snapshot job_id (n + 1) rs
  unfolding snapshot
  insert-first n r [] i h = refl
  insert-first n r (r' ∷ rs) i h = ground (arith, h)

  order_by-snapshot :
      (n : ℕ) (rs : List EligibleRow)
      → order_by by_position (snapshot job_id n rs) ≡ snapshot job_id n rs
  unfolding snapshot
  order_by-snapshot n [] = refl
  order_by-snapshot n (r ∷ rs) =
      let first : InputRow = record {
        job_id = job_id;
        clip_job_id = r.clip_job_id;
        contribution_id = r.contribution_id;
        position = n;
      } in
      ap (insert_sorted by_position first) (order_by-snapshot (n + 1) rs)
      ∙ insert-first n r rs first refl

  map-snapshot :
      (n : ℕ) (rs : List EligibleRow)
      → map (λ (i : InputRow). i.clip_job_id) (snapshot job_id n rs)
        ≡ map (λ (r : EligibleRow). r.clip_job_id) rs
  unfolding snapshot
  map-snapshot n [] = refl
  map-snapshot n (r ∷ rs) = ap (λ t. r.clip_job_id ∷ t) (map-snapshot (n + 1) rs)

weaker :
    (film_id group_id : ℕ) (js : List MediaJobRow)
    → find (λ (j : MediaJobRow). j.id == film_id) js ≡ none
    → find
        (λ (j : MediaJobRow).
          (j.id == film_id)
          && is_film j.kind
          && is_some j.cycle_id
          && in_group (some group_id) j.group_id)
        js
      ≡ none
weaker film_id group_id [] h = refl
weaker film_id group_id (j ∷ js) h = ground (arith, h, weaker film_id group_id js)

module _ (film_id group_id cycle_id created_at : ℕ) (db : Database) where
  -- A closed cycle without a film gets one that is answered with the clips that are eligible, in
  -- their order, and with their number, where no job and no input has the identifier of the film.
  pub ensure_compilation_job-snapshot :
      is_closed (cycle_of db group_id cycle_id) ≡ true
      → find (is_film_of group_id cycle_id) db.jobs ≡ none
      → find (λ (j : MediaJobRow). j.id == film_id) db.jobs ≡ none
      → any (of_job film_id) db.inputs ≡ false
      → (r : CompilationJobRecord) × ((ensure_compilation_job film_id group_id cycle_id created_at
            db).1
          ≡ some r)
        × (r.clip_job_ids
            ≡ map
                (λ (e : EligibleRow). e.clip_job_id)
                (eligible_compilation_inputs db group_id cycle_id))
        × (r.input_count ≡ length (eligible_compilation_inputs db group_id cycle_id))
  unfolding ensure_compilation_job insert_film read_compilation_job compilation_record new_film
  ensure_compilation_job-snapshot shut none_yet new_id new_inputs =
      let eligible = eligible_compilation_inputs db group_id cycle_id in
      let film = new_film film_id group_id cycle_id created_at (length eligible) in
      let db' = insert_film film_id group_id cycle_id created_at db in
      let is_this : MediaJobRow → Bool = λ j.
        (j.id == film_id)
        && is_film j.kind
        && is_some j.cycle_id
        && in_group (some group_id) j.group_id in
      let no_such : find is_this db.jobs ≡ none = weaker film_id group_id db.jobs new_id in
      let found : find is_this db'.jobs ≡ some film = ground (
        arith,
        no_such,
        find-append is_this db.jobs (film ∷ []),
        ==_refl film_id,
        ==_refl group_id,
      ) in
      let kept : keep (of_job film_id) db'.inputs ≡ snapshot film_id 0 eligible =
        keep-none film_id db.inputs new_inputs (snapshot film_id 0 eligible)
        ∙ keep-snapshot film_id 0 eligible in
      let ids : clip_job_ids db' film_id ≡ map (λ (e : EligibleRow). e.clip_job_id) eligible =
        ap (λ t. map (λ (i : InputRow). i.clip_job_id) (order_by by_position t)) kept
        ∙ ap (map (λ (i : InputRow). i.clip_job_id)) (order_by-snapshot film_id 0 eligible)
        ∙ map-snapshot film_id 0 eligible in
      (compilation_record db' film cycle_id, ground (arith, shut, none_yet, found), ids, refl)
