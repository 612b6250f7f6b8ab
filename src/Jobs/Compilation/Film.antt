-- ===== src/Jobs/Compilation/Film.antt =====
-- server/src/jobs/index.ts: one film for each closed cycle.
use rewind_app.Common.{
  ℕ, ◌+◌, ◌≤◌, ◌≡◌, refl, sym, ap, ◌∙◌, inl, inr, ◌&&◌, none, some, [], ◌∷◌, ◌==◌, ==_refl,
  if◌then◌else◌, find, find-append, count, count-append, count-eq-zero_of_find, length,
  Option-cases, Bool-cases, arith,
}
use rewind_app.Tables.{MediaJobRow, Database}
use rewind_app.Jobs.Compilation.{
  is_film_of, is_closed, new_film, insert_film, ensure_compilation_job,
}
use rewind_app.Jobs.Inputs.{cycle_of, eligible_compilation_inputs}

module _ (film_id group_id cycle_id created_at : ℕ) (db : Database) where
  insert_film-count :
      (g c : ℕ)
      → count (is_film_of g c) (insert_film film_id group_id cycle_id created_at db).jobs
        ≡ count (is_film_of g c) db.jobs + (if (cycle_id == c) && (group_id == g) then 1 else 0)
  unfolding insert_film new_film
  insert_film-count g c = ground (
    arith,
    count-append (is_film_of g c) db.jobs (
        new_film film_id group_id cycle_id created_at
          (length (eligible_compilation_inputs db group_id cycle_id))
        ∷ []),
  )

  insert_film-one :
      (g c : ℕ)
      → find (is_film_of group_id cycle_id) db.jobs ≡ none
      → count (is_film_of g c) db.jobs ≤ 1
      → count (is_film_of g c) (insert_film film_id group_id cycle_id created_at db).jobs ≤ 1
  insert_film-one g c none_yet h = elim (Bool-cases ((cycle_id == c) && (group_id == g))) [
    | inl t ↦
        (let i : cycle_id ≡ c = ground (arith, t) in
          let j : group_id ≡ g = ground (arith, t) in
          let none_here : count (is_film_of g c) db.jobs ≡ 0 =
            ap (λ x. count (is_film_of g x) db.jobs) (sym i)
            ∙ ap (λ x. count (is_film_of x cycle_id) db.jobs) (sym j)
            ∙ count-eq-zero_of_find (is_film_of group_id cycle_id) db.jobs none_yet in
          ground (arith, insert_film-count g c, none_here))
    | inr f ↦ ground (arith, insert_film-count g c, f, h)
  ]

  insert_film-find :
      find (is_film_of group_id cycle_id) db.jobs ≡ none
      → (film : MediaJobRow) × (find
            (is_film_of group_id cycle_id)
            (insert_film film_id group_id cycle_id created_at db).jobs
          ≡ some film)
        × (film.id ≡ film_id)
  unfolding insert_film new_film
  insert_film-find e =
      let film =
        new_film film_id group_id cycle_id created_at
          (length (eligible_compilation_inputs db group_id cycle_id)) in
      (
        film,
        ground (
          arith,
          e,
          find-append (is_film_of group_id cycle_id) db.jobs (film ∷ []),
          ==_refl group_id,
          ==_refl cycle_id,
        ),
        refl,
      )

  -- To ensure the film of a cycle keeps the number of films of any one cycle of a group, if it
  -- was one at most, at one at most.
  pub ensure_compilation_job-one_film :
      (g c : ℕ)
      → count (is_film_of g c) db.jobs ≤ 1
      → count
          (is_film_of g c)
          (ensure_compilation_job film_id group_id cycle_id created_at db).0.jobs
        ≤ 1
  unfolding ensure_compilation_job
  ensure_compilation_job-one_film g c h = ground (arith, h, insert_film-one g c)

  insert_film-cycle :
      cycle_of (insert_film film_id group_id cycle_id created_at db) group_id cycle_id
      ≡ cycle_of db group_id cycle_id
  unfolding insert_film
  insert_film-cycle = refl

  -- To ensure the film of a cycle again, at whatever instant, changes nothing and answers the
  -- same.
  pub ensure_compilation_job_again :
      (later : ℕ)
      → let once = ensure_compilation_job film_id group_id cycle_id created_at db in
        ensure_compilation_job film_id group_id cycle_id later once.0 ≡ once
  unfolding ensure_compilation_job
  ensure_compilation_job_again later =
      elim (Bool-cases (is_closed (cycle_of db group_id cycle_id))) [
        | inl t ↦ elim (Option-cases (find (is_film_of group_id cycle_id) db.jobs)) [
          | inl e ↦
              (let (film, found, own) = insert_film-find e in
                let same_cycle : cycle_of (insert_film film_id group_id cycle_id created_at db)
                      group_id cycle_id
                    ≡ cycle_of db group_id cycle_id =
                  insert_film-cycle in
                ground (arith, t, e, found, own, same_cycle))
          | inr (film, e) ↦ ground (arith, t, e)
        ]
        | inr f ↦ ground (arith, f)
      ]
