-- ===== src/Cycles/Lifecycle/Release.antt =====
-- server/src/cycles/lifecycle.ts: the publication of a cycle's film.
use rewind_app.Common.{
  ℕ, ◌≡◌, refl, ◌⊎◌, inl, inr, true, false, ◌&&◌, not, Option, none, some, date_le, Result-cases,
  ok, ◌>>=◌, arith, find, find-update, find_sound,
}
use rewind_app.Tables.{CycleRow, revealing, unpublished, published, MediaJobRow, Database}
use rewind_app.Cycles.Lifecycle.{is_cycle, is_published, read_cycle}
use rewind_app.Cycles.Lifecycle.Output.{has_ready_compilation_output}
use rewind_app.Cycles.Lifecycle.Transactions.{
  Published, published_row, required, publish_row, publish_read, publish_first,
  publish_cycle_release_verified, is_revealing,
}
use rewind_app.Cycles.Lifecycle.Parts.{read_cycle_sound}

module _ (hash_file : ℕ → Option (ℕ × ℕ)) (proof : Option MediaJobRow) (date group_id cycle_id : ℕ)
    (db : Database) where
  -- A publication that is new writes the release of a cycle that was stored, revealing and
  -- unpublished, at an instant that is not before its end; one that is not new changes nothing.
  abbrev pub Publishes : CycleRow → Published → Type 0
  Publishes c r =
      (has_ready_compilation_output hash_file c.group_id c.id true proof db ≡ true)
      × (((r.already ≡ true) × (c.release_status ≡ published) × (r.database ≡ db))
          ⊎ ((r.already ≡ false)
              × (c.release_status ≡ unpublished)
              × (c.status ≡ revealing)
              × (date_le c.ends_at date ≡ true)
              × (find (is_cycle c.id c.group_id) r.database.cycles ≡ some (published_row date c))))

  publish_read-Publishes :
      (c : CycleRow) (r : Published)
      → find (is_cycle c.id c.group_id) db.cycles ≡ some c
      → publish_read hash_file proof c date db ≡ ok r
      → Publishes c r
  unfolding publish_read publish_first publish_row
  publish_read-Publishes c r e h = ground (
    arith,
    h,
    e,
    find-update (is_cycle c.id c.group_id)
        (λ x.
          is_cycle c.id c.group_id x
          && is_revealing x.status
          && not (is_published x.release_status))
        (published_row date) db.cycles (λ x. refl),
  )

  published_by :
      (r : Published) (read : Option CycleRow)
      → read_cycle cycle_id group_id db.cycles ≡ ok read
      → (required read >>= λ c. publish_read hash_file proof c date db) ≡ ok r
      → (c : CycleRow) × (find (is_cycle cycle_id group_id) db.cycles ≡ some c) × Publishes c r
  published_by r none e h = absurd (cc h)
  published_by r (some c) e h =
      let f = read_cycle_sound cycle_id group_id db.cycles c e in
      let own = find_sound (is_cycle cycle_id group_id) db.cycles f in
      let i : c.id ≡ cycle_id = ground (arith, own) in
      let j : c.group_id ≡ group_id = ground (arith, own) in
      let stored : find (is_cycle c.id c.group_id) db.cycles ≡ some c = cc (f, i, j) in
      (c, f, publish_read-Publishes c r stored h)

  -- A publication at `date` that returns a result is of the cycle stored under the given identifier
  -- and group, and its film has its verified output. Either the cycle was published already and
  -- the database is as it was, or it was revealing and unpublished, its end is not after `date`, and
  -- its stored row is now published at `date`.
  pub publish-Publishes :
      (r : Published)
      → publish_cycle_release_verified hash_file proof (some date) group_id cycle_id db ≡ ok r
      → (c : CycleRow) × (find (is_cycle cycle_id group_id) db.cycles ≡ some c) × Publishes c r
  unfolding publish_cycle_release_verified
  publish-Publishes r h = elim (Result-cases (read_cycle cycle_id group_id db.cycles)) [
    | inl (f, e) ↦ absurd (ground (arith, h, e))
    | inr (read, e) ↦ published_by r read e (ground (arith, h, e))
  ]
