-- ===== src/Cycles/Lifecycle/Parts.antt =====
-- server/src/cycles/lifecycle.ts: what each part of an advance does to the stored cycles and events.
use rewind_app.Common.{
  ℕ, ◌+◌, ◌≡◌, ◌⊎◌, inl, inr, Bool, true, false, Option, none, some, List, [], ◌∷◌, ◌++◌, leb,
  Option-cases, Result-cases, date_le, find, update, find-update, find-append, find_sound, ok,
  arith,
}
use rewind_app.Tables.{collecting, revealing, published, CycleRow, MediaJobRow, Database}
use rewind_app.Jobs.Compilation.{ensure_compilation_job, insert_film}
use rewind_app.Cycles.Lifecycle.{
  CycleLifecycleAction, premiere_duration_ms, is_cycle, read_cycle, checked_cycle, ensure_successor,
  create_successor,
}
use rewind_app.Cycles.Lifecycle.Output.{has_ready_compilation_output}
use rewind_app.Cycles.Lifecycle.Transactions.{
  is_archived, closed_row, archived_row, archive_cycle, settle, ensure_film, end_premiere,
}

checked_cycle_same : (c d : CycleRow) → checked_cycle c ≡ ok d → c ≡ d
unfolding checked_cycle
checked_cycle_same c d h = ground (arith, h)

pub read_cycle_sound :
    (k g : ℕ) (cs : List CycleRow) (c : CycleRow)
    → read_cycle k g cs ≡ ok (some c)
    → find (is_cycle k g) cs ≡ some c
unfolding read_cycle
read_cycle_sound k g cs c h = elim (Option-cases (find (is_cycle k g) cs)) [
  | inl e ↦ ground (arith, h, e)
  | inr (d, e) ↦ ground (arith, h, e, checked_cycle_same d c)
]

-- The 24 hours after the release have passed.
abbrev pub premiere_over : ℕ → CycleRow → Bool
premiere_over now c = elim c.release_published_at [
  | none ↦ false
  | some date ↦ (elim date [ none ↦ false | some t ↦ leb (t + premiere_duration_ms) now ])
]

-- The only changes of a stored cycle: none, its end reached, and its premiere over.
pub data LegalStep (now : ℕ) : CycleRow → CycleRow → Type 0 where
  stays : {c : CycleRow} → LegalStep now c c
  closes :
      {c : CycleRow}
      → c.status ≡ collecting
      → date_le c.ends_at now ≡ true
      → LegalStep now c (closed_row c)
  archives :
      {c : CycleRow}
      → c.status ≡ revealing
      → c.release_status ≡ published
      → premiere_over now c ≡ true
      → LegalStep now c (archived_row c)

module _ (hash_file : ℕ → Option (ℕ × ℕ)) (proof : Option MediaJobRow) where
  abbrev pub MayArchive : CycleRow → ℕ → Database → Database → Type 0
  MayArchive cycle now db db' =
      (is_archived cycle.status ≡ false)
      × (cycle.release_status ≡ published)
      × (premiere_over now cycle ≡ true)
      × (has_ready_compilation_output hash_file cycle.group_id cycle.id true proof db ≡ true)
      × (db'.cycles ≡ update (is_cycle cycle.id cycle.group_id) archived_row db.cycles)

  pub settle_cases :
      (cycle : CycleRow) (now : ℕ) (db : Database) (r : Database × CycleLifecycleAction)
      → settle hash_file proof cycle now db ≡ ok r
      → (r.0 ≡ db) ⊎ MayArchive cycle now db r.0
  unfolding settle end_premiere archive_cycle
  settle_cases cycle now db r h = ground (arith, h)

  pub ensure_film-cycles :
      (film_id : ℕ → ℕ → ℕ) (next_id : ℕ) (cycle : CycleRow) (e : ℕ) (db db' : Database)
      → ensure_film hash_file proof film_id next_id cycle e db ≡ ok db'
      → db'.cycles ≡ db.cycles
  unfolding ensure_film ensure_compilation_job insert_film
  ensure_film-cycles film_id next_id cycle e db db' h = ground (arith, h)

module _ (hash_file : ℕ → Option (ℕ × ℕ)) (proof : Option MediaJobRow) where
  pub ensure_film-events :
      (film_id : ℕ → ℕ → ℕ) (next_id : ℕ) (cycle : CycleRow) (e : ℕ) (db db' : Database)
      → ensure_film hash_file proof film_id next_id cycle e db ≡ ok db'
      → db'.events ≡ db.events
  unfolding ensure_film ensure_compilation_job insert_film
  ensure_film-events film_id next_id cycle e db db' h = ground (arith, h)

create_successor-cycles :
    (next_id : ℕ) (cycle : CycleRow) (db : Database) (r : Database × CycleRow)
    → create_successor next_id cycle db ≡ ok r
    → r.0.cycles ≡ db.cycles ++ r.1 ∷ []
unfolding create_successor
create_successor-cycles next_id cycle db r h = ground (arith, h)

pub ensure_successor-keeps :
    (next_id : ℕ) (cycle : CycleRow) (db : Database) (r : Database × CycleRow) (k g : ℕ)
    (row : CycleRow)
    → ensure_successor next_id cycle db ≡ ok r
    → find (is_cycle k g) db.cycles ≡ some row
    → find (is_cycle k g) r.0.cycles ≡ some row
unfolding ensure_successor
ensure_successor-keeps next_id cycle db r k g row h e =
    elim (Result-cases (create_successor next_id cycle db)) [
      | inl (f, e') ↦ ground (arith, h, e, e')
      | inr (made, e') ↦ ground (
        arith,
        h,
        e,
        e',
        create_successor-cycles next_id cycle db made e',
        find-append (is_cycle k g) db.cycles (made.1 ∷ []),
      )
    ]

pub update-moves :
    (f : CycleRow → CycleRow) (c : CycleRow) (cs : List CycleRow) (k g : ℕ) (row : CycleRow)
    → ((x : CycleRow) → is_cycle k g (f x) ≡ is_cycle k g x)
    → find (is_cycle c.id c.group_id) cs ≡ some c
    → find (is_cycle k g) cs ≡ some row
    → (find (is_cycle k g) (update (is_cycle c.id c.group_id) f cs) ≡ some row)
      ⊎ ((row ≡ c) × (find (is_cycle k g) (update (is_cycle c.id c.group_id) f cs) ≡ some (f c)))
update-moves f c cs k g row keeps ec er = ground (
  arith,
  er,
  ec,
  find_sound (is_cycle k g) cs er,
  find-update (is_cycle k g) (is_cycle c.id c.group_id) f cs keeps,
)
