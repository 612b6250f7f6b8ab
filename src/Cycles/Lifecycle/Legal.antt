-- ===== src/Cycles/Lifecycle/Legal.antt =====
-- server/src/cycles/lifecycle.ts: what an advance may do to the stored cycles.
use rewind_app.Common.{
  ℕ, ◌≡◌, refl, sym, ap, ◌∙◌, subst, ◌⊎◌, inl, inr, true, false, ◌&&◌, ◌||◌, Option, none, some,
  ltb, same, if◌then◌else◌, find, find_sound, ok, ◌>>=◌, Option-cases, Result-cases, Bool-cases,
  arith,
}
use rewind_app.Tables.{Transition, next_cycle_created, CycleRow, MediaJobRow, Database}
use rewind_app.Cycles.Lifecycle.{
  is_event, same_transition, to_revealing, CycleLifecycleAction, is_cycle, read_cycle,
  ensure_successor,
}
use rewind_app.Cycles.Lifecycle.Successor.{ensure_successor-find}
use rewind_app.Cycles.Lifecycle.Transactions.{
  is_collecting, is_revealing, is_archived, closed_row, archived_row, Advanced, close_cycle, settle,
  required, resolve, ensure_film, advance_past_end, advance_cycle, advance_cycle_lifecycle_verified,
}
use rewind_app.Cycles.Lifecycle.Parts.{
  LegalStep, archives, closes, ensure_film-cycles, ensure_film-events, ensure_successor-keeps,
  read_cycle_sound, settle_cases, stays, update-moves,
}

abbrev pub at_end : CycleRow → ℕ → Database → Database
at_end cycle e db = if is_collecting cycle.status then close_cycle cycle e db else db

module _ (hash_file : ℕ → Option (ℕ × ℕ)) (proof : Option MediaJobRow) (film_id : ℕ → ℕ → ℕ)
    (next_id : ℕ) where
  abbrev pub Keeps : Database → Database → Type 0
  Keeps db db' =
      (k g : ℕ) (row : CycleRow)
      → find (is_cycle k g) db.cycles ≡ some row
      → find (is_cycle k g) db'.cycles ≡ some row

  -- The database before the end of the premiere is looked at: with the film and the successor.
  pub record PastEnd (cycle : CycleRow) (now : ℕ) (before : Database) (r : Advanced) : Type 0 where
    pub prepared : Database
    pub keeps : Keeps before prepared
    pub log :
        (c : ℕ) (t : Transition)
        → same_transition next_cycle_created t ≡ false
        → find (is_event c t) prepared.events ≡ find (is_event c t) before.events
    pub settled :
        ((is_collecting cycle.status ≡ true) × (r.database ≡ prepared) × (r.action ≡ to_revealing))
        ⊎ ((is_collecting cycle.status ≡ false)
            × (settle hash_file proof cycle now prepared ≡ ok (r.database, r.action)))

  pub past_end :
      (cycle : CycleRow) (e now : ℕ) (db : Database) (r : Advanced)
      → advance_past_end hash_file proof film_id next_id cycle e now db ≡ ok r
      → PastEnd cycle now (at_end cycle e db) r
  unfolding advance_past_end
  past_end cycle e now db r h =
      elim (Result-cases
        (ensure_film hash_file proof film_id next_id cycle e (at_end cycle e db))) [
          | inl (f, e₁) ↦ absurd (ground (arith, h, e₁))
          | inr (db₂, e₁) ↦ elim (Result-cases (ensure_successor next_id cycle db₂)) [
            | inl (f, e₂) ↦ absurd (ground (arith, h, e₁, e₂))
            | inr (next, e₂) ↦ record {
              prepared = next.0;
              keeps = λ k g row er. ensure_successor-keeps next_id cycle db₂ next k g row e₂ (
                  ap (find (is_cycle k g))
                    (ensure_film-cycles hash_file proof film_id next_id cycle e _ db₂ e₁)
                  ∙ er);
              log = λ c t apart.
                  ensure_successor-find next_id cycle db₂ next c t e₂ apart
                  ∙ ap (find (is_event c t)) (
                      ensure_film-events hash_file proof film_id next_id cycle e (at_end cycle e db)
                        db₂ e₁);
              settled = elim (Bool-cases (is_collecting cycle.status)) [
                | inl t ↦ inl (t, ground (arith, h, e₁, e₂, t), ground (arith, h, e₁, e₂, t))
                | inr n ↦ elim (Result-cases (settle hash_file proof cycle now next.0)) [
                  | inl (f, e₃) ↦ absurd (ground (arith, h, e₁, e₂, n, e₃))
                  | inr (s, e₃) ↦ inr (n, ground (arith, h, e₁, e₂, n, e₃))
                ]
              ];
            }
          ]
        ]

  abbrev pub Moved : ℕ → ℕ → ℕ → CycleRow → Database → Type 0
  Moved now k g row db =
      (row' : CycleRow) × (find (is_cycle k g) db.cycles ≡ some row') × LegalStep now row row'

  module _ (cycle : CycleRow) (now : ℕ) (k g : ℕ) (row : CycleRow) where
    closed-Moved :
        (e : ℕ) (db : Database)
        → find (is_cycle cycle.id cycle.group_id) db.cycles ≡ some cycle
        → find (is_cycle k g) db.cycles ≡ some row
        → is_collecting cycle.status ≡ true
        → cycle.ends_at ≡ some e
        → ltb now e ≡ false
        → Moved now k g row (close_cycle cycle e db)
    unfolding close_cycle
    closed-Moved e db ec er t ee late =
        elim (update-moves closed_row cycle db.cycles k g row (λ x. refl) ec er) [
          | inl u ↦ (row, u, stays)
          | inr (s, u) ↦ (
            closed_row cycle,
            u,
            subst (λ x. LegalStep now x (closed_row cycle)) (sym s)
                (closes (ground (arith, t)) (ground (arith, ee, late))),
          )
        ]

    settled-Moved :
        (db : Database) (s : Database × CycleLifecycleAction)
        → find (is_cycle cycle.id cycle.group_id) db.cycles ≡ some cycle
        → find (is_cycle k g) db.cycles ≡ some row
        → is_revealing cycle.status ≡ true ⊎ is_archived cycle.status ≡ true
        → settle hash_file proof cycle now db ≡ ok s
        → Moved now k g row s.0
    settled-Moved db s ec er known h = elim (settle_cases hash_file proof cycle now db s h) [
      | inl same ↦ (row, rw (same) er, stays)
      | inr (n, p, over, fit, moved) ↦
          elim (update-moves archived_row cycle db.cycles k g row (λ x. refl) ec er) [
            | inl u ↦ (row, rw (moved) u, stays)
            | inr (s, u) ↦ (
              archived_row cycle,
              rw (moved) u,
              subst (λ x. LegalStep now x (archived_row cycle)) (sym s)
                  (archives (ground (arith, n, known)) p over),
            )
          ]
    ]

  past_end-Moved :
      (cycle : CycleRow) (e now : ℕ) (db : Database) (r : Advanced) (k g : ℕ) (row : CycleRow)
      → find (is_cycle cycle.id cycle.group_id) db.cycles ≡ some cycle
      → find (is_cycle k g) db.cycles ≡ some row
      → (is_collecting cycle.status || is_revealing cycle.status || is_archived cycle.status) ≡ true
      → cycle.ends_at ≡ some e
      → (is_collecting cycle.status && ltb now e) ≡ false
      → advance_past_end hash_file proof film_id next_id cycle e now db ≡ ok r
      → Moved now k g row r.database
  past_end-Moved cycle e now db r k g row ec er known ee w h =
      let p = past_end cycle e now db r h in
      elim (Bool-cases (is_collecting cycle.status)) [
        | inl t ↦
            (let (row', f, step) =
                closed-Moved cycle now k g row e db ec er t ee (ground (arith, w, t)) in
              let q : r.database ≡ p.prepared = ground (arith, p.settled, t) in
              let f' : find (is_cycle k g) (at_end cycle e db).cycles ≡ some row' = rw (t) f in
              (row', rw (q) (p.keeps k g row' f'), step))
        | inr n ↦
            (let keeps : Keeps db p.prepared = λ k' g' x q. p.keeps k' g' x (rw (n) q) in
              elim p.settled [
                | inl both ↦ absurd (ground (arith, both, n))
                | inr (_, es) ↦
                    settled-Moved cycle now k g row p.prepared (r.database, r.action)
                      (keeps cycle.id cycle.group_id cycle ec) (keeps k g row er)
                      (ground (arith, known, n)) es
              ])
      ]

  -- The cycle that an advance is about, and that it was found in the database.
  pub record Found (now : ℕ) (db : Database) (r : Advanced) : Type 0 where
    pub cycle : CycleRow
    pub stored : find (is_cycle cycle.id cycle.group_id) db.cycles ≡ some cycle
    pub run : advance_cycle hash_file proof film_id next_id cycle now db ≡ ok r

  Found-by :
      (cycle_id group_id now : ℕ) (db : Database) (r : Advanced) (read : Option CycleRow)
      → read_cycle cycle_id group_id db.cycles ≡ ok read
      → (required read >>= λ c. advance_cycle hash_file proof film_id next_id c now db) ≡ ok r
      → Found now db r
  Found-by cycle_id group_id now db r none e h = absurd (cc h)
  Found-by cycle_id group_id now db r (some c) e h =
      let f = read_cycle_sound cycle_id group_id db.cycles c e in
      let i : c.id ≡ cycle_id =
        ground (arith, find_sound (is_cycle cycle_id group_id) db.cycles f) in
      let j : c.group_id ≡ group_id =
        ground (arith, find_sound (is_cycle cycle_id group_id) db.cycles f) in
      record { cycle = c; stored = cc (f, i, j); run = h }

  pub advance-Found :
      (group_id : ℕ) (requested : Option ℕ) (db : Database) (r : Advanced) (now : ℕ)
      → advance_cycle_lifecycle_verified hash_file proof film_id next_id
          (some now)
          group_id
          requested
          db
        ≡ ok r
      → Found now db r
  unfolding advance_cycle_lifecycle_verified
  advance-Found group_id requested db r now h =
      elim (Option-cases (resolve hash_file proof film_id next_id requested group_id db)) [
        | inl e ↦ absurd (ground (arith, h, e))
        | inr (cycle_id, e) ↦ elim (Result-cases (read_cycle cycle_id group_id db.cycles)) [
          | inl (f, e') ↦ absurd (ground (arith, h, e, e'))
          | inr (read, e') ↦ Found-by cycle_id group_id now db r read e' (ground (arith, h, e, e'))
        ]
      ]

  advance-Moved :
      (cycle : CycleRow) (now : ℕ) (db : Database) (r : Advanced) (k g : ℕ) (row : CycleRow)
      → find (is_cycle cycle.id cycle.group_id) db.cycles ≡ some cycle
      → find (is_cycle k g) db.cycles ≡ some row
      → advance_cycle hash_file proof film_id next_id cycle now db ≡ ok r
      → Moved now k g row r.database
  unfolding advance_cycle
  advance-Moved cycle now db r k g row ec er h = elim (Option-cases cycle.ends_at) [
    | inl n ↦ absurd (ground (arith, h, n))
    | inr (e, ee) ↦ elim (Bool-cases (is_collecting cycle.status && ltb now e)) [
      | inl w ↦
          (let same : r.database ≡ db = ground (arith, h, ee, w) in (row, rw (same) er, stays))
      | inr w ↦
          past_end-Moved cycle e now db r k g row ec er (ground (arith, h, ee, w)) ee w
            (ground (arith, h, ee, w))
    ]
  ]

  -- An advance at the instant `now` that returns a result takes every stored cycle by a legal step:
  -- the cycle is still stored under its identifier and group, and its row is as it was, or it was
  -- collecting, its end is not after `now`, and it is now revealing and locked, or it was revealing
  -- and published, 24 hours have passed since its release, and it is now archived and locked.
  pub advance-LegalStep :
      (group_id : ℕ) (requested : Option ℕ) (db : Database) (r : Advanced) (now k g : ℕ)
      (row : CycleRow)
      → advance_cycle_lifecycle_verified hash_file proof film_id next_id
          (some now)
          group_id
          requested
          db
        ≡ ok r
      → find (is_cycle k g) db.cycles ≡ some row
      → Moved now k g row r.database
  advance-LegalStep group_id requested db r now k g row h er =
      let f = advance-Found group_id requested db r now h in
      advance-Moved f.cycle now db r k g row f.stored er f.run
