-- ===== src/Cycles/Lifecycle/Events.antt =====
-- server/src/cycles/lifecycle.ts: the event log of an advance.
use rewind_app.Common.{
  ℕ, ◌+◌, ◌≤◌, ◌≡◌, refl, sym, ap, ◌∙◌, subst, ◌⊎◌, inl, inr, Bool, true, false, ◌&&◌, Option, some,
  List, ltb, leb, find, or_else, ok, Option-cases, Result-cases, Bool-cases, arith,
}
use rewind_app.Tables.{
  next_cycle_created, CycleRow, Transition, collecting_to_revealing, revealing_to_archived,
  EventRow, MediaJobRow, Database,
}
use rewind_app.Cycles.Lifecycle.{
  is_cycle, same_transition, is_event, read_cycle, CycleLifecycleAction, to_revealing, to_archived,
  premiere_duration_ms,
}
use rewind_app.Cycles.Lifecycle.Transactions.{
  event_of, is_collecting, Advanced, close_cycle, archive_cycle, settle, end_premiere,
  advance_past_end, advance_cycle, advance_cycle_lifecycle_verified,
}
use rewind_app.Cycles.Lifecycle.Successor.{add_event-find, add_event-find_other}
use rewind_app.Cycles.Lifecycle.Parts.{read_cycle_sound}
use rewind_app.Cycles.Lifecycle.Legal.{past_end, at_end}

abbrev pub is_transition : CycleLifecycleAction → Bool
is_transition to_revealing = true
is_transition to_archived = true
is_transition _ = false

-- The first event of the row's cycle and a transition.
abbrev pub logged : CycleRow → Transition → List EventRow → Option EventRow
logged row t events = find (is_event row.id t) events

-- What an advance of a stored row logs, by its action: the end of the cycle at the end that was set,
-- the end of the premiere 24 hours after the release, or nothing; where there is an event of the
-- transition already, that stays.
pub data Logs (row : CycleRow) (now : ℕ) (before after : List EventRow)
    : CycleLifecycleAction → Type 0 where
  closes_at :
      (e : ℕ)
      → is_collecting row.status ≡ true
      → row.ends_at ≡ some e
      → e ≤ now
      → logged row collecting_to_revealing after
        ≡ some (
            or_else
              (logged row collecting_to_revealing before)
              (event_of row collecting_to_revealing e))
      → logged row revealing_to_archived after ≡ logged row revealing_to_archived before
      → Logs row now before after to_revealing
  archives_at :
      (p : ℕ)
      → is_collecting row.status ≡ false
      → row.release_published_at ≡ some (some p)
      → p + premiere_duration_ms ≤ now
      → logged row revealing_to_archived after
        ≡ some (
            or_else
              (logged row revealing_to_archived before)
              (event_of row revealing_to_archived (p + premiere_duration_ms)))
      → logged row collecting_to_revealing after ≡ logged row collecting_to_revealing before
      → Logs row now before after to_archived
  logs_nothing :
      {a : CycleLifecycleAction}
      → is_transition a ≡ false
      → logged row collecting_to_revealing after ≡ logged row collecting_to_revealing before
      → logged row revealing_to_archived after ≡ logged row revealing_to_archived before
      → Logs row now before after a

close_cycle-logged :
    (row : CycleRow) (e : ℕ) (db : Database)
    → (logged row collecting_to_revealing (close_cycle row e db).events
        ≡ some (
            or_else
              (logged row collecting_to_revealing db.events)
              (event_of row collecting_to_revealing e)))
      × (logged row revealing_to_archived (close_cycle row e db).events
          ≡ logged row revealing_to_archived db.events)
unfolding close_cycle
close_cycle-logged row e db =
    let event = event_of row collecting_to_revealing e in
    (
      add_event-find event db.events,
      add_event-find_other event db.events row.id revealing_to_archived (ground arith),
    )

archive_cycle-logged :
    (row : CycleRow) (p : ℕ) (db : Database)
    → (logged row revealing_to_archived (archive_cycle row p db).events
        ≡ some (
            or_else
              (logged row revealing_to_archived db.events)
              (event_of row revealing_to_archived p)))
      × (logged row collecting_to_revealing (archive_cycle row p db).events
          ≡ logged row collecting_to_revealing db.events)
unfolding archive_cycle
archive_cycle-logged row p db =
    let event = event_of row revealing_to_archived p in
    (
      add_event-find event db.events,
      add_event-find_other event db.events row.id collecting_to_revealing (ground arith),
    )

module _ (hash_file : ℕ → Option (ℕ × ℕ)) (proof : Option MediaJobRow) where
  -- Past its end, a row is archived, or nothing happens.
  abbrev Settled : CycleRow → ℕ → Database → Database × CycleLifecycleAction → Type 0
  Settled row now db r =
      ((r.0 ≡ db) × (is_transition r.1 ≡ false))
      ⊎ ((p : ℕ) × (row.release_published_at ≡ some (some p))
          × (p + premiere_duration_ms ≤ now)
          × (r.0 ≡ archive_cycle row (p + premiere_duration_ms) db)
          × (r.1 ≡ to_archived))

  settle-Settled :
      (row : CycleRow) (now : ℕ) (db : Database) (r : Database × CycleLifecycleAction)
      → settle hash_file proof row now db ≡ ok r
      → Settled row now db r
  unfolding settle end_premiere
  settle-Settled row now db r h = elim (Option-cases row.release_published_at) [
    | inl n ↦ inl (ground (arith, h, n), ground (arith, h, n))
    | inr (date, d) ↦ elim (Option-cases date) [
      | inl n ↦ inl (ground (arith, h, d, n), ground (arith, h, d, n))
      | inr (p, e) ↦ elim (Bool-cases (leb (p + premiere_duration_ms) now)) [
        | inr f ↦ inl (ground (arith, h, d, e, f), ground (arith, h, d, e, f))
        | inl over ↦ elim (Bool-cases (is_transition r.1)) [
          | inr f ↦ inl (ground (arith, h, d, e, over, f), f)
          | inl t ↦ inr (
            p,
            d ∙ ap some e,
            ground (arith, over),
            ground (arith, h, d, e, over, t),
            ground (arith, h, d, e, over, t),
          )
        ]
      ]
    ]
  ]

  Settled-Logs :
      (row : CycleRow) (now : ℕ) (before : List EventRow) (db : Database)
      (r : Database × CycleLifecycleAction)
      → is_collecting row.status ≡ false
      → ((c : ℕ) (t : Transition)
          → same_transition next_cycle_created t ≡ false
          → find (is_event c t) db.events ≡ find (is_event c t) before)
      → Settled row now db r
      → Logs row now before r.0.events r.1
  Settled-Logs row now before db r f log (inl (same_db, quiet)) =
      let events = ap (λ (d : Database). d.events) same_db in
      logs_nothing quiet
        (ap (logged row collecting_to_revealing) events ∙ log row.id collecting_to_revealing refl)
        (ap (logged row revealing_to_archived) events ∙ log row.id revealing_to_archived refl)
  Settled-Logs row now before db r f log (inr (p, d, over, moved, a)) =
      let events = ap (λ (d : Database). d.events) moved in
      let end = p + premiere_duration_ms in
      let (own, apart) = archive_cycle-logged row end db in
      subst (Logs row now before r.0.events) (sym a) (
        archives_at p f d over
          (ap (logged row revealing_to_archived) events
            ∙ own
            ∙ ap
                (λ (o : Option EventRow). some (or_else o (event_of row revealing_to_archived end)))
                (log row.id revealing_to_archived refl))
          (ap (logged row collecting_to_revealing) events
            ∙ apart
            ∙ log row.id collecting_to_revealing refl))

module _ (hash_file : ℕ → Option (ℕ × ℕ)) (proof : Option MediaJobRow) (film_id : ℕ → ℕ → ℕ)
    (next_id : ℕ) where
  past_end-Logs :
      (row : CycleRow) (e now : ℕ) (db : Database) (r : Advanced)
      → row.ends_at ≡ some e
      → (is_collecting row.status && ltb now e) ≡ false
      → advance_past_end hash_file proof film_id next_id row e now db ≡ ok r
      → Logs row now db.events r.database.events r.action
  past_end-Logs row e now db r ee w h =
      let p = past_end hash_file proof film_id next_id row e now db r h in
      elim p.settled [
        | inl (t, same_db, a) ↦
            let events = ap (λ (d : Database). d.events) same_db in
            let (own, apart) = close_cycle-logged row e db in
            let start : at_end row e db ≡ close_cycle row e db = ground (arith, t) in
            let log = λ (t : Transition) (q : same_transition next_cycle_created t ≡ false).
              ap (logged row t) events
              ∙ p.log row.id t q
              ∙ ap (λ (d : Database). logged row t d.events) start in
            subst (Logs row now db.events r.database.events) (sym a) (
              closes_at e t ee (ground (arith, w, t)) (log collecting_to_revealing refl ∙ own)
                (log revealing_to_archived refl ∙ apart))
        | inr (f, es) ↦
            let start : at_end row e db ≡ db = ground (arith, f) in
            Settled-Logs hash_file proof row now db.events p.prepared (r.database, r.action) f
              (λ c t q. p.log c t q ∙ ap (λ (d : Database). find (is_event c t) d.events) start)
              (settle-Settled hash_file proof row now p.prepared (r.database, r.action) es)
      ]

  advance_cycle-Logs :
      (row : CycleRow) (now : ℕ) (db : Database) (r : Advanced)
      → advance_cycle hash_file proof film_id next_id row now db ≡ ok r
      → Logs row now db.events r.database.events r.action
  unfolding advance_cycle
  advance_cycle-Logs row now db r h = elim (Option-cases row.ends_at) [
    | inl n ↦ absurd (ground (arith, h, n))
    | inr (e, ee) ↦ elim (Bool-cases (is_collecting row.status && ltb now e)) [
      | inl w ↦
          let same_db : db ≡ r.database = ground (arith, h, ee, w) in
          let quiet : is_transition r.action ≡ false = ground (arith, h, ee, w) in
          let log =
            λ (t : Transition). ap (λ (d : Database). logged row t d.events) (sym same_db) in
          logs_nothing quiet (log collecting_to_revealing) (log revealing_to_archived)
      | inr w ↦ past_end-Logs row e now db r ee w (ground (arith, h, ee, w))
    ]
  ]

  -- An advance of a stored cycle that returns a result logs what it did and when that was due: the
  -- end of the cycle, at the end that was set for it and that is not after `now`, if the action is
  -- the change to revealing; the end of the premiere, 24 hours after its release, if the action is
  -- the change to archived; and neither for every other action. An event of the same transition that
  -- was there before stays as the first.
  pub advance-Logs :
      (group_id cycle_id : ℕ) (row : CycleRow) (db : Database) (r : Advanced) (now : ℕ)
      → find (is_cycle cycle_id group_id) db.cycles ≡ some row
      → advance_cycle_lifecycle_verified hash_file proof film_id next_id
          (some now)
          group_id
          (some cycle_id)
          db
        ≡ ok r
      → Logs row now db.events r.database.events r.action
  unfolding advance_cycle_lifecycle_verified
  advance-Logs group_id cycle_id row db r now stored h =
      elim (Result-cases (read_cycle cycle_id group_id db.cycles)) [
        | inl (f, e) ↦ absurd (ground (arith, h, e))
        | inr (read, e) ↦ elim (Option-cases read) [
          | inl n ↦ absurd (ground (arith, h, e, n))
          | inr (c, s) ↦
              let found = read_cycle_sound cycle_id group_id db.cycles c (e ∙ ap ok s) in
              let own : c ≡ row = cc (found, stored) in
              advance_cycle-Logs row now db r (
                ap (λ (x : CycleRow). advance_cycle hash_file proof film_id next_id x now db)
                  (sym own)
                ∙ ground (arith, h, e, s))
        ]
      ]
