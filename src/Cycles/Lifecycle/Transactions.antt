-- ===== src/Cycles/Lifecycle/Transactions.antt =====
-- server/src/cycles/lifecycle.ts: the two transactions, publication and the advance of a cycle.
use rewind_app.Common.{
  ℕ, ◌+◌, Bool, true, false, not, ◌&&◌, ◌||◌, Option, none, some, ltb, leb, is_some, if◌then◌else◌,
  update, DateValue, Result, ok, err, ◌>>=◌, ◌>>◌, guard, plus,
}
use rewind_app.Tables.{
  StoredStatus, collecting, revealing, archived, locked, published, CycleRow, Transition,
  collecting_to_revealing, revealing_to_archived, EventRow, MediaJobRow, Database,
}
use rewind_app.Jobs.Compilation.{ensure_compilation_job}
use rewind_app.Cycles.Lifecycle.{
  Failure, not_found, not_ready, too_early, invalid_request, invalid_state, CycleLifecycleAction,
  waiting_for_boundary, to_revealing, waiting_for_release, premiere, to_archived, already_archived,
  premiere_duration_ms, instant, is_published, is_cycle, read_cycle, current_cycle_id, add_event,
  ensure_successor,
}
use rewind_app.Cycles.Lifecycle.Output.{has_ready_compilation_output}

abbrev pub is_revealing : StoredStatus → Bool
is_revealing revealing = true
is_revealing _ = false

abbrev pub is_collecting : StoredStatus → Bool
is_collecting collecting = true
is_collecting _ = false

abbrev pub is_archived : StoredStatus → Bool
is_archived archived = true
is_archived _ = false

abbrev pub required : Option CycleRow → Result Failure CycleRow
required none = err not_found
required (some cycle) = ok cycle

abbrev pub closed_row : CycleRow → CycleRow
closed_row c = record c { status = revealing; lock_state = locked }

abbrev pub archived_row : CycleRow → CycleRow
archived_row c = record c { status = archived; lock_state = locked }

abbrev pub published_row : ℕ → CycleRow → CycleRow
published_row published_at c = record c {
  release_status = published;
  release_published_at = some (some published_at);
}

pub record Published : Type 0 where
  pub database : Database
  pub already : Bool
  pub cycle : CycleRow

pub record Advanced : Type 0 where
  pub database : Database
  pub action : CycleLifecycleAction
  pub cycle : Option CycleRow
  pub next_cycle : Option CycleRow

abbrev pub event_of : CycleRow → Transition → ℕ → EventRow
event_of cycle transition occurred_at = record {
  cycle_id = cycle.id;
  group_id = cycle.group_id;
  transition = transition;
  occurred_at = occurred_at;
}

-- The end of the premiere: `releasePublishedAt + PREMIERE_DURATION_MS`, not yet written as text.
abbrev pub release_instant : CycleRow → Result Failure ℕ
release_instant cycle = elim cycle.release_published_at [
  | none ↦ err invalid_state
  | some date ↦ instant date invalid_state
]

unfoldable pub close_cycle : CycleRow → ℕ → Database → Database
close_cycle cycle ends_at db = record db {
  cycles = update (is_cycle cycle.id cycle.group_id) closed_row db.cycles;
  events = add_event (event_of cycle collecting_to_revealing ends_at) db.events;
}

unfoldable pub archive_cycle : CycleRow → ℕ → Database → Database
archive_cycle cycle occurred_at db = record db {
  cycles = update (is_cycle cycle.id cycle.group_id) archived_row db.cycles;
  events = add_event (event_of cycle revealing_to_archived occurred_at) db.events;
}

unfoldable pub publish_row : CycleRow → ℕ → Database → Database
publish_row cycle published_at db = record db {
  cycles =
      update
        (λ (c : CycleRow).
          is_cycle cycle.id cycle.group_id c
          && is_revealing c.status
          && not (is_published c.release_status))
        (published_row published_at) db.cycles;
}

module _ (hash_file : ℕ → Option (ℕ × ℕ)) (proof : Option MediaJobRow) where
  -- The release of a cycle that is not published yet.
  unfoldable pub publish_first : CycleRow → ℕ → Database → Result Failure Published
  publish_first cycle published_at db = do
    _ ← guard (is_revealing cycle.status) not_ready
    ends_at ← instant cycle.ends_at invalid_state
    _ ← guard (leb ends_at published_at) too_early
    _ ←
        guard (has_ready_compilation_output hash_file cycle.group_id cycle.id true proof db)
          not_ready
    let db' = publish_row cycle published_at db
    found ← read_cycle cycle.id cycle.group_id db'.cycles
    cycle' ← required found
    ok (record { database = db'; already = false; cycle = cycle' })

  unfoldable pub publish_read : CycleRow → ℕ → Database → Result Failure Published
  unfolding publish_first
  publish_read cycle published_at db =
      if is_published cycle.release_status
      then guard (has_ready_compilation_output hash_file cycle.group_id cycle.id true proof db)
          not_ready
        >> ok (record { database = db; already = true; cycle = cycle })
      else publish_first cycle published_at db

  unfoldable pub publish_cycle_release_verified :
      DateValue → ℕ → ℕ → Database → Result Failure Published
  publish_cycle_release_verified date group_id cycle_id db = do
    published_at ← instant date invalid_request
    found ← read_cycle cycle_id group_id db.cycles
    cycle ← required found
    publish_read cycle published_at db

  -- The film's bytes are only read once the premiere is over.
  unfoldable pub end_premiere :
      CycleRow → ℕ → Database → Result Failure (Database × CycleLifecycleAction)
  end_premiere cycle published_at db =
      if has_ready_compilation_output hash_file cycle.group_id cycle.id true proof db
      then (plus invalid_state published_at premiere_duration_ms >>= λ occurred_at.
          ok (archive_cycle cycle occurred_at db, to_archived))
      else ok (db, waiting_for_release)

  -- What becomes of a cycle that was not collecting: the action, and the database.
  unfoldable pub settle : CycleRow → ℕ → Database → Result Failure (Database × CycleLifecycleAction)
  unfolding end_premiere
  settle cycle now db =
      if is_archived cycle.status
      then ok (db, already_archived)
      else (if is_published cycle.release_status
            && has_ready_compilation_output hash_file cycle.group_id cycle.id false none db
          then (release_instant cycle >>= λ published_at.
              if ltb now (published_at + premiere_duration_ms)
              then ok (db, premiere)
              else end_premiere cycle published_at db)
          else ok (db, waiting_for_release))

  module _ (film_id : ℕ → ℕ → ℕ) (next_id : ℕ) where
    -- The film job that a cycle gets when it closes, or had better have.
    unfoldable pub ensure_film : CycleRow → ℕ → Database → Result Failure Database
    ensure_film cycle ends_at db =
        if is_archived cycle.status
        then ok db
        else (let made =
              ensure_compilation_job (film_id cycle.group_id cycle.id) cycle.group_id cycle.id
                ends_at db in
            if is_some made.1 then ok made.0 else err invalid_state)

    -- The rest of the transaction, past the boundary.
    unfoldable pub advance_past_end : CycleRow → ℕ → ℕ → Database → Result Failure Advanced
    advance_past_end cycle ends_at now db = do
      let closing = is_collecting cycle.status
      let db₁ = if closing then close_cycle cycle ends_at db else db
      db₂ ← ensure_film cycle ends_at db₁
      next ← ensure_successor next_id cycle db₂
      settled ← if closing then ok (next.0, to_revealing) else settle cycle now next.0
      read ← read_cycle cycle.id cycle.group_id settled.0.cycles
      ok (record {
        database = settled.0;
        action = settled.1;
        cycle = read;
        next_cycle = some next.1;
      })

    unfoldable pub advance_cycle : CycleRow → ℕ → Database → Result Failure Advanced
    unfolding advance_past_end
    advance_cycle cycle now db = instant cycle.ends_at invalid_state >>= λ ends_at.
        if is_collecting cycle.status && ltb now ends_at
        then ok (record {
          database = db;
          action = waiting_for_boundary;
          cycle = some cycle;
          next_cycle = none;
        })
        else guard
            (is_collecting cycle.status || is_revealing cycle.status || is_archived cycle.status)
            invalid_state
          >> advance_past_end cycle ends_at now db

    -- `input.cycleId ?? currentCycleId(...)`
    abbrev pub resolve : Option ℕ → ℕ → Database → Option ℕ
    resolve (some cycle_id) group_id db = some cycle_id
    resolve none group_id db = current_cycle_id group_id db.groups

    unfoldable pub advance_cycle_lifecycle_verified :
        DateValue → ℕ → Option ℕ → Database → Result Failure Advanced
    advance_cycle_lifecycle_verified date group_id requested db = do
      now ← instant date invalid_request
      found ← elim (resolve requested group_id db) [
        | none ↦ ok none
        | some cycle_id ↦ read_cycle cycle_id group_id db.cycles
      ]
      cycle ← required found
      advance_cycle cycle now db
