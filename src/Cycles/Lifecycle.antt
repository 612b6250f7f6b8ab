-- ===== src/Cycles/Lifecycle.antt =====
-- server/src/cycles/lifecycle.ts: closing a cycle, publishing its film and archiving it.
-- A transaction is a function from the database to a result: `err` stands for ROLLBACK and for
-- what the code then returns or throws (`constraint_failed` is an INSERT that a unique index
-- refuses). The random identifier of a new cycle and the identifier of the film job are arguments,
-- and so are what `hashFileSync` and `verifyReadyJobOutput` observe of the stored bytes.
pub mod Output
pub mod Transactions
pub mod Parts
pub mod Legal
pub mod Successor
pub mod Events
pub mod Release
mod Tests
use rewind_app.Common.{
  ℕ, ◌-◌, ◌*◌, Bool, true, false, not, ◌&&◌, ◌||◌, Option, none, some, List, [], ◌∷◌, ◌++◌, ltb,
  ◌==◌, same, if◌then◌else◌, find, any, update, DateValue, Result, ok, err, ◌>>=◌, ◌>>◌, guard,
  plus,
}
use rewind_app.Tables.{
  collecting, locked, ReleaseStatus, unpublished, published, CycleRow, GroupRow, Transition,
  collecting_to_revealing, revealing_to_archived, next_cycle_created, EventRow, Database,
}

pub data Failure : Type 0 where
  not_found not_ready too_early invalid_request invalid_state constraint_failed : Failure

pub data CycleLifecycleAction : Type 0 where
  waiting_for_boundary to_revealing waiting_for_release premiere : CycleLifecycleAction
  to_archived already_archived : CycleLifecycleAction

abbrev pub premiere_duration_ms : ℕ
premiere_duration_ms = 24 * 60 * 60 * 1000

abbrev pub instant : DateValue → Failure → Result Failure ℕ
instant none reason = err reason
instant (some t) reason = ok t

abbrev pub is_published : ReleaseStatus → Bool
is_published published = true
is_published unpublished = false

abbrev pub is_cycle : ℕ → ℕ → CycleRow → Bool
is_cycle cycle_id group_id c = (c.id == cycle_id) && (c.group_id == group_id)

-- The checks of a row that was read: its dates parse, and a published cycle has a release date.
unfoldable pub checked_cycle : CycleRow → Result Failure CycleRow
checked_cycle c = do
  _ ← instant c.starts_at invalid_state
  _ ← instant c.ends_at invalid_state
  elim c.release_published_at [
    | none ↦ if is_published c.release_status then err invalid_state else ok c
    | some date ↦ instant date invalid_state >>= λ _. ok c
  ]

unfoldable pub read_cycle : ℕ → ℕ → List CycleRow → Result Failure (Option CycleRow)
read_cycle cycle_id group_id cycles = elim (find (is_cycle cycle_id group_id) cycles) [
  | none ↦ ok none
  | some c ↦ checked_cycle c >>= λ read. ok (some read)
]

abbrev pub follows : ℕ → ℕ → CycleRow → Bool
follows cycle_id group_id c = same c.previous_cycle_id (some cycle_id) && (c.group_id == group_id)

unfoldable pub read_successor : ℕ → ℕ → List CycleRow → Result Failure (Option CycleRow)
read_successor cycle_id group_id cycles = elim (find (follows cycle_id group_id) cycles) [
  | none ↦ ok none
  | some c ↦ read_cycle c.id group_id cycles
]

unfoldable pub current_cycle_id : ℕ → List GroupRow → Option ℕ
current_cycle_id group_id groups = elim (find (λ (g : GroupRow). g.id == group_id) groups) [
  | none ↦ none
  | some g ↦ g.current_cycle_id
]

abbrev pub same_transition : Transition → Transition → Bool
same_transition collecting_to_revealing collecting_to_revealing = true
same_transition revealing_to_archived revealing_to_archived = true
same_transition next_cycle_created next_cycle_created = true
same_transition _ _ = false

abbrev pub is_event : ℕ → Transition → EventRow → Bool
is_event cycle_id transition e = (e.cycle_id == cycle_id) && same_transition e.transition transition

-- `INSERT ... ON CONFLICT(cycle_id, transition) DO NOTHING`
unfoldable pub add_event : EventRow → List EventRow → List EventRow
add_event event events =
    if any (is_event event.cycle_id event.transition) events then events else events ++ event ∷ []

abbrev pub successor_row : ℕ → CycleRow → ℕ → ℕ → CycleRow
successor_row next_id cycle starts_at ends_at = record {
  id = next_id;
  group_id = cycle.group_id;
  prompt = cycle.prompt;
  starts_at = some starts_at;
  ends_at = some ends_at;
  status = collecting;
  lock_state = locked;
  max_count = cycle.max_count;
  max_seconds = cycle.max_seconds;
  count_used = 0;
  seconds_used = 0;
  release_status = unpublished;
  release_published_at = none;
  previous_cycle_id = some cycle.id;
}

-- `durationMs <= 0` throws; the difference of two dates is a safe integer.
positive_duration : ℕ → ℕ → Result Failure ℕ
positive_duration starts ends = if ltb starts ends then ok (ends - starts) else err invalid_state

-- What the primary key and `cycles_previous_cycle_idx` refuse.
abbrev pub collides : ℕ → CycleRow → CycleRow → Bool
collides next_id cycle c = (c.id == next_id) || same c.previous_cycle_id (some cycle.id)

-- The new cycle, in a database that has none behind this one.
unfoldable pub create_successor : ℕ → CycleRow → Database → Result Failure (Database × CycleRow)
unfolding positive_duration
create_successor next_id cycle db = do
  start_at ← instant cycle.ends_at invalid_state
  first ← instant cycle.starts_at invalid_state
  duration ← positive_duration first start_at
  ends_at ← plus invalid_state start_at duration
  guard (not (any (collides next_id cycle) db.cycles)) constraint_failed
  let row = successor_row next_id cycle start_at ends_at
  let event : EventRow = record {
    cycle_id = cycle.id;
    group_id = cycle.group_id;
    transition = next_cycle_created;
    occurred_at = start_at;
  }
  ok (record db { cycles = db.cycles ++ row ∷ []; events = add_event event db.events }, row)

-- `UPDATE groups SET current_cycle_id = ? WHERE id = ? AND current_cycle_id = ?`
unfoldable pub move_pointer : ℕ → CycleRow → List GroupRow → List GroupRow
move_pointer successor_id cycle groups =
    update (λ (g : GroupRow). (g.id == cycle.group_id) && same g.current_cycle_id (some cycle.id))
      (λ g. record g { current_cycle_id = some successor_id }) groups

unfoldable pub ensure_successor : ℕ → CycleRow → Database → Result Failure (Database × CycleRow)
unfolding move_pointer
ensure_successor next_id cycle db = do
  found ← read_successor cycle.id cycle.group_id db.cycles
  made ← elim found [ some next ↦ ok (db, next) | none ↦ create_successor next_id cycle db ]
  ok (record made.0 { groups = move_pointer made.1.id cycle made.0.groups }, made.1)
