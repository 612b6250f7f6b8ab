-- ===== src/Cycles/Engine.antt =====
-- server/src/cycles/engine.ts: the window, the phase and the clock of a cycle.
-- The clock is an argument. A preset is one of the two that the type admits.
pub mod Phases
pub mod Advance
mod Tests
use rewind_app.Common.{
  ℕ, ◌+◌, ◌-◌, ◌*◌, ◌/◌, Option, none, some, ltb, leb, if◌then◌else◌, Result, ok, err, ◌>>=◌,
  DateValue, Number, plus, minus, max_safe_integer, safe_within,
}

pub data CycleDurationPreset : Type 0 where
  one_day four_week : CycleDurationPreset

pub data CycleStatus : Type 0 where
  collecting revealing archived : CycleStatus

pub data CyclePhase : Type 0 where
  upcoming collecting ended revealing archived : CyclePhase

-- Each is thrown as a RangeError.
pub data EngineError : Type 0 where
  invalid_instant invalid_advance out_of_range : EngineError

pub record CycleWindow : Type 0 where
  pub starts_at : DateValue
  pub ends_at : DateValue

abbrev pub parse_instant : DateValue → Result EngineError ℕ
parse_instant none = err invalid_instant
parse_instant (some t) = ok t

unfoldable pub cycle_duration_ms : CycleDurationPreset → ℕ
cycle_duration_ms one_day = 24 * 60 * 60 * 1000
cycle_duration_ms four_week = 28 * 24 * 60 * 60 * 1000

-- `input.startsAt ?? clock()`
abbrev or_clock : Option DateValue → DateValue → DateValue
or_clock none clock = clock
or_clock (some given) clock = given

unfoldable pub create_cycle_window :
    CycleDurationPreset → Option DateValue → DateValue → Result EngineError CycleWindow
create_cycle_window preset starts_at clock = do
  starts ← parse_instant (or_clock starts_at clock)
  ends ← plus out_of_range starts (cycle_duration_ms preset)
  ok (record { starts_at = some starts; ends_at = some ends })

-- The comparisons of `cyclePhase` on parsed instants.
unfoldable pub phase_between : ℕ → ℕ → ℕ → CyclePhase
phase_between starts ends now =
    if ltb now starts
    then CyclePhase.upcoming
    else (if leb ends now then CyclePhase.ended else CyclePhase.collecting)

unfoldable pub cycle_phase : CycleStatus → CycleWindow → DateValue → Result EngineError CyclePhase
unfolding phase_between
cycle_phase CycleStatus.revealing window now = ok CyclePhase.revealing
cycle_phase CycleStatus.archived window now = ok CyclePhase.archived
cycle_phase CycleStatus.collecting window now = do
  now_ms ← parse_instant now
  starts ← parse_instant window.starts_at
  ends ← parse_instant window.ends_at
  ok (phase_between starts ends now_ms)

-- `Math.max(0, Math.ceil(ms / 1000))`; the subtraction of ℕ is the `Math.max`.
unfoldable pub remaining_seconds : CycleWindow → DateValue → Result EngineError ℕ
remaining_seconds window now = do
  ends ← parse_instant window.ends_at
  now_ms ← parse_instant now
  ok ((ends - now_ms + 999) / 1000)

positive_advance : Number → Result EngineError ℕ
positive_advance seconds = elim (safe_within 1 max_safe_integer seconds) [
  | none ↦ err invalid_advance
  | some n ↦ ok n
]

unfoldable pub advance_cycle_window : CycleWindow → Number → Result EngineError CycleWindow
unfolding positive_advance
advance_cycle_window window advance_seconds = do
  seconds ← positive_advance advance_seconds
  starts ← parse_instant window.starts_at
  ends ← parse_instant window.ends_at
  starts' ← minus out_of_range starts (seconds * 1000)
  ends' ← minus out_of_range ends (seconds * 1000)
  ok (record { starts_at = some starts'; ends_at = some ends' })
