-- ===== src/Cycles/Engine/Phases.antt =====
-- The phase of a cycle, and the seconds that it has left.
use rewind_app.Common.{ℕ, ◌+◌, ◌<◌, ◌≤◌, ◌≡◌, ◌↔◌, some, ok, arith, DateValue}
use rewind_app.Cycles.Engine.{
  CycleStatus, CyclePhase, CycleDurationPreset, CycleWindow, cycle_phase, remaining_seconds,
  create_cycle_window, cycle_duration_ms,
}

-- The phase is `collecting` exactly while the stored status is and the clock is in the window.
pub cycle_phase-collecting_iff :
    (status : CycleStatus) (starts ends now : ℕ)
    → (cycle_phase status (record { starts_at = some starts; ends_at = some ends }) (some now)
        ≡ ok CyclePhase.collecting)
      ↔ ((status ≡ CycleStatus.collecting) × (starts ≤ now) × (now < ends))
unfolding cycle_phase
cycle_phase-collecting_iff CycleStatus.collecting starts ends now = ground arith
cycle_phase-collecting_iff CycleStatus.revealing starts ends now = ground arith
cycle_phase-collecting_iff CycleStatus.archived starts ends now = ground arith

-- A window that was made for a start lasts its preset: a stored `collecting` cycle is in the phase
-- `collecting` exactly from the start on and for the preset's duration, and the seconds left are
-- zero exactly from then on.
pub create_cycle_window-collecting :
    (preset : CycleDurationPreset) (clock : DateValue) (starts now : ℕ) (w : CycleWindow)
    → create_cycle_window preset (some (some starts)) clock ≡ ok w
    → ((cycle_phase CycleStatus.collecting w (some now) ≡ ok CyclePhase.collecting)
        ↔ ((starts ≤ now) × (now < starts + cycle_duration_ms preset)))
      × ((remaining_seconds w (some now) ≡ ok 0) ↔ (starts + cycle_duration_ms preset ≤ now))
unfolding create_cycle_window cycle_phase remaining_seconds
create_cycle_window-collecting preset clock starts now w h = ground arith
