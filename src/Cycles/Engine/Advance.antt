-- ===== src/Cycles/Engine/Advance.antt =====
-- Advancing a window against moving the clock.
use rewind_app.Common.{ℕ, ◌+◌, ◌-◌, ◌*◌, ◌<◌, ◌≤◌, ◌≡◌, some, ok, whole, max_safe_integer, arith}
use rewind_app.Cycles.Engine.{
  CycleStatus, CycleWindow, cycle_phase, remaining_seconds, advance_cycle_window,
}

-- Advancing a window by some seconds has, at every clock reading, the phase and the seconds left
-- that the old window has that many seconds later. It goes through for every positive number of
-- seconds that does not take a boundary before the earliest date.
pub advance_as_clock :
    (status : CycleStatus) (starts ends seconds now : ℕ)
    → 0 < seconds
    → seconds ≤ max_safe_integer
    → seconds * 1000 ≤ starts
    → starts ≤ ends
    → (w : CycleWindow) × (advance_cycle_window
          (record { starts_at = some starts; ends_at = some ends })
          (whole seconds)
        ≡ ok w)
      × (cycle_phase status w (some now)
          ≡ cycle_phase status
              (record { starts_at = some starts; ends_at = some ends })
              (some (now + seconds * 1000)))
      × (remaining_seconds w (some now)
          ≡ remaining_seconds
              (record { starts_at = some starts; ends_at = some ends })
              (some (now + seconds * 1000)))
unfolding advance_cycle_window cycle_phase remaining_seconds
advance_as_clock status starts ends seconds now h1 h2 h3 h4 = (
  record { starts_at = some (starts - seconds * 1000); ends_at = some (ends - seconds * 1000) },
  ground arith,
  ground arith,
  ground arith,
)
