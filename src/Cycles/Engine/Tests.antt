-- ===== src/Cycles/Engine/Tests.antt =====
-- Tests and instances for server/src/cycles/engine.ts.
use rewind_app.Common.{◌+◌, ◌*◌, ◌≡◌, refl, some, none, ok, err, whole, arith}
use rewind_app.Cycles.Engine.{
  CycleStatus, CycleWindow, one_day, invalid_advance, out_of_range, cycle_duration_ms,
  create_cycle_window, cycle_phase, remaining_seconds, advance_cycle_window,
}
use rewind_app.Cycles.Engine.Advance.{advance_as_clock}

abbrev day : CycleWindow
day = record { starts_at = some 1_000_000; ends_at = some 87_400_000 }

created : create_cycle_window one_day (some (some 1_000_000)) none ≡ ok day
unfolding create_cycle_window cycle_duration_ms
created = refl

half_second_left : remaining_seconds day (some 87_399_500) ≡ ok 1
unfolding remaining_seconds
half_second_left = refl

advance_zero : advance_cycle_window day (whole 0) ≡ err invalid_advance
unfolding advance_cycle_window
advance_zero = refl

advance_too_far : advance_cycle_window day (whole 1001) ≡ err out_of_range
unfolding advance_cycle_window
advance_too_far = refl

advance_as_clock_example :
    (w : CycleWindow) × (advance_cycle_window day (whole 900) ≡ ok w)
    × (cycle_phase CycleStatus.collecting w (some 86_600_000)
        ≡ cycle_phase CycleStatus.collecting day (some (86_600_000 + 900 * 1000)))
    × (remaining_seconds w (some 86_600_000)
        ≡ remaining_seconds day (some (86_600_000 + 900 * 1000)))
advance_as_clock_example =
    advance_as_clock CycleStatus.collecting 1_000_000 87_400_000 900 86_600_000 (omega arith)
      (omega arith) (omega arith) (omega arith)
