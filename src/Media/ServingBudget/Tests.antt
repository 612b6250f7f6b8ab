-- ===== src/Media/ServingBudget/Tests.antt =====
-- Tests and instances for server/src/media/serving-budget.ts.
use rewind_app.Common.{◌≡◌, refl, List, [], ◌∷◌, arith, whole}
use rewind_app.Media.ServingBudget.{
  Process, default_budget, try_acquire, release, Call, acquire, release_at, release_nth, step, run,
}
use rewind_app.Media.ServingBudget.Leases.{Accounted, run-Accounted}

abbrev started : Process
unfolding default_budget
started = record { budget = default_budget; leases = [] }

abbrev calls : List Call
calls =
    acquire (whole 50_000_000)
    ∷ acquire (whole 60_000_000)
    ∷ acquire (whole 40_000_000)
    ∷ release_at 1
    ∷ release_at 1
    ∷ acquire (whole 60_000_000)
    ∷ []

two_held :
    ((run calls started).budget.active ≡ 2)
    × ((run calls started).budget.reserved_bytes ≡ 100_000_000)
unfolding run step try_acquire release_nth release default_budget started
two_held = (refl, refl)

run-Accounted_example : Accounted (run calls started)
unfolding started default_budget
run-Accounted_example = run-Accounted calls started (refl, refl, omega arith, omega arith)
