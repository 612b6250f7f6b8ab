-- ===== src/Contributions/Quota/Tests.antt =====
-- Tests and instances for the allowance windows.
use rewind_app.Common.{ℕ, ◌+◌, ◌-◌, ◌*◌, ◌≡◌, refl, some, List, [], ◌∷◌, ok, err, arith}
use rewind_app.Contributions.Quota.{
  QuotaWindow, QuotaCycle, WindowBoundary, Doubles, contribution_quota_window_ms,
  contribution_quota_window, quota_exceeded, reserve_contribution_allowance, charge, policy_limit,
  inactive, new_window,
}
use rewind_app.Contributions.Quota.Reserve.{Reserves, reserve-Reserves}

abbrev week : ℕ
week = contribution_quota_window_ms

abbrev cycle : QuotaCycle
cycle = record {
  id = 1;
  starts_at = some 1000;
  ends_at = some 2_419_201_000;
  max_count = 5;
  max_seconds = 30;
}

-- A digest that sets the keys of the tests apart.
abbrev number_id : ℕ → ℕ → ℕ → ℕ
number_id c m s = (c * 1000 + m) * 10_000_000_000 + s

-- Doubles that are whole microseconds, and their exact sums.
abbrev second : ℕ
second = 1_000_000

abbrev micros : Doubles
micros = record { of_whole = λ n. n * second; add = λ a b. a + b; take_off = λ a b. a - b }

abbrev used : QuotaWindow
used = record {
  id = number_id 1 7 1000;
  cycle_id = 1;
  member_id = 7;
  starts_at = 1000;
  ends_at = 604_801_000;
  max_count = 5;
  max_seconds = 30;
  count_used = 2;
  seconds_used = 20 * second;
  deletions_used = 0;
}

abbrev other_member : QuotaWindow
other_member = record used { id = number_id 1 8 1000; member_id = 8; count_used = 5 }

abbrev table : List QuotaWindow
table = other_member ∷ used ∷ []

abbrev first_week : WindowBoundary
first_week = record { starts_at = 1000; ends_at = 604_801_000 }

in_first_week :
    contribution_quota_window (some 1000) (some 2_419_201_000) (some 5000) ≡ ok first_week
unfolding contribution_quota_window
in_first_week = refl

too_long :
    (reserve_contribution_allowance number_id micros cycle 7
      (some (10 * second + 1))
      (some 5000)
      table).1
    ≡ err quota_exceeded
unfolding reserve_contribution_allowance
too_long = refl

fits_exactly :
    (reserve_contribution_allowance number_id micros cycle 7
      (some (10 * second))
      (some 5000)
      table).1
    ≡ ok (charge micros (10 * second) used)
unfolding reserve_contribution_allowance
fits_exactly = refl

after_the_cycle :
    (reserve_contribution_allowance number_id micros cycle 7
      (some second)
      (some 2_419_201_000)
      table).1
    ≡ err inactive
unfolding reserve_contribution_allowance
after_the_cycle = refl

reserve-Reserves_example :
    Reserves micros 1 7 1000 second used
      (reserve_contribution_allowance number_id micros cycle 7 (some second) (some 5000) table)
unfolding policy_limit new_window
reserve-Reserves_example =
    reserve-Reserves micros number_id cycle 7 (some 5000) first_week table in_first_week
      (refl, (refl, tt)) (omega arith) second (omega arith) (omega arith)
