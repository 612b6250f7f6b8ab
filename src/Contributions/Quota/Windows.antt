-- ===== src/Contributions/Quota/Windows.antt =====
-- The week that holds a clock reading.
use rewind_app.Common.{ℕ, ◌+◌, ◌-◌, ◌*◌, ◌/◌, ◌<◌, ◌≤◌, ◌≡◌, refl, ◌⊎◌, some, ok, arith, latest}
use rewind_app.Contributions.Quota.{
  WindowBoundary, contribution_quota_window_ms, contribution_quota_window,
}

-- In an active cycle each clock reading, more than a week before the latest date, has a window: a
-- whole number of weeks after the cycle's start, one week long, holding the reading.
pub contribution_quota_window_covers :
    (starts ends now : ℕ)
    → starts ≤ now
    → now < ends
    → now + contribution_quota_window_ms ≤ latest
    → (w : WindowBoundary) × (contribution_quota_window (some starts) (some ends) (some now) ≡ ok w)
      × (w.starts_at ≤ now)
      × (now < w.ends_at)
      × (w.ends_at ≡ w.starts_at + contribution_quota_window_ms)
      × (w.starts_at
          ≡ starts + ((now - starts) / contribution_quota_window_ms) * contribution_quota_window_ms)
unfolding contribution_quota_window
contribution_quota_window_covers starts ends now h1 h2 h3 = (
  record {
    starts_at =
        starts + ((now - starts) / contribution_quota_window_ms) * contribution_quota_window_ms;
    ends_at =
        starts
        + ((now - starts) / contribution_quota_window_ms) * contribution_quota_window_ms
        + contribution_quota_window_ms;
  },
  ground arith,
  omega arith,
  omega arith,
  refl,
  refl,
)

-- Two clock readings of one cycle are in one window, or in windows that do not overlap.
pub contribution_quota_window_disjoint :
    (starts ends now later : ℕ) (w v : WindowBoundary)
    → contribution_quota_window (some starts) (some ends) (some now) ≡ ok w
    → contribution_quota_window (some starts) (some ends) (some later) ≡ ok v
    → now ≤ later
    → (w ≡ v) ⊎ (w.ends_at ≤ v.starts_at)
unfolding contribution_quota_window
contribution_quota_window_disjoint starts ends now later w v h k le = ground arith
