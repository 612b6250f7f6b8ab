-- ===== src/Contributions/Quota/Rows.antt =====
-- The invariant of the allowance table: every row stays inside its limits.
use rewind_app.Common.{
  ℕ, ◌≤◌, ◌<◌, inl, inr, ◌&&◌, ◌||◌, Option, none, some, List, [], ◌∷◌, ◌==◌, if_intro, any, All,
  All-append, All-update, DateValue, ok, err, Result-cases, arith,
}
use rewind_app.Contributions.Quota.{
  QuotaWindow, QuotaCycle, WindowBoundary, max_contribution_count, max_contribution_seconds,
  Doubles, policy_limit, has_key, has_room, charge, insert_or_ignore, new_window,
  ensure_contribution_quota_window, reserve_in, reserve_ensured, Tabled, valid_duration,
  reserve_contribution_allowance, release_contribution_allowance, contribution_quota_window,
}

module _ (f64 : Doubles) where
  pub record Fits (r : QuotaWindow) : Type 0 where
    pub count_fits : r.count_used ≤ r.max_count
    pub seconds_fit : r.seconds_used ≤ f64.of_whole r.max_seconds
    pub count_limit : r.max_count ≤ max_contribution_count
    pub seconds_limit : r.max_seconds ≤ max_contribution_seconds
    pub some_count : 0 < r.max_count
    pub some_seconds : 0 < r.max_seconds
    pub one_deletion : r.deletions_used ≤ 1

  insert_or_ignore-Fits :
      (row : QuotaWindow) (t : List QuotaWindow)
      → All Fits t
      → Fits row
      → All Fits (insert_or_ignore row t)
  unfolding insert_or_ignore
  insert_or_ignore-Fits row t h f =
      if_intro (All Fits)
        (any (λ r. (r.id == row.id) || has_key row.cycle_id row.member_id row.starts_at r) t)
        (λ _. h) (λ _. All-append Fits t (row ∷ []) h (f, tt))

  reserve_in-Fits :
      (duration : ℕ) (window : QuotaWindow) (t : List QuotaWindow)
      → All Fits t
      → All Fits (reserve_in f64 duration window t).0
  unfolding reserve_in
  reserve_in-Fits duration window t h =
      All-update Fits (λ r. (r.id == window.id) && has_room f64 duration r) (charge f64 duration) t
        (λ r f e. ground arith) h

  reserve_ensured-Fits :
      (duration : ℕ) (r : Tabled QuotaWindow)
      → All Fits r.0
      → All Fits (reserve_ensured f64 duration r).0
  unfolding reserve_ensured
  reserve_ensured-Fits duration (t, err e) h = h
  reserve_ensured-Fits duration (t, ok window) h = reserve_in-Fits duration window t h

  module _ (window_id : ℕ → ℕ → ℕ → ℕ) where
    new_window-Fits :
        (cycle : QuotaCycle) (member_id : ℕ) (b : WindowBoundary)
        → Fits (new_window window_id cycle member_id b)
    unfolding new_window policy_limit
    new_window-Fits cycle member_id b = omega arith

    ensure-Fits :
        (cycle : QuotaCycle) (member_id : ℕ) (now : DateValue) (t : List QuotaWindow)
        → All Fits t
        → All Fits (ensure_contribution_quota_window window_id cycle member_id now t).0
    unfolding ensure_contribution_quota_window
    ensure-Fits cycle member_id now t h =
        elim (Result-cases (contribution_quota_window cycle.starts_at cycle.ends_at now)) [
          | inl (e, k) ↦ rw (k, ensure_contribution_quota_window) h
          | inr (b, k) ↦
              rw (k, ensure_contribution_quota_window)
                (insert_or_ignore-Fits _ t h (new_window-Fits cycle member_id b))
        ]

    -- Where every row of the table is inside its limits, at most five contributions and thirty
    -- seconds and no more than the row's own maxima, a reservation, granted or refused, keeps them
    -- there.
    pub reserve-Fits :
        (cycle : QuotaCycle) (member_id : ℕ) (duration : Option ℕ) (now : DateValue)
        (t : List QuotaWindow)
        → All Fits t
        → All Fits (reserve_contribution_allowance window_id f64 cycle member_id duration now t).0
    unfolding reserve_contribution_allowance
    reserve-Fits cycle member_id none now t h = h
    reserve-Fits cycle member_id (some d) now t h =
        if_intro (λ (r : Tabled QuotaWindow). All Fits r.0) (valid_duration f64 d)
          (λ _. reserve_ensured-Fits d _ (ensure-Fits cycle member_id now t h)) (λ _. h)

  -- Where a difference is at most what it is taken from, a release keeps every row of the table inside its limits.
  release-Fits :
      ((a b : ℕ) → f64.take_off a b ≤ a)
      → (cycle_id member_id starts_at duration : ℕ) (t : List QuotaWindow) → All Fits t
      → All Fits (release_contribution_allowance f64 cycle_id member_id starts_at duration t)
  unfolding release_contribution_allowance
  release-Fits less cycle_id member_id starts_at duration t h =
      All-update Fits (has_key cycle_id member_id starts_at) _ t
        (λ r f e. ground (arith, less r.seconds_used duration, f.seconds_fit)) h
