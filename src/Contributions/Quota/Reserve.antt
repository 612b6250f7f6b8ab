-- ===== src/Contributions/Quota/Reserve.antt =====
-- What a reservation and a release do to the window of their key, and to the other windows.
use rewind_app.Common.{
  ℕ, ◌≤◌, ◌<◌, ◌≡◌, ◌≢◌, refl, sym, ◌∙◌, ◌⊎◌, true, ◌&&◌, ◌||◌, Option, some, List, [], ◌∷◌, ◌==◌,
  ==_refl, ==_iff, is_some, if_intro, find, find_sound, find-update, find-append, find-congr,
  find-update_other, any, any-find, any-congr, All-append, All-imp, count, count-append, count-and,
  count-congr, count-eq-zero_of_find, or_else, DateValue, ok, err, arith, Agree,
}
use rewind_app.Contributions.Quota.{
  max_contribution_duration_seconds, QuotaWindow, QuotaCycle, WindowBoundary, Tabled,
  quota_exceeded, Doubles, has_key, has_room, charge, insert_or_ignore, new_window,
  ensure_contribution_quota_window, reserve_in, valid_duration, reserve_contribution_allowance,
  contribution_quota_window,
}

-- The window of a key.
abbrev pub window_of : ℕ → ℕ → ℕ → List QuotaWindow → Option QuotaWindow
window_of cycle_id member_id starts_at = find (has_key cycle_id member_id starts_at)

-- The digest of this key stands in the table on the rows of this key and on no other row.
abbrev pub Apart : ℕ → ℕ → ℕ → ℕ → List QuotaWindow → Type 0
Apart id cycle_id member_id starts_at =
    Agree (λ r. r.id == id) (has_key cycle_id member_id starts_at)

-- The primary key: at most one row of an id.
abbrev pub IsPrimary : ℕ → List QuotaWindow → Type 0
IsPrimary id t = count (λ r. r.id == id) t ≤ 1

module _ (row : QuotaWindow) (t : List QuotaWindow) where
  abbrev ApartRow : List QuotaWindow → Type 0
  ApartRow = Apart row.id row.cycle_id row.member_id row.starts_at

  abbrev window_of_row : List QuotaWindow → Option QuotaWindow
  window_of_row = window_of row.cycle_id row.member_id row.starts_at

  has_key_self : has_key row.cycle_id row.member_id row.starts_at row ≡ true
  has_key_self = ground (arith, ==_refl row.cycle_id, ==_refl row.member_id, ==_refl row.starts_at)

  -- The insert is ignored exactly if the key has its window.
  any-taken :
      ApartRow t
      → any (λ r. (r.id == row.id) || has_key row.cycle_id row.member_id row.starts_at r) t
        ≡ is_some (window_of_row t)
  any-taken a =
      any-congr _ (has_key row.cycle_id row.member_id row.starts_at) t
        (All-imp _ _ t (λ r e. ground (arith, e)) a)
      ∙ any-find (has_key row.cycle_id row.member_id row.starts_at) t

  insert-window_of :
      ApartRow t → window_of_row (insert_or_ignore row t) ≡ some (or_else (window_of_row t) row)
  unfolding insert_or_ignore
  insert-window_of a = ground (
    arith,
    any-taken a,
    has_key_self,
    find-append (has_key row.cycle_id row.member_id row.starts_at) t (row ∷ []),
  )

  insert-Apart : ApartRow t → ApartRow (insert_or_ignore row t)
  unfolding insert_or_ignore
  insert-Apart a =
      if_intro ApartRow
        (any (λ r. (r.id == row.id) || has_key row.cycle_id row.member_id row.starts_at r) t)
        (λ _. a) (λ _. All-append _ t (row ∷ []) a (==_refl row.id ∙ sym has_key_self, tt))

  insert-IsPrimary : ApartRow t → IsPrimary row.id t → IsPrimary row.id (insert_or_ignore row t)
  unfolding insert_or_ignore
  insert-IsPrimary a u = ground (
    arith,
    any-taken a,
    count-congr (λ r. r.id == row.id) (has_key row.cycle_id row.member_id row.starts_at) t a,
    count-eq-zero_of_find (has_key row.cycle_id row.member_id row.starts_at) t,
    count-append (λ r. r.id == row.id) t (row ∷ []),
  )

  insert_others :
      (c' m' s' : ℕ)
      → (row.cycle_id ≢ c') ⊎ (row.member_id ≢ m') ⊎ (row.starts_at ≢ s')
      → window_of c' m' s' (insert_or_ignore row t) ≡ window_of c' m' s' t
  unfolding insert_or_ignore
  insert_others c' m' s' ne = ground (arith, ne, find-append (has_key c' m' s') t (row ∷ []))

-- The two outcomes of a reservation of `d` by the window `w` of a key: its new table and result.
abbrev pub Reserves : Doubles → ℕ → ℕ → ℕ → ℕ → QuotaWindow → Tabled QuotaWindow → Type 0
Reserves f64 c m s d w r =
    ((w.count_used < w.max_count)
      × (f64.add w.seconds_used d ≤ f64.of_whole w.max_seconds)
      × (r.1 ≡ ok (charge f64 d w))
      × (window_of c m s r.0 ≡ some (charge f64 d w)))
    ⊎ (((w.max_count ≤ w.count_used) ⊎ (f64.of_whole w.max_seconds < f64.add w.seconds_used d))
        × (r.1 ≡ err quota_exceeded)
        × (window_of c m s r.0 ≡ some w))

module _ (f64 : Doubles) (c m s d : ℕ) (t : List QuotaWindow) (w : QuotaWindow)
    (found : window_of c m s t ≡ some w) where
  reserve_in-Reserves :
      Apart w.id c m s t → IsPrimary w.id t → Reserves f64 c m s d w (reserve_in f64 d w t)
  unfolding reserve_in
  reserve_in-Reserves a u = ground (
    arith,
    found,
    count-and (λ r. r.id == w.id) (has_room f64 d) t w u
        (find-congr (λ r. r.id == w.id) (has_key c m s) t a ∙ found),
    find-update (has_key c m s) (λ r. (r.id == w.id) && has_room f64 d r) (charge f64 d) t
        (λ r. refl),
  )

  reserve_in_others :
      (c' m' s' : ℕ)
      → Apart w.id c m s t
      → (c ≢ c') ⊎ (m ≢ m') ⊎ (s ≢ s')
      → window_of c' m' s' (reserve_in f64 d w t).0 ≡ window_of c' m' s' t
  unfolding reserve_in
  reserve_in_others c' m' s' a h =
      find-update_other (has_key c' m' s') (λ r. (r.id == w.id) && has_room f64 d r) (charge f64 d)
        t (λ r. refl) (All-imp _ _ t (λ r e. ground (arith, e, h)) a)

module _ (f64 : Doubles) (window_id : ℕ → ℕ → ℕ → ℕ) (cycle : QuotaCycle) (member_id : ℕ)
    (now : DateValue) (b : WindowBoundary) (t : List QuotaWindow)
    (active : contribution_quota_window cycle.starts_at cycle.ends_at now ≡ ok b)
    (apart : Apart (window_id cycle.id member_id b.starts_at) cycle.id member_id b.starts_at t)
    (primary : IsPrimary (window_id cycle.id member_id b.starts_at) t) where
  -- The window before the reservation: the stored one, or a new one with nothing used.
  abbrev pub current_window : QuotaWindow
  current_window =
      or_else (window_of cycle.id member_id b.starts_at t) (new_window window_id cycle member_id b)

  ensured :
      ensure_contribution_quota_window window_id cycle member_id now t
      ≡ (insert_or_ignore (new_window window_id cycle member_id b) t, ok current_window)
  unfolding ensure_contribution_quota_window new_window
  ensured =
      rw (active, ensure_contribution_quota_window)
        (ground (arith, insert-window_of (new_window window_id cycle member_id b) t apart))

  abbrev issued_id : ℕ
  issued_id = window_id cycle.id member_id b.starts_at

  abbrev ensured_table : List QuotaWindow
  ensured_table = insert_or_ignore (new_window window_id cycle member_id b) t

  ensured_window : window_of cycle.id member_id b.starts_at ensured_table ≡ some current_window
  unfolding new_window
  ensured_window = insert-window_of (new_window window_id cycle member_id b) t apart

  ensured-Apart : Apart issued_id cycle.id member_id b.starts_at ensured_table
  unfolding new_window
  ensured-Apart = insert-Apart (new_window window_id cycle member_id b) t apart

  ensured-IsPrimary : IsPrimary issued_id ensured_table
  unfolding new_window
  ensured-IsPrimary = insert-IsPrimary (new_window window_id cycle member_id b) t apart primary

  current_id : current_window.id ≡ issued_id
  current_id = (==_iff current_window.id issued_id).0 (
      find_sound (λ r. r.id == issued_id) ensured_table
        (find-congr _ _ ensured_table ensured-Apart ∙ ensured_window))

  current_has_key : has_key cycle.id member_id b.starts_at current_window ≡ true
  current_has_key = find_sound (has_key cycle.id member_id b.starts_at) ensured_table ensured_window

  -- A reservation of a valid duration in an active cycle is granted exactly if the member's
  -- window of this week, the stored one or a new one, has a contribution left and the rounded sum of
  -- its seconds and the duration is at most its maximum; then the window is charged one contribution
  -- and that sum, and otherwise it stays as it was. The identifier of the window is taken to be that
  -- of the rows of its key alone, and of one row at most.
  pub reserve-Reserves :
      (d : ℕ)
      → 0 < d
      → d ≤ f64.of_whole max_contribution_duration_seconds
      → Reserves f64 cycle.id member_id b.starts_at d current_window
          (reserve_contribution_allowance window_id f64 cycle member_id (some d) now t)
  unfolding reserve_contribution_allowance
  reserve-Reserves d h k =
      let valid : valid_duration f64 d ≡ true = ground arith in
      rw (valid, ensured)
        (reserve_in-Reserves f64 cycle.id member_id b.starts_at d ensured_table current_window
          ensured_window (rw current_id ensured-Apart) (rw current_id ensured-IsPrimary))

  -- A reservation of a valid duration in an active cycle, granted or refused, leaves every window
  -- of another key as it was, where the identifier of the window is that of the rows of its key
  -- alone, and of one row at most.
  pub reserve_others :
      (d : ℕ) (c' m' s' : ℕ)
      → (cycle.id ≢ c') ⊎ (member_id ≢ m') ⊎ (b.starts_at ≢ s')
      → 0 < d
      → d ≤ f64.of_whole max_contribution_duration_seconds
      → window_of c' m' s'
          (reserve_contribution_allowance window_id f64 cycle member_id (some d) now t).0
        ≡ window_of c' m' s' t
  unfolding reserve_contribution_allowance new_window
  reserve_others d c' m' s' ne h k =
      let valid : valid_duration f64 d ≡ true = ground arith in
      rw (valid, ensured)
        (reserve_in_others f64 cycle.id member_id b.starts_at d ensured_table current_window
            ensured_window c' m' s' (rw current_id ensured-Apart) ne
          ∙ insert_others (new_window window_id cycle member_id b) t c' m' s' ne)
