-- ===== src/Groups/Throttle/Limit.antt =====
-- server/src/groups/invites.ts: how many guesses an account has in fifteen minutes.
use rewind_app.Common.{
  ℕ, ◌+◌, ◌-◌, ◌≤◌, ◌<◌, ◌≡◌, refl, sym, ap, ◌∙◌, subst, inl, inr, true, false, ◌&&◌, some, List,
  [], ◌∷◌, ltb, leb, ==_refl, if◌then◌else◌, if_intro, keep, find, find_sound, find-update,
  find-append, find-keep, find-update_other, any, any-find, All, ok, err, Option-cases,
  Result-cases, Bool-cases, arith,
}
use rewind_app.Groups.Throttle.{
  guess_window_ms, guess_limit, day_ms, Scope, account, source, same_scope, ThrottleRow,
  throttle_of, upsert_throttle, charged_row, row_of, consume_between, consume_guess_attempt,
}

same_scope_refl : (s : Scope) → same_scope s s ≡ true
same_scope_refl s = ground arith

-- The row that an upsert stores is found as to its count and its window.
upsert-find :
    (row : ThrottleRow) (rows : List ThrottleRow)
    → (r : ThrottleRow) × (find (throttle_of row.scope row.subject_hash) (upsert_throttle row rows)
        ≡ some r)
      × (r.attempts ≡ row.attempts)
      × (r.window_started_at ≡ row.window_started_at)
unfolding upsert_throttle
upsert-find row rows =
    let q = throttle_of row.scope row.subject_hash in
    let f : ThrottleRow → ThrottleRow = λ r. record r {
      attempts = row.attempts;
      window_started_at = row.window_started_at;
      updated_at = row.updated_at;
    } in
    elim (Option-cases (find q rows)) [
      | inl e ↦ (
        row,
        ground (
          arith,
          e,
          any-find q rows,
          find-append q rows (row ∷ []),
          same_scope_refl row.scope,
          ==_refl row.subject_hash,
        ),
        refl,
        refl,
      )
      | inr (r, e) ↦ (
        f r,
        ground (arith, e, any-find q rows, find_sound q rows e, find-update q q f rows (λ x. refl)),
        refl,
        refl,
      )
    ]

disjoint :
    (h h' : ℕ) (rows : List ThrottleRow)
    → All (λ (x : ThrottleRow). (throttle_of account h x && throttle_of source h' x) ≡ false) rows
disjoint h h' [] = tt
disjoint h h' (x ∷ xs) = (ground arith, disjoint h h' xs)

-- A charge of a source leaves the rows of the accounts alone.
upsert-other :
    (row : ThrottleRow) (rows : List ThrottleRow) (h : ℕ)
    → row.scope ≡ source
    → find (throttle_of account h) (upsert_throttle row rows) ≡ find (throttle_of account h) rows
unfolding upsert_throttle
upsert-other row rows h e =
    let q = throttle_of row.scope row.subject_hash in
    let f : ThrottleRow → ThrottleRow = λ r. record r {
      attempts = row.attempts;
      window_started_at = row.window_started_at;
      updated_at = row.updated_at;
    } in
    if_intro (λ t. find (throttle_of account h) t ≡ find (throttle_of account h) rows) (any q rows)
      (λ _.
        find-update_other (throttle_of account h) q f rows (λ x. refl)
          (subst
            (λ c.
              All
                (λ (x : ThrottleRow).
                  (throttle_of account h x && throttle_of c row.subject_hash x) ≡ false)
                rows)
            (sym e) (disjoint h row.subject_hash rows)))
      (λ _. ground (arith, e, find-append (throttle_of account h) rows (row ∷ [])))

module _ (code_subject_hash : Scope → ℕ → ℕ) (account_id : ℕ) where
  -- The attempts that a guess at `now` finds in the account's window, and those that it leaves.
  abbrev Charged : ℕ → List ThrottleRow → List ThrottleRow → Type 0
  Charged now rows rows' =
      (old : ThrottleRow)
      → row_of code_subject_hash account account_id rows ≡ some old
      → now < old.window_started_at + guess_window_ms
      → (old.attempts < guess_limit)
        × ((new : ThrottleRow) × (row_of code_subject_hash account account_id rows' ≡ some new)
            × (new.attempts ≡ old.attempts + 1)
            × (new.window_started_at ≡ old.window_started_at))

  consume-Charged :
      (source_id now : ℕ) (rows rows' : List ThrottleRow)
      → consume_guess_attempt code_subject_hash account_id source_id (some now) rows
        ≡ ok (rows', true)
      → Charged now rows rows'
  unfolding consume_guess_attempt consume_between
  consume-Charged source_id now rows rows' h old e near =
      let h₁ = code_subject_hash account account_id in
      let day_ago = now - day_ms in
      let cutoff = now - guess_window_ms in
      let late : leb day_ms now ≡ true = ground (arith, h) in
      let kept = keep (λ (r : ThrottleRow). ltb day_ago r.window_started_at) rows in
      let found : find (throttle_of account h₁) kept ≡ some old =
        find-keep (throttle_of account h₁) (λ (r : ThrottleRow). ltb day_ago r.window_started_at)
          rows e (ground (arith, near, late)) in
      let (new, fn, ca, cw) = upsert-find (charged_row account h₁ now cutoff (some old)) kept in
      let inner = upsert_throttle (charged_row account h₁ now cutoff (some old)) kept in
      let outer =
        charged_row source (code_subject_hash source source_id) now cutoff
          (row_of code_subject_hash source source_id kept) in
      let q : rows' ≡ upsert_throttle outer inner = ground (arith, h, found, late) in
      let room : old.attempts < guess_limit = ground (arith, h, found, late, near) in
      (
        room,
        (
          new,
          ap (find (throttle_of account h₁)) q ∙ upsert-other outer inner h₁ refl ∙ fn,
          ca ∙ ground (arith, near, late),
          cw ∙ ground (arith, near, late),
        ),
      )

  -- A refused guess leaves the account's row as it is.
  consume_kept :
      (source_id now : ℕ) (rows rows' : List ThrottleRow) (old : ThrottleRow)
      → consume_guess_attempt code_subject_hash account_id source_id (some now) rows
        ≡ ok (rows', false)
      → row_of code_subject_hash account account_id rows ≡ some old
      → now < old.window_started_at + guess_window_ms
      → row_of code_subject_hash account account_id rows' ≡ some old
  unfolding consume_guess_attempt consume_between
  consume_kept source_id now rows rows' old h e near =
      let h₁ = code_subject_hash account account_id in
      let day_ago = now - day_ms in
      let late : leb day_ms now ≡ true = ground (arith, h) in
      let kept = keep (λ (r : ThrottleRow). ltb day_ago r.window_started_at) rows in
      let found : find (throttle_of account h₁) kept ≡ some old =
        find-keep (throttle_of account h₁) (λ (r : ThrottleRow). ltb day_ago r.window_started_at)
          rows e (ground (arith, near, late)) in
      let q : rows' ≡ kept = ground (arith, h, late) in ap (find (throttle_of account h₁)) q ∙ found

  -- The guesses of the account, one by one, each from a source at an instant: how many pass.
  unfoldable pub passes : List (ℕ × ℕ) → List ThrottleRow → ℕ
  passes [] rows = 0
  passes (g ∷ gs) rows =
      elim (consume_guess_attempt code_subject_hash account_id g.0 (some g.1) rows) [
        | err e ↦ passes gs rows
        | ok r ↦ (if r.1 then 1 else 0) + passes gs r.0
      ]

  -- Of any sequence of guesses of an account whose window holds `old.attempts` guesses, ten at most,
  -- that are made before the window's fifteen minutes are over, from whatever sources and whether
  -- the ones before were refused or not, no more pass than make ten with those of the window.
  pub guesses-limit :
      (gs : List (ℕ × ℕ)) (rows : List ThrottleRow) (old : ThrottleRow)
      → row_of code_subject_hash account account_id rows ≡ some old
      → old.attempts ≤ guess_limit
      → All (λ (g : ℕ × ℕ). g.1 < old.window_started_at + guess_window_ms) gs
      → old.attempts + passes gs rows ≤ guess_limit
  unfolding passes
  guesses-limit [] rows old e k near = ground (arith, k)
  guesses-limit (g ∷ gs) rows old e k near =
      elim (Result-cases (consume_guess_attempt code_subject_hash account_id g.0 (some g.1) rows)) [
        | inl (f, e') ↦ ground (arith, e', guesses-limit gs rows old e k near.1)
        | inr (r, e') ↦ elim (Bool-cases r.1) [
          | inl passed ↦
              let (room, charged) =
                consume-Charged g.0 g.1 rows r.0 (e' ∙ ap (λ b. ok (r.0, b)) passed) old e near.0 in
              let (new, fn, more, same_window) = charged in
              let rest = guesses-limit gs r.0 new fn (ground (arith, room, more)) (
                subst (λ w. All (λ (x : ℕ × ℕ). x.1 < w + guess_window_ms) gs) (sym same_window)
                  near.1) in
              ground (arith, rest, more, passed, e')
          | inr refused ↦
              let e'' =
                consume_kept g.0 g.1 rows r.0 old (e' ∙ ap (λ b. ok (r.0, b)) refused) e near.0 in
              ground (arith, guesses-limit gs r.0 old e'' k near.1, refused, e')
        ]
      ]
