-- ===== src/Jobs/Queue/Pages.antt =====
-- server/src/jobs/queue.ts: following the cursors lists every job once.
use rewind_app.Common.{
  ℕ, ◌≤◌, ◌<◌, ◌≡◌, refl, sym, ap, ◌∙◌, inl, inr, Bool, true, false, ◌&&◌, Option, none, some, List,
  [], ◌∷◌, ◌++◌, map, ltb, ==_refl, zero, suc, if_intro, keep, All-order_by, All, All-keep, All-imp,
  length, take, drop, order_by, fmap, ok, err, Option-cases, Bool-cases, arith, whole,
}
use rewind_app.Tables.{MediaJobRow}
use rewind_app.Jobs.Queue.{
  QueueJobKind, QueueJobStatus, QueueJobObservation, QueueCursor, clip_job, film_job, is_pending,
  is_processing, is_failed, queue_max_page_size, parse_queue_limit, same_kind, same_status,
  max_cursor_length, decode_cursor, map_queue_job, row_before, is_asked, past_cursor, last_of,
  cursor_at, page_of, read_cursor, list_queue_jobs,
}
use rewind_app.Jobs.Queue.Order.{
  Ascending, DistinctIds, order_by-Ascending, keep-Ascending, keep-past, All-last,
}

module _ {ℓ} {A : Type ℓ} where
  take-all :
      (n : ℕ) (xs : List A)
      → ltb n (length (take (suc n) xs)) ≡ false
      → take n (take (suc n) xs) ≡ xs
  take-all zero [] h = refl
  take-all zero (x ∷ xs) h = absurd (ground (arith, h))
  take-all (suc n) [] h = refl
  take-all (suc n) (x ∷ xs) h = ap (λ t. x ∷ t) (take-all n xs (ground (arith, h)))

  take-shorter : (n : ℕ) (xs : List A) → take n (take (suc n) xs) ≡ take n xs
  take-shorter zero xs = refl
  take-shorter (suc n) [] = refl
  take-shorter (suc n) (x ∷ xs) = ap (λ t. x ∷ t) (take-shorter n xs)

  drop-le : (n : ℕ) (xs : List A) → length (drop n xs) < suc (length xs)
  drop-le zero xs = omega arith
  drop-le (suc n) [] = omega arith
  drop-le (suc n) (x ∷ xs) = ground (arith, drop-le n xs)

  length-drop :
      (n : ℕ) (xs : List A)
      → ltb n (length (take (suc n) xs)) ≡ true
      → 0 < n
      → length (drop n xs) < length xs
  length-drop zero xs h k = absurd (ground (arith, k))
  length-drop (suc n) [] h k = absurd (ground (arith, h))
  length-drop (suc n) (x ∷ xs) h k = drop-le n xs

  keep-keep : (p q : A → Bool) (xs : List A) → keep (λ x. p x && q x) xs ≡ keep q (keep p xs)
  keep-keep p q [] = refl
  keep-keep p q (x ∷ xs) = ground (arith, keep-keep p q xs)

  keep-narrower :
      (p q : A → Bool) (xs : List A)
      → ((x : A) → q x ≡ true → p x ≡ true)
      → keep q (keep p xs) ≡ keep q xs
  keep-narrower p q [] h = refl
  keep-narrower p q (x ∷ xs) h = ground (arith, keep-narrower p q xs h, h x)

  keep-always : (xs : List A) → keep (λ x. true) xs ≡ xs
  keep-always [] = refl
  keep-always (x ∷ xs) = ap (λ t. x ∷ t) (keep-always xs)

  kept_pass : (p : A → Bool) (xs : List A) → All (λ x. p x ≡ true) (keep p xs)
  kept_pass p [] = tt
  kept_pass p (x ∷ xs) =
      if_intro (All (λ y. p y ≡ true)) (p x) (λ e. (e, kept_pass p xs)) (λ _. kept_pass p xs)

map-take-drop :
    {B : Type 0} (f : MediaJobRow → B) (n : ℕ) (xs : List MediaJobRow)
    → map f (take n xs) ++ map f (drop n xs) ≡ map f xs
map-take-drop f zero xs = refl
map-take-drop f (suc n) [] = refl
map-take-drop f (suc n) (x ∷ xs) = ap (λ t. f x ∷ t) (map-take-drop f n xs)

some-last :
    (n : ℕ) (xs : List MediaJobRow)
    → ltb n (length (take (suc n) xs)) ≡ true
    → 0 < n
    → (last : MediaJobRow) × (last_of (take n xs) ≡ some last)
some-last zero xs h k = absurd (ground (arith, k))
some-last (suc n) [] h k = absurd (ground (arith, h))
some-last (suc n) (x ∷ xs) h k = elim (Option-cases (last_of (take n xs))) [
  | inl e ↦ (x, ground (arith, e))
  | inr (l, e) ↦ (l, ground (arith, e))
]

same_kind_refl : (k : Option QueueJobKind) → same_kind k k ≡ true
same_kind_refl none = refl
same_kind_refl (some clip_job) = refl
same_kind_refl (some film_job) = refl

same_status_refl : (k : Option QueueJobStatus) → same_status k k ≡ true
same_status_refl none = refl
same_status_refl (some is_pending) = refl
same_status_refl (some is_processing) = refl
same_status_refl (some is_failed) = refl

module _ (encoded_length : QueueCursor → ℕ) (group_id : ℕ) (kind : Option QueueJobKind)
    (status : Option QueueJobStatus) (n : ℕ) (table : List MediaJobRow) where
  -- The jobs of the pages from a cursor on, each page asked for with the cursor of the one before.
  unfoldable pub walk : ℕ → Option (Option QueueCursor) → Option (List QueueJobObservation)
  walk zero c = none
  walk (suc fuel) c =
      let rest = λ (next : QueueCursor). walk fuel (some (some next)) in
      elim (list_queue_jobs encoded_length group_id kind status (some (whole n)) c table) [
        | err e ↦ none
        | ok page ↦ (elim page.next_cursor [
          | none ↦ some page.jobs
          | some next ↦ fmap (λ (jobs : List QueueJobObservation). page.jobs ++ jobs) (rest next)
        ])
      ]

  abbrev pub asked : List MediaJobRow
  asked = keep (is_asked group_id kind status) (order_by row_before table)

  -- The text of the row's cursor is not longer than the code reads.
  abbrev pub Short : MediaJobRow → Type 0
  Short j = encoded_length (cursor_at group_id kind status j) ≤ max_cursor_length

  rows_from : Option QueueCursor → List MediaJobRow
  rows_from c =
      keep (λ (j : MediaJobRow). is_asked group_id kind status j && past_cursor c j)
        (order_by row_before table)

  module _ (small : 0 < n) (bounded : n ≤ queue_max_page_size) where
    listed :
        (c : Option (Option QueueCursor)) (c' : Option QueueCursor)
        → read_cursor encoded_length c group_id kind status ≡ ok c'
        → list_queue_jobs encoded_length group_id kind status (some (whole n)) c table
          ≡ ok (page_of group_id kind status n (rows_from c'))
    unfolding list_queue_jobs parse_queue_limit rows_from
    listed c c' h = ground (arith, h, small, bounded)

    read_own :
        (last : MediaJobRow)
        → encoded_length (cursor_at group_id kind status last) ≤ max_cursor_length
        → read_cursor encoded_length
            (some (some (cursor_at group_id kind status last)))
            group_id
            kind
            status
          ≡ ok (some (cursor_at group_id kind status last))
    unfolding read_cursor decode_cursor
    read_own last fits =
        ground (arith, fits, same_kind_refl kind, same_status_refl status, ==_refl group_id)

    past_trans :
        (c : Option QueueCursor) (last y : MediaJobRow)
        → past_cursor c last ≡ true
        → row_before last y ≡ true
        → past_cursor c y ≡ true
    past_trans none last y h k = refl
    past_trans (some c) last y h k = ground (arith, h, k)

    rows_after :
        (c : Option QueueCursor) (last : MediaJobRow)
        → past_cursor c last ≡ true
        → rows_from (some (cursor_at group_id kind status last))
          ≡ keep (row_before last) (rows_from c)
    unfolding rows_from
    rows_after c last h =
        keep-keep (is_asked group_id kind status) (row_before last) (order_by row_before table)
        ∙ sym
            (keep-narrower (past_cursor c) (row_before last) asked (λ y k. past_trans c last y h k))
        ∙ ap (keep (row_before last)) (
            sym (
              keep-keep (is_asked group_id kind status) (past_cursor c)
                (order_by row_before table)))

    rows_pass : (c : Option QueueCursor) → All (λ y. past_cursor c y ≡ true) (rows_from c)
    unfolding rows_from
    rows_pass c =
        All-imp _ _ (rows_from c) (λ y e. ground (arith, e))
          (kept_pass (λ (j : MediaJobRow). is_asked group_id kind status j && past_cursor c j)
            (order_by row_before table))

    rows-Short : (c : Option QueueCursor) → All Short table → All Short (rows_from c)
    unfolding rows_from
    rows-Short c s =
        All-keep Short (λ (j : MediaJobRow). is_asked group_id kind status j && past_cursor c j)
          (order_by row_before table) (All-order_by Short row_before table s)

    rows-Ascending : (c : Option QueueCursor) → DistinctIds table → Ascending (rows_from c)
    unfolding rows_from
    rows-Ascending c d =
        keep-Ascending (λ (j : MediaJobRow). is_asked group_id kind status j && past_cursor c j)
          (order_by row_before table) (order_by-Ascending table d)

    -- With this fuel a walk lists what its cursor has before it, if that is no more than the fuel.
    abbrev Walks : ℕ → Type 0
    Walks fuel =
        (c : Option (Option QueueCursor)) (c' : Option QueueCursor)
        → read_cursor encoded_length c group_id kind status ≡ ok c'
        → length (rows_from c') ≤ fuel
        → walk (suc fuel) c ≡ some (map map_queue_job (rows_from c'))

    walk_last :
        (fuel : ℕ) (c : Option (Option QueueCursor)) (c' : Option QueueCursor)
        → read_cursor encoded_length c group_id kind status ≡ ok c'
        → ltb n (length (take (suc n) (rows_from c'))) ≡ false
        → walk (suc fuel) c ≡ some (map map_queue_job (rows_from c'))
    unfolding walk page_of
    walk_last fuel c c' h done =
        let all_rows : take n (take (suc n) (rows_from c')) ≡ rows_from c' =
          take-all n (rows_from c') done in
        ground (arith, listed c c' h, done, all_rows)

    walk_more :
        (fuel : ℕ)
        → Walks fuel
        → (c : Option (Option QueueCursor)) (c' : Option QueueCursor) → DistinctIds table
        → All Short table
        → read_cursor encoded_length c group_id kind status ≡ ok c'
        → length (rows_from c') ≤ suc fuel
        → ltb n (length (take (suc n) (rows_from c'))) ≡ true
        → walk (suc (suc fuel)) c ≡ some (map map_queue_job (rows_from c'))
    unfolding walk page_of
    walk_more fuel ih c c' d short h enough more =
        let (last, e) = some-last n (rows_from c') more small in
        let cursor = cursor_at group_id kind status last in
        let passed : past_cursor c' last ≡ true =
          All-last (λ y. past_cursor c' y ≡ true) n (rows_from c') (rows_pass c') e in
        let fits : encoded_length cursor ≤ max_cursor_length =
          All-last (λ y. encoded_length (cursor_at group_id kind status y) ≤ max_cursor_length) n
            (rows_from c') (rows-Short c' short) e in
        let next : rows_from (some cursor) ≡ drop n (rows_from c') =
          rows_after c' last passed ∙ keep-past n (rows_from c') last (rows-Ascending c' d) e in
        let fewer : length (rows_from (some cursor)) ≤ fuel =
          ground (arith, next, length-drop n (rows_from c') more small, enough) in
        let rest : walk (suc fuel) (some (some cursor))
            ≡ some (map map_queue_job (drop n (rows_from c'))) =
          ih (some (some cursor)) (some cursor) (read_own last fits) fewer
          ∙ ap (λ t. some (map map_queue_job t)) next in
        let page : take n (take (suc n) (rows_from c')) ≡ take n (rows_from c') =
          take-shorter n (rows_from c') in
        let last' : last_of (take n (take (suc n) (rows_from c'))) ≡ some last =
          ap last_of page ∙ e in
        ground (
          arith,
          listed c c' h,
          more,
          last',
          page,
          rest,
          map-take-drop map_queue_job n (rows_from c'),
        )

    walk_every : (fuel : ℕ) → DistinctIds table → All Short table → Walks fuel
    walk_every zero d short c c' h enough =
        elim (Bool-cases (ltb n (length (take (suc n) (rows_from c'))))) [
          | inl more ↦ absurd (ground (arith, length-drop n (rows_from c') more small, enough))
          | inr done ↦ walk_last zero c c' h done
        ]
    walk_every (suc fuel) d short c c' h enough =
        elim (Bool-cases (ltb n (length (take (suc n) (rows_from c'))))) [
          | inl more ↦ walk_more fuel (walk_every fuel d short) c c' d short h enough more
          | inr done ↦ walk_last (suc fuel) c c' h done
        ]

    -- Pages of 1 to 100 jobs, each asked for with the cursor of the one before, list every job that
    -- is asked for exactly once, in the order of creation, in no more pages than there are jobs and
    -- one, where the identifiers in the table are distinct and the text of a cursor at any of its rows
    -- is of at most 512 characters.
    pub walk-asked :
        DistinctIds table
        → All Short table
        → walk (suc (length asked)) none ≡ some (map map_queue_job asked)
    unfolding rows_from read_cursor
    walk-asked d short =
        let every : rows_from none ≡ asked =
          keep-keep (is_asked group_id kind status) (λ j. true) (order_by row_before table)
          ∙ keep-always asked in
        let enough : length (rows_from none) ≤ length asked = ground (arith, every) in
        walk_every (length asked) d short none none refl enough
        ∙ ap (λ t. some (map map_queue_job t)) every
