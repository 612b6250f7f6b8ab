-- ===== src/Jobs/Queue/Order.antt =====
-- server/src/jobs/queue.ts: the order of the rows and the cursor in it.
use rewind_app.Common.{
  ℕ, ◌≡◌, refl, ap, ◌∙◌, subst, inl, inr, Bool, true, false, none, some, List, [], ◌∷◌, ◌==◌, zero,
  suc, if_intro, keep, All-order_by, All-insert_sorted, insert_sorted, All, All-keep, All-imp, take,
  drop, order_by, Option-cases, arith,
}
use rewind_app.Tables.{MediaJobRow}
use rewind_app.Jobs.Queue.{row_before, last_of}

-- Rows in strictly rising order of creation and identifier.
abbrev pub Ascending : List MediaJobRow → Type 0
Ascending [] = Unit
Ascending (x ∷ xs) = All (λ y. row_before x y ≡ true) xs × Ascending xs

-- No two rows have one identifier.
abbrev pub DistinctIds : List MediaJobRow → Type 0
DistinctIds [] = Unit
DistinctIds (x ∷ xs) = All (λ (y : MediaJobRow). (x.id == y.id) ≡ false) xs × DistinctIds xs

before_trans :
    (x y z : MediaJobRow) → row_before x y ≡ true → row_before y z ≡ true → row_before x z ≡ true
before_trans x y z h k = ground (arith, h, k)

before_other :
    (x y : MediaJobRow) → row_before y x ≡ false → (x.id == y.id) ≡ false → row_before x y ≡ true
before_other x y h k = ground (arith, h, k)

insert-Ascending :
    (x : MediaJobRow) (ys : List MediaJobRow)
    → All (λ (y : MediaJobRow). (x.id == y.id) ≡ false) ys
    → Ascending ys
    → Ascending (insert_sorted row_before x ys)
insert-Ascending x [] d a = (tt, tt)
insert-Ascending x (y ∷ ys) d a =
    let rest = insert-Ascending x ys d.1 a.1 in
    if_intro Ascending (row_before y x)
      (λ h. (All-insert_sorted (λ z. row_before y z ≡ true) row_before x ys h a.0, rest))
      (λ h.
        let first = before_other x y h d.0 in
        ((first, All-imp _ _ ys (λ z k. before_trans x y z first k) a.0), a))

pub order_by-Ascending :
    (xs : List MediaJobRow) → DistinctIds xs → Ascending (order_by row_before xs)
order_by-Ascending [] d = tt
order_by-Ascending (x ∷ xs) d =
    insert-Ascending x (order_by row_before xs) (All-order_by _ row_before xs d.0)
      (order_by-Ascending xs d.1)

pub keep-Ascending :
    (p : MediaJobRow → Bool) (xs : List MediaJobRow) → Ascending xs → Ascending (keep p xs)
keep-Ascending p [] a = tt
keep-Ascending p (x ∷ xs) a =
    let rest = keep-Ascending p xs a.1 in
    if_intro Ascending (p x) (λ _. (All-keep _ p xs a.0, rest)) (λ _. rest)

keep-every :
    (p : MediaJobRow → Bool) (xs : List MediaJobRow) → All (λ y. p y ≡ true) xs → keep p xs ≡ xs
keep-every p [] h = refl
keep-every p (x ∷ xs) h = ground (arith, h.0, keep-every p xs h.1)

-- Nothing was taken where there is no last row.
taken_none : (n : ℕ) (xs : List MediaJobRow) → last_of (take n xs) ≡ none → drop n xs ≡ xs
taken_none zero xs h = refl
taken_none (suc n) [] h = refl
taken_none (suc n) (x ∷ xs) h = elim (Option-cases (last_of (take n xs))) [
  | inl e ↦ absurd (ground (arith, h, e))
  | inr (l, e) ↦ absurd (ground (arith, h, e))
]

-- What holds of every row holds of the last one that is taken.
pub All-last :
    (P : MediaJobRow → Type 0) (n : ℕ) (xs : List MediaJobRow) {last : MediaJobRow}
    → All P xs
    → last_of (take n xs) ≡ some last
    → P last
All-last P zero xs h e = absurd (cc e)
All-last P (suc n) [] h e = absurd (cc e)
All-last P (suc n) (x ∷ xs) {last} h e = elim (Option-cases (last_of (take n xs))) [
  | inl e' ↦ let same_row : x ≡ last = ground (arith, e, e') in subst P same_row h.0
  | inr (l, e') ↦
      let same_row : l ≡ last = ground (arith, e, e') in
      All-last P n xs {last = last} h.1 (e' ∙ ap some same_row)
]

-- What is past the last row of a page is what the page leaves.
pub keep-past :
    (n : ℕ) (xs : List MediaJobRow) (last : MediaJobRow)
    → Ascending xs
    → last_of (take n xs) ≡ some last
    → keep (row_before last) xs ≡ drop n xs
keep-past zero xs last a h = absurd (cc h)
keep-past (suc n) [] last a h = absurd (cc h)
keep-past (suc n) (x ∷ xs) last a h = elim (Option-cases (last_of (take n xs))) [
  | inl e ↦
      (let same_row : x ≡ last = ground (arith, h, e) in
        let zero_taken : drop n xs ≡ xs = taken_none n xs e in
        let all_past : All (λ y. row_before last y ≡ true) xs =
          subst (λ r. All (λ y. row_before r y ≡ true) xs) same_row a.0 in
        let self : row_before last x ≡ false = ground (arith, same_row) in
        ground (arith, self, zero_taken, keep-every (row_before last) xs all_past))
  | inr (l, e) ↦
      (let same_row : l ≡ last = ground (arith, h, e) in
        let e' : last_of (take n xs) ≡ some last = e ∙ ap some same_row in
        let before_last : row_before x last ≡ true = All-last _ n xs a.0 e' in
        let not_past : row_before last x ≡ false = ground (arith, before_last) in
        ground (arith, not_past, keep-past n xs last a.1 e'))
]
