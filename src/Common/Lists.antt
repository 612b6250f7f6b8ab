-- ===== src/Common/Lists.antt =====
-- Lists as tables: measured by native numbers, searched and updated by a Boolean test on a row.
use Prim.Native.Nat.{ℕ, zero, suc, ◌+◌, ◌≤◌}
use mathlib.Core.Path.{◌≡◌, refl, subst}
use mathlib.Core.Logic.{inl, inr}
use native.Mathlib.Omega.{arith}
use mathlib.Core.Bool.{Bool, true, false, ◌&&◌, ◌||◌}
use mathlib.Core.Option.{Option, none, some}
use mathlib.Core.List.{List, [], ◌∷◌, ◌++◌}
use rewind_app.Common.Tests.{if◌then◌else◌, if_intro, Bool-cases, is_some}

module _ {ℓ} {A : Type ℓ} where
  abbrev pub length : List A → ℕ
  length [] = 0
  length (x ∷ xs) = suc (length xs)

  abbrev pub take : ℕ → List A → List A
  take zero xs = []
  take (suc n) [] = []
  take (suc n) (x ∷ xs) = x ∷ take n xs

  abbrev pub drop : ℕ → List A → List A
  drop zero xs = xs
  drop (suc n) [] = []
  drop (suc n) (x ∷ xs) = drop n xs

  -- The rows that pass the test: `SELECT ... WHERE`, `DELETE ... WHERE NOT`.
  abbrev pub keep : (A → Bool) → List A → List A
  keep p [] = []
  keep p (x ∷ xs) = if p x then x ∷ keep p xs else keep p xs

  -- The first row that passes the test.
  abbrev pub find : (A → Bool) → List A → Option A
  find p [] = none
  find p (x ∷ xs) = if p x then some x else find p xs

  abbrev pub any : (A → Bool) → List A → Bool
  any p [] = false
  any p (x ∷ xs) = p x || any p xs

  abbrev pub all : (A → Bool) → List A → Bool
  all p [] = true
  all p (x ∷ xs) = p x && all p xs

  abbrev pub count : (A → Bool) → List A → ℕ
  count p [] = 0
  count p (x ∷ xs) = if p x then suc (count p xs) else count p xs

  -- `UPDATE ... WHERE`: every row that passes the test is rewritten.
  abbrev pub update : (A → Bool) → (A → A) → List A → List A
  update p f [] = []
  update p f (x ∷ xs) = (if p x then f x else x) ∷ update p f xs

  abbrev pub sum_of : (A → ℕ) → List A → ℕ
  sum_of f [] = 0
  sum_of f (x ∷ xs) = f x + sum_of f xs

  abbrev pub All {κ} : (A → Type κ) → List A → Type κ
  All P [] = Unit
  All P (x ∷ xs) = P x × All P xs

  pub All-append {κ} : (P : A → Type κ) (xs ys : List A) → All P xs → All P ys → All P (xs ++ ys)
  All-append P [] ys h k = k
  All-append P (x ∷ xs) ys h k = (h.0, All-append P xs ys h.1 k)

  -- An update keeps what its rewrite keeps of the rows that it rewrites.
  pub All-update {κ} :
      (P : A → Type κ) (p : A → Bool) (f : A → A) (xs : List A)
      → ((x : A) → P x → p x ≡ true → P (f x))
      → All P xs
      → All P (update p f xs)
  All-update P p f [] k h = tt
  All-update P p f (x ∷ xs) k h =
      (if_intro P (p x) (λ e. k x h.0 e) (λ _. h.0), All-update P p f xs k h.1)

  pub All-keep {κ} : (P : A → Type κ) (p : A → Bool) (xs : List A) → All P xs → All P (keep p xs)
  All-keep P p [] h = tt
  All-keep P p (x ∷ xs) h =
      let rest = All-keep P p xs h.1 in if_intro (All P) (p x) (λ _. (h.0, rest)) (λ _. rest)

  -- What a search finds passes its test, and is a row of the table.
  pub find_sound : (p : A → Bool) (xs : List A) {x : A} → find p xs ≡ some x → p x ≡ true
  find_sound p [] e = cc
  find_sound p (y ∷ xs) {x} e = elim (Bool-cases (p y)) [
    | inl t ↦ let e' : y ≡ x = ground (arith, e, t) in rw (← e') t
    | inr f ↦ find_sound p xs (ground (arith, e, f))
  ]

  pub All-find {κ} :
      (P : A → Type κ) (p : A → Bool) (xs : List A) {x : A} → All P xs → find p xs ≡ some x → P x
  All-find P p [] h e = absurd (cc e)
  All-find P p (y ∷ xs) {x} h e = elim (Bool-cases (p y)) [
    | inl t ↦ let e' : y ≡ x = ground (arith, e, t) in subst P e' h.0
    | inr f ↦ All-find P p xs h.1 (ground (arith, e, f))
  ]

  pub any-append : (p : A → Bool) (xs ys : List A) → any p (xs ++ ys) ≡ (any p xs || any p ys)
  any-append p [] ys = refl
  any-append p (x ∷ xs) ys = ground (arith, any-append p xs ys)

  pub count-update :
      (p q : A → Bool) (f : A → A) (xs : List A)
      → ((x : A) → q (f x) ≡ q x)
      → count q (update p f xs) ≡ count q xs
  count-update p q f [] h = refl
  count-update p q f (x ∷ xs) h = ground (arith, count-update p q f xs h, h x)

  -- `map` on a nullable row.
  abbrev pub fmap {κ} : {B : Type κ} → (A → B) → Option A → Option B
  fmap f none = none
  fmap f (some a) = some (f a)

  abbrev pub or_else : Option A → A → A
  or_else none d = d
  or_else (some a) d = a

  -- A search by a test that the rewrite leaves alone finds the row as it is rewritten.
  pub find-update :
      (p q : A → Bool) (f : A → A) (xs : List A)
      → ((x : A) → p (f x) ≡ p x)
      → find p (update q f xs) ≡ fmap (λ x. if q x then f x else x) (find p xs)
  find-update p q f [] h = refl
  find-update p q f (x ∷ xs) h = ground (arith, find-update p q f xs h, h x)

  -- A row that is found and kept is found among the kept.
  pub find-keep :
      (q p : A → Bool) (xs : List A) {x : A}
      → find q xs ≡ some x
      → p x ≡ true
      → find q (keep p xs) ≡ some x
  find-keep q p [] e k = absurd (cc e)
  find-keep q p (y ∷ xs) {x} e k = elim (Bool-cases (q y)) [
    | inl t ↦
        let e' : y ≡ x = ground (arith, e, t) in
        let k' : p y ≡ true = rw (e') k in ground (arith, t, k', e')
    | inr f ↦ ground (arith, e, f, find-keep q p xs {x = x} (ground (arith, e, f)) k)
  ]

  pub find-append :
      (p : A → Bool) (xs ys : List A)
      → find p (xs ++ ys) ≡ (if is_some (find p xs) then find p xs else find p ys)
  find-append p [] ys = refl
  find-append p (x ∷ xs) ys = ground (arith, find-append p xs ys)

  pub any-find : (p : A → Bool) (xs : List A) → any p xs ≡ is_some (find p xs)
  any-find p [] = refl
  any-find p (x ∷ xs) = ground (arith, any-find p xs)

  pub count-append : (p : A → Bool) (xs ys : List A) → count p (xs ++ ys) ≡ count p xs + count p ys
  count-append p [] ys = omega arith
  count-append p (x ∷ xs) ys = ground (arith, count-append p xs ys)

  pub count-eq-zero_of_find : (p : A → Bool) (xs : List A) → find p xs ≡ none → count p xs ≡ 0
  count-eq-zero_of_find p [] h = refl
  count-eq-zero_of_find p (x ∷ xs) h = ground (arith, count-eq-zero_of_find p xs)

  pub count-and-le : (p g : A → Bool) (xs : List A) → count (λ x. p x && g x) xs ≤ count p xs
  count-and-le p g [] = omega arith
  count-and-le p g (x ∷ xs) = ground (arith, count-and-le p g xs)

  -- With one row at most that passes `p`, a further test counts 1 or 0 by that row.
  pub count-and :
      (p g : A → Bool) (xs : List A) (x : A)
      → count p xs ≤ 1
      → find p xs ≡ some x
      → count (λ y. p y && g y) xs ≡ (if g x then 1 else 0)
  count-and p g [] x h e = absurd (cc e)
  count-and p g (y ∷ xs) x h e = elim (Bool-cases (p y)) [
    | inl t ↦ let e' : y ≡ x = ground (arith, e, t) in ground (arith, e', t, count-and-le p g xs)
    | inr f ↦ ground (arith, f, count-and p g xs x)
  ]

  -- Tests that agree on every row of a table.
  abbrev pub Agree : (p q : A → Bool) → List A → Type 0
  Agree p q xs = All (λ x. p x ≡ q x) xs

  pub find-congr : (p q : A → Bool) (xs : List A) → Agree p q xs → find p xs ≡ find q xs
  find-congr p q [] h = refl
  find-congr p q (x ∷ xs) h = ground (arith, find-congr p q xs h.1, h.0)

  pub count-congr : (p q : A → Bool) (xs : List A) → Agree p q xs → count p xs ≡ count q xs
  count-congr p q [] h = refl
  count-congr p q (x ∷ xs) h = ground (arith, count-congr p q xs h.1, h.0)

  pub any-congr : (p q : A → Bool) (xs : List A) → Agree p q xs → any p xs ≡ any q xs
  any-congr p q [] h = refl
  any-congr p q (x ∷ xs) h = ground (arith, any-congr p q xs h.1, h.0)

  pub update-congr :
      (p q : A → Bool) (f : A → A) (xs : List A) → Agree p q xs → update p f xs ≡ update q f xs
  update-congr p q f [] h = refl
  update-congr p q f (x ∷ xs) h = ground (arith, update-congr p q f xs h.1, h.0)

  -- To change a predicate row by row.
  pub All-imp {κ ρ} :
      (P : A → Type κ) (Q : A → Type ρ) (xs : List A) → ((x : A) → P x → Q x) → All P xs → All Q xs
  All-imp P Q [] k h = tt
  All-imp P Q (x ∷ xs) k h = (k x h.0, All-imp P Q xs k h.1)

  -- A search by a test that no rewritten row passes is as before.
  pub find-update_other :
      (p q : A → Bool) (f : A → A) (xs : List A)
      → ((x : A) → p (f x) ≡ p x)
      → All (λ x. (p x && q x) ≡ false) xs
      → find p (update q f xs) ≡ find p xs
  find-update_other p q f [] k h = refl
  find-update_other p q f (x ∷ xs) k h = ground (arith, find-update_other p q f xs k h.1, k x, h.0)

module _ {ℓ κ} {A : Type ℓ} {B : Type κ} where
  abbrev pub flat_map : (A → List B) → List A → List B
  flat_map f [] = []
  flat_map f (x ∷ xs) = f x ++ flat_map f xs

module _ {ℓ} {A : Type ℓ} (before : A → A → Bool) where
  abbrev pub insert_sorted : A → List A → List A
  insert_sorted x [] = x ∷ []
  insert_sorted x (y ∷ ys) = if before y x then y ∷ insert_sorted x ys else x ∷ y ∷ ys

  -- `ORDER BY`, where `before` compares the keys.
  abbrev pub order_by : List A → List A
  order_by [] = []
  order_by (x ∷ xs) = insert_sorted x (order_by xs)
