-- ===== src/Common/Joins.antt =====
-- Predicates through joins, orderings and limits of tables.
use Prim.Native.Nat.{ℕ, zero, suc}
use mathlib.Core.Path.{◌≡◌, refl, sym, ap, ◌∙◌}
use native.Mathlib.Omega.{arith}
use mathlib.Core.Bool.{Bool, true}
use mathlib.Core.List.{Memᴰ, map, List, [], ◌∷◌}
use rewind_app.Common.Tests.{if_intro}
use rewind_app.Common.Lists.{take, keep, any, All, All-append, flat_map, insert_sorted, order_by}

module _ {ℓ} {A : Type ℓ} where
  pub any-Mem : (p : A → Bool) (xs : List A) {x : A} → Memᴰ x xs → p x ≡ true → any p xs ≡ true
  any-Mem p [] m h = elim m [ ]
  any-Mem p (y ∷ ys) {x} (Memᴰ.head e) h =
      let h' : p y ≡ true = ap p (sym e) ∙ h in ground (arith, h')
  any-Mem p (y ∷ ys) {x} (Memᴰ.tail m) h = ground (arith, any-Mem p ys m h)

module _ {ℓ κ ρ} {A : Type ℓ} {B : Type κ} (P : B → Type ρ) where
  -- What holds of each row that a join makes of a row of the table holds of all that it makes.
  pub All-flat_map :
      (f : A → List B) (xs : List A) → ((x : A) → Memᴰ x xs → All P (f x)) → All P (flat_map f xs)
  All-flat_map f [] h = tt
  All-flat_map f (x ∷ xs) h =
      All-append P (f x) (flat_map f xs) (h x (Memᴰ.head refl))
        (All-flat_map f xs (λ y m. h y (Memᴰ.tail m)))

  pub All-map-keep :
      (g : A → B) (p : A → Bool) (xs : List A)
      → ((x : A) → Memᴰ x xs → p x ≡ true → P (g x))
      → All P (map g (keep p xs))
  All-map-keep g p [] h = tt
  All-map-keep g p (x ∷ xs) h =
      let rest = All-map-keep g p xs (λ y m. h y (Memᴰ.tail m)) in
      if_intro (λ t. All P (map g t)) (p x) (λ e. (h x (Memᴰ.head refl) e, rest)) (λ _. rest)

module _ {ℓ κ} {A : Type ℓ} (P : A → Type κ) (before : A → A → Bool) where
  pub All-insert_sorted : (x : A) (xs : List A) → P x → All P xs → All P (insert_sorted before x xs)
  All-insert_sorted x [] h k = (h, tt)
  All-insert_sorted x (y ∷ ys) h k =
      let rest = All-insert_sorted x ys h k.1 in
      if_intro (All P) (before y x) (λ _. (k.0, rest)) (λ _. (h, k))

  pub All-order_by : (xs : List A) → All P xs → All P (order_by before xs)
  All-order_by [] h = tt
  All-order_by (x ∷ xs) h = All-insert_sorted x (order_by before xs) h.0 (All-order_by xs h.1)

module _ {ℓ κ} {A : Type ℓ} (P : A → Type κ) where
  pub All-take : (n : ℕ) (xs : List A) → All P xs → All P (take n xs)
  All-take zero xs h = tt
  All-take (suc n) [] h = tt
  All-take (suc n) (x ∷ xs) h = (h.0, All-take n xs h.1)
