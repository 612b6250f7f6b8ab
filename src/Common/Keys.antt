-- ===== src/Common/Keys.antt =====
-- Tables with a key: at most one row passes a test.
use Prim.Native.Nat.{◌≤◌}
use mathlib.Core.Path.{◌≡◌}
use mathlib.Core.Logic.{inl, inr}
use native.Mathlib.Omega.{arith}
use mathlib.Core.Bool.{Bool, true, ◌&&◌}
use mathlib.Core.Option.{some}
use mathlib.Core.List.{List, [], ◌∷◌}
use rewind_app.Common.Tests.{Bool-cases, is_some}
use rewind_app.Common.Lists.{find, count}

module _ {ℓ} {A : Type ℓ} where
  pub count-pos_of_find : (p : A → Bool) (xs : List A) {x : A} → find p xs ≡ some x → 1 ≤ count p xs
  count-pos_of_find p [] e = absurd (cc e)
  count-pos_of_find p (y ∷ xs) {x} e = ground (arith, e, count-pos_of_find p xs {x = x})

  -- With one row at most that passes `p`, a test that asks for more finds that row or none.
  pub find-and :
      (p r q : A → Bool) (xs : List A) {x : A}
      → ((y : A) → q y ≡ (p y && r y))
      → count p xs ≤ 1
      → find q xs ≡ some x
      → find p xs ≡ some x
  find-and p r q [] s h e = absurd (cc e)
  find-and p r q (y ∷ xs) {x} s h e = elim (Bool-cases (p y)) [
    | inl t ↦ elim (Bool-cases (r y)) [
      | inl u ↦ ground (arith, s y, e, t, u)
      | inr f ↦
          let further : find p xs ≡ some x =
            find-and p r q xs s (ground (arith, h, t)) (ground (arith, s y, e, t, f)) in
          absurd (ground (arith, h, t, count-pos_of_find p xs further))
    ]
    | inr f ↦
        ground
          (arith, f, find-and p r q xs {x = x} s (ground (arith, h, f)) (ground (arith, s y, e, f)))
  ]

  -- A weaker test finds a row where a test finds one.
  pub find-weaken :
      (p q : A → Bool) (xs : List A)
      → ((y : A) → p y ≡ true → q y ≡ true)
      → is_some (find p xs) ≡ true
      → is_some (find q xs) ≡ true
  find-weaken p q [] s e = e
  find-weaken p q (x ∷ xs) s e = ground (arith, s x, e, find-weaken p q xs s)
