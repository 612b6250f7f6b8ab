-- ===== src/Archive/Capabilities/Evicted.antt =====
-- server/src/archive/capabilities.ts: the map of capabilities stays small.
use rewind_app.Common.{
  ℕ, ◌-◌, ◌≤◌, ◌<◌, ◌≡◌, refl, sym, ap, ◌∙◌, inl, inr, Bool, List, [], ◌∷◌, ◌++◌, leb, zero, suc,
  keep, any, length, drop, update, Bool-cases, arith,
}
use rewind_app.Archive.Capabilities.{
  MediaCapability, Grant, has_key, is_current, evict, set_grant, granted, issue,
  media_capability_max_count,
}

drop-drop {ℓ} : {A : Type ℓ} (n : ℕ) (xs : List A) → drop n (drop 1 xs) ≡ drop (suc n) xs
drop-drop zero [] = refl
drop-drop (suc n) [] = refl
drop-drop n (x ∷ xs) = refl

drop-zero {ℓ} : {A : Type ℓ} (n : ℕ) (xs : List A) → n ≡ 0 → drop n xs ≡ xs
drop-zero n xs e = ap (λ (m : ℕ). drop m xs) e

length-drop {ℓ} : {A : Type ℓ} (xs : List A) → length (drop 1 xs) ≡ length xs - 1
length-drop [] = refl
length-drop (x ∷ xs) = omega arith

-- The eviction loop ends by its test when it may run as often as there are capabilities: then fewer
-- than 4096 are left, and it has dropped the oldest, as many as are too many and no more.
pub evict_ends :
    (fuel : ℕ) (gs : List Grant)
    → length gs ≤ fuel
    → (length (evict fuel gs) < media_capability_max_count)
      × (evict fuel gs ≡ drop (suc (length gs) - media_capability_max_count) gs)
unfolding evict
evict_ends zero gs h = (
  omega (arith, h),
  sym (drop-zero (suc (length gs) - media_capability_max_count) gs (omega (arith, h))),
)
evict_ends (suc fuel) gs h = elim (Bool-cases (leb media_capability_max_count (length gs))) [
  | inl t ↦
      let (few, dropped) = evict_ends fuel (drop 1 gs) (omega (arith, length-drop gs, h)) in
      let count_left : suc (length (drop 1 gs)) - media_capability_max_count
          ≡ length gs - media_capability_max_count =
        ground (arith, length-drop gs, t) in
      let count_all : suc (length gs) - media_capability_max_count
          ≡ suc (length gs - media_capability_max_count) =
        ground (arith, t) in
      let same_rest : evict fuel (drop 1 gs)
          ≡ drop (suc (length gs) - media_capability_max_count) gs =
        dropped
        ∙ ap (λ (n : ℕ). drop n (drop 1 gs)) count_left
        ∙ drop-drop (length gs - media_capability_max_count) gs
        ∙ ap (λ (n : ℕ). drop n gs) (sym count_all) in
      (ground (arith, t, few), ground (arith, t, same_rest))
  | inr f ↦
      let none_dropped =
        drop-zero (suc (length gs) - media_capability_max_count) gs (ground (arith, f)) in
      (ground (arith, f), ground (arith, f, none_dropped))
]

pub length-update {ℓ} :
    {A : Type ℓ} (p : A → Bool) (f : A → A) (xs : List A) → length (update p f xs) ≡ length xs
length-update p f [] = refl
length-update p f (x ∷ xs) = ap suc (length-update p f xs)

pub length-snoc {ℓ} : {A : Type ℓ} (xs : List A) (y : A) → length (xs ++ y ∷ []) ≡ suc (length xs)
length-snoc [] y = refl
length-snoc (x ∷ xs) y = ap suc (length-snoc xs y)

-- However many capabilities there were, at most 4096 are left when one has been issued.
pub issue_bounded :
    (asset : MediaCapability) (session_hash key now : ℕ) (gs : List Grant)
    → length (issue asset session_hash key now gs) ≤ media_capability_max_count
unfolding issue set_grant
issue_bounded asset session_hash key now gs =
    let current = keep (is_current now) gs in
    let kept = evict (length current) current in
    let few = (evict_ends (length current) current (omega arith)).0 in
    let g : Grant = record { key = key; grant = granted asset session_hash now } in
    elim (Bool-cases (any (has_key key) kept)) [
      | inl t ↦ ground (arith, t, few, length-update (has_key key) (λ (x : Grant). g) kept)
      | inr f ↦ ground (arith, f, few, length-snoc kept g)
    ]
