-- ===== src/Chat/Reactions/Merge.antt =====
-- src/chat/reaction-sync.ts: each message is there once, and reactions only move forward.
use rewind_app.Common.{
  ℕ, ◌≤◌, ◌≡◌, refl, sym, ap, ◌∙◌, inl, inr, Bool, true, false, ◌||◌, List, [], ◌∷◌, ◌++◌, map, ltb,
  ◌==◌, if◌then◌else◌, if_intro, any, insert_sorted, count, count-append, order_by, update,
  Bool-cases, arith,
}
use rewind_app.Chat.Reactions.{
  ChatRow, ReactionPatch, or_zero, patch_row, apply_reaction_patches, has_id, put, map_of, take_in,
  patches_of, event_before, merge_rows,
}

module _ (k : ℕ) where
  any-count : (m : List ChatRow) → any (has_id k) m ≡ ltb 0 (count (has_id k) m)
  any-count [] = refl
  any-count (x ∷ xs) = ground (arith, any-count xs)

  count-replace :
      (row : ChatRow) (m : List ChatRow)
      → count (has_id k) (update (has_id row.id) (λ _. row) m) ≡ count (has_id k) m
  count-replace row [] = refl
  count-replace row (x ∷ xs) = ground (arith, count-replace row xs)

  -- The message is there as often as the test says: once or not at all.
  abbrev Once : Bool → List ChatRow → Type 0
  Once there m = count (has_id k) m ≡ (if there then 1 else 0)

  absent : (i : ℕ) (m : List ChatRow) → i ≡ k → any (has_id i) m ≡ false → count (has_id k) m ≡ 0
  absent i m e h =
      let h' : any (has_id k) m ≡ false = ap (λ n. any (has_id n) m) (sym e) ∙ h in
      ground (arith, h', any-count m)

  present : (i : ℕ) (m : List ChatRow) → i ≡ k → any (has_id i) m ≡ true → any (has_id k) m ≡ true
  present i m e h = ap (λ n. any (has_id n) m) (sym e) ∙ h

  add-Once :
      (row : ChatRow) (m : List ChatRow) (there : Bool)
      → Once there m
      → any (has_id row.id) m ≡ false
      → Once (there || has_id k row) (m ++ row ∷ [])
  add-Once row m there h new = elim (Bool-cases (row.id == k)) [
    | inl t ↦
        ground (
          arith,
          t,
          h,
          absent row.id m (ground (arith, t)) new,
          count-append (has_id k) m (row ∷ []),
        )
    | inr f ↦ ground (arith, f, h, count-append (has_id k) m (row ∷ []))
  ]

  same-Once :
      (row : ChatRow) (m : List ChatRow) (there : Bool)
      → Once there m
      → any (has_id row.id) m ≡ true
      → Once (there || has_id k row) m
  same-Once row m there h old = elim (Bool-cases (row.id == k)) [
    | inl t ↦ ground (arith, t, h, present row.id m (ground (arith, t)) old, any-count m)
    | inr f ↦ ground (arith, f, h)
  ]

  put-Once :
      (row : ChatRow) (m : List ChatRow) (there : Bool)
      → Once there m
      → Once (there || has_id k row) (put row m)
  unfolding put
  put-Once row m there h =
      if_intro (Once (there || has_id k row)) (any (has_id row.id) m)
        (λ old. count-replace row m ∙ same-Once row m there h old)
        (λ new. add-Once row m there h new)

  map_of-Once :
      (rs m : List ChatRow) (there : Bool)
      → Once there m
      → Once (there || any (has_id k) rs) (map_of m rs)
  unfolding map_of
  map_of-Once [] m there h = ground (arith, h)
  map_of-Once (r ∷ rs) m there h =
      ground (arith, map_of-Once rs (put r m) (there || has_id k r) (put-Once r m there h))

  take_in-Once :
      (rs m : List ChatRow) (there : Bool)
      → Once there m
      → Once (there || any (has_id k) rs) (take_in m rs)
  unfolding take_in
  take_in-Once [] m there h = ground (arith, h)
  take_in-Once (r ∷ rs) m there h =
      let next : Once (there || has_id k r) (if any (has_id r.id) m then m else m ++ r ∷ []) =
        if_intro (Once (there || has_id k r)) (any (has_id r.id) m)
          (λ old. same-Once r m there h old) (λ new. add-Once r m there h new) in
      ground (
        arith,
        take_in-Once rs (if any (has_id r.id) m then m else m ++ r ∷ []) (there || has_id k r) next,
      )

  count-insert :
      (x : ChatRow) (ys : List ChatRow)
      → count (has_id k) (insert_sorted event_before x ys) ≡ count (has_id k) (x ∷ ys)
  count-insert x [] = refl
  count-insert x (y ∷ ys) = ground (arith, count-insert x ys)

  count-order_by :
      (xs : List ChatRow) → count (has_id k) (order_by event_before xs) ≡ count (has_id k) xs
  count-order_by [] = refl
  count-order_by (x ∷ xs) =
      ground (arith, count-insert x (order_by event_before xs), count-order_by xs)

  patch_row-id : (ps : List ReactionPatch) (x : ChatRow) → has_id k (patch_row ps x) ≡ has_id k x
  patch_row-id ps x = ground arith

  count-patch :
      (ps : List ReactionPatch) (xs : List ChatRow)
      → count (has_id k) (map (patch_row ps) xs) ≡ count (has_id k) xs
  count-patch ps [] = refl
  count-patch ps (x ∷ xs) = ground (arith, count-patch ps xs, patch_row-id ps x)

  -- After a merge each message of the current and of the incoming rows is there exactly once, and no
  -- other message is, however often the rows had it.
  pub merge_rows-Once :
      (current incoming : List ChatRow)
      → count (has_id k) (merge_rows current incoming)
        ≡ (if any (has_id k) current || any (has_id k) incoming then 1 else 0)
  unfolding merge_rows apply_reaction_patches
  merge_rows-Once current incoming =
      let known = map_of [] current in
      count-patch (patches_of known incoming) (order_by event_before (take_in known incoming))
      ∙ count-order_by (take_in known incoming)
      ∙ take_in-Once incoming known (any (has_id k) current) (map_of-Once current [] false refl)

-- What a row keeps when patches are applied to it.
abbrev pub Forward : List ChatRow → List ChatRow → Type 0
Forward [] [] = Unit
Forward (x ∷ xs) (y ∷ ys) =
    ((y.event_id ≡ x.event_id)
      × (y.id ≡ x.id)
      × (y.content ≡ x.content)
      × (or_zero x.reaction_revision ≤ or_zero y.reaction_revision))
    × Forward xs ys
Forward _ _ = ⊥

-- Patches, in any order and with any repetition, keep each row's place, message and content, and
-- never take the revision of its reactions back.
pub apply_reaction_patches-Forward :
    (rows : List ChatRow) (ps : List ReactionPatch) → Forward rows (apply_reaction_patches rows ps)
unfolding apply_reaction_patches
apply_reaction_patches-Forward [] ps = tt
apply_reaction_patches-Forward (x ∷ xs) ps = (ground arith, apply_reaction_patches-Forward xs ps)
