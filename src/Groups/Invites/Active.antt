-- ===== src/Groups/Invites/Active.antt =====
-- server/src/groups/invites.ts: how the acceptance of an active invitation ends.
use rewind_app.Common.{
  ℕ, ◌+◌, ◌≤◌, ◌<◌, ◌≡◌, ◌≢◌, refl, sym, ap, ◌∙◌, subst, inl, inr, Bool, true, false, Option, none,
  some, [], ◌∷◌, leb, ◌==◌, ==_refl, if◌then◌else◌, if_intro, any, any-append, count, count-append,
  Option-cases, Bool-cases, arith, date_le,
}
use rewind_app.Groups.Invites.{
  Store, InviteRow, InviteOutcome, joined, denied, replayed, full, MembershipRow, member_of,
  is_member, max_members_of, join_group, join_checked, accept_active, ensure_profile, group_loads,
}

-- The group, if it has a limit, has no more members than it.
abbrev pub is_within : ℕ → Store → Bool
is_within k s = elim (max_members_of k s.metadata) [
  | none ↦ true
  | some most ↦ leb (count (member_of k) s.memberships) most
]

abbrev pub Bounded : ℕ → Store → Type 0
Bounded k s =
    (most : ℕ) → max_members_of k s.metadata ≡ some most → count (member_of k) s.memberships ≤ most

pub within-Bounded : (k : ℕ) (s : Store) → is_within k s ≡ true → Bounded k s
within-Bounded k s h most e = ground (arith, h, e)

pub Bounded-within : (k : ℕ) (s : Store) → Bounded k s → is_within k s ≡ true
Bounded-within k s h = elim (Option-cases (max_members_of k s.metadata)) [
  | inl e ↦ ground (arith, e)
  | inr (most, e) ↦ ground (arith, e, h most e)
]

-- The account has joined the group, which it was not in and which was not full.
abbrev pub Joins : ℕ → ℕ → Store → Store → Type 0
Joins account_id g s s' =
    (any (is_member g account_id) s.memberships ≡ false)
    × (any (is_member g account_id) s'.memberships ≡ true)
    × (count (member_of g) s'.memberships ≡ count (member_of g) s.memberships + 1)
    × (s'.metadata ≡ s.metadata)

module _ (profile_id account_id now : ℕ) (i : InviteRow) (s : Store) where
  new_member : MembershipRow
  new_member = record {
    group_id = i.group_id;
    account_id = account_id;
    profile_id = (ensure_profile profile_id account_id s.profiles).1;
    is_owner = false;
    accepted_at = now;
  }

  join_group-count :
      (k : ℕ)
      → count (member_of k) (join_group profile_id account_id now i s).memberships
        ≡ count (member_of k) s.memberships + (if i.group_id == k then 1 else 0)
  unfolding join_group new_member
  join_group-count k = ground (arith, count-append (member_of k) s.memberships (new_member ∷ []))

  join_group-any :
      any (is_member i.group_id account_id) (join_group profile_id account_id now i s).memberships
      ≡ true
  unfolding join_group new_member
  join_group-any = ground (
    arith,
    any-append (is_member i.group_id account_id) s.memberships (new_member ∷ []),
    ==_refl i.group_id,
    ==_refl account_id,
  )

  -- An active invitation is refused with the members as they were, or passes every check.
  pub data Accepted : Store × InviteOutcome → Type 0 where
    refused :
        {r : Store × InviteOutcome}
        → r.0.memberships ≡ s.memberships
        → r.0.metadata ≡ s.metadata
        → ((g : ℕ) → r.1 ≢ joined g)
        → Accepted r
    passed :
        {r : Store × InviteOutcome}
        → (most : ℕ) → max_members_of i.group_id s.metadata ≡ some most
        → any (is_member i.group_id account_id) s.memberships ≡ false
        → count (member_of i.group_id) s.memberships < most
        → r ≡ (join_group profile_id account_id now i s, joined i.group_id)
        → Accepted r

  join_checked-Accepted :
      (most : ℕ)
      → max_members_of i.group_id s.metadata ≡ some most
      → any (is_member i.group_id account_id) s.memberships ≡ false
      → count (member_of i.group_id) s.memberships < most
      → Accepted (join_checked profile_id account_id now i s)
  unfolding join_checked
  join_checked-Accepted most em new room =
      if_intro Accepted
        (group_loads account_id i.group_id (join_group profile_id account_id now i s))
        (λ _. passed most em new room refl) (λ _. refused refl refl (λ g e. cc e))

  abbrev roomy : Option ℕ → Store × InviteOutcome
  roomy o = elim o [
    | none ↦ (s, denied)
    | some most ↦
        if any (is_member i.group_id account_id) s.memberships
        then (s, replayed)
        else (if leb most (count (member_of i.group_id) s.memberships)
            then (s, full)
            else join_checked profile_id account_id now i s)
  ]

  roomy-Accepted : (o : Option ℕ) → max_members_of i.group_id s.metadata ≡ o → Accepted (roomy o)
  roomy-Accepted none e = refused refl refl (λ g q. cc q)
  roomy-Accepted (some most) e =
      if_intro Accepted (any (is_member i.group_id account_id) s.memberships)
        (λ _. refused refl refl (λ g q. cc q))
        (λ new.
          if_intro Accepted (leb most (count (member_of i.group_id) s.memberships))
            (λ _. refused refl refl (λ g q. cc q))
            (λ room. join_checked-Accepted most e new (ground (arith, room))))

  pub accept_active-Accepted : Accepted (accept_active profile_id account_id now i s)
  unfolding accept_active
  accept_active-Accepted =
      if_intro Accepted (date_le i.expires_at now) (λ _. refused refl refl (λ g e. cc e))
        (λ _. roomy-Accepted (max_members_of i.group_id s.metadata) refl)

  pub Accepted-Bounded :
      (r : Store × InviteOutcome) (k : ℕ) → Accepted r → Bounded k s → Bounded k r.0
  unfolding join_group
  Accepted-Bounded r k (refused m d _) h most e =
      ground (arith, m, h most (ap (λ t. max_members_of k t) (sym d) ∙ e))
  Accepted-Bounded r k (passed limit el new room q) h most e =
      let d : r.0.metadata ≡ s.metadata = ground (arith, q) in
      let e' : max_members_of k s.metadata ≡ some most = ap (λ t. max_members_of k t) (sym d) ∙ e in
      let c : count (member_of k) r.0.memberships
          ≡ count (member_of k) s.memberships + (if i.group_id == k then 1 else 0) =
        ap (λ (t : Store × InviteOutcome). count (member_of k) t.0.memberships) q
        ∙ join_group-count k in
      elim (Bool-cases (i.group_id == k)) [
        | inl t ↦
            (let same_group : i.group_id ≡ k = ground (arith, t) in
              let limits : max_members_of k s.metadata ≡ some limit =
                ap (λ n. max_members_of n s.metadata) (sym same_group) ∙ el in
              let room' : count (member_of k) s.memberships < limit =
                ground (arith, ap (λ n. count (member_of n) s.memberships) same_group, room) in
              ground (arith, c, t, room', limits, e'))
        | inr f ↦ ground (arith, c, f, h most e')
      ]

  pub Accepted-Joins :
      (r : Store × InviteOutcome) (g : ℕ) → Accepted r → r.1 ≡ joined g → Joins account_id g s r.0
  unfolding join_group
  Accepted-Joins r g (refused _ _ never) h = absurd (never g h)
  Accepted-Joins r g (passed limit el new room q) h =
      let own : i.group_id ≡ g = ground (arith, q, h) in
      subst (λ n. Joins account_id n s r.0) own
        (
          new,
          ap (λ (t : Store × InviteOutcome). any (is_member i.group_id account_id) t.0.memberships)
                q
              ∙ join_group-any,
          ap (λ (t : Store × InviteOutcome). count (member_of i.group_id) t.0.memberships) q
              ∙ join_group-count i.group_id
              ∙ ground (arith, ==_refl i.group_id),
          ground (arith, q),
        )
