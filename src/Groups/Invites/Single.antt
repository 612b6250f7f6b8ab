-- ===== src/Groups/Invites/Single.antt =====
-- server/src/groups/invites.ts: an invitation is accepted once.
use rewind_app.Common.{
  ℕ, ◌+◌, ◌≤◌, ◌≡◌, ◌≢◌, refl, sym, ap, ◌∙◌, subst, ◌⊎◌, inl, inr, Bool, true, false, not, ◌&&◌,
  Option, none, some, List, [], ◌∷◌, ◌==◌, ==_refl, ==_iff, same, if◌then◌else◌, find, find-update,
  update, DateValue, Option-cases, Result-cases, Bool-cases, arith,
}
use rewind_app.Groups.Invites.{
  Store, InviteRow, InviteStatus, active, accepted, expired, InviteOutcome, joined, replayed,
  malformed, denied, full, throttled, thrown, invite_expired, is_active, accepted_row, join_checked,
  join_group, accept_active, accept_code, accept_counted, accept_real_group_invite, asks_other,
}
use rewind_app.Groups.Throttle.{Scope, consume_guess_attempt}
use rewind_app.Groups.Invites.Active.{Accepted, refused, passed, accept_active-Accepted}

-- The invitation of a code, if there is one, is not active.
abbrev pub is_spent : ℕ → List InviteRow → Bool
is_spent c rows = elim (find (λ (i : InviteRow). i.code == c) rows) [
  | none ↦ false
  | some i ↦ not (is_active i.status)
]

module _ (profile_id account_id now c : ℕ) (s : Store) where
  join_group-is_spent :
      (i : InviteRow)
      → find (λ (x : InviteRow). x.code == c) s.invites ≡ some i
      → i.status ≡ active
      → is_spent c (join_group profile_id account_id now i s).invites ≡ true
  unfolding join_group
  join_group-is_spent i e a = ground (
    arith,
    e,
    a,
    ==_refl i.id,
    find-update (λ (x : InviteRow). x.code == c)
        (λ (x : InviteRow). (x.id == i.id) && is_active x.status) (accepted_row account_id now)
        s.invites (λ x. refl),
  )

  passed_spent :
      (i : InviteRow) (g : ℕ) (r : Store × InviteOutcome)
      → Accepted profile_id account_id now i s r
      → find (λ (x : InviteRow). x.code == c) s.invites ≡ some i
      → i.status ≡ active
      → r.1 ≡ joined g
      → is_spent c r.0.invites ≡ true
  passed_spent i g r (refused _ _ never) e a h = absurd (never g h)
  passed_spent i g r (passed _ _ _ _ q) e a h =
      ap (λ (t : Store × InviteOutcome). is_spent c t.0.invites) q ∙ join_group-is_spent i e a

  status_spent :
      (i : InviteRow) (g : ℕ) (st : InviteStatus)
      → i.status ≡ st
      → find (λ (x : InviteRow). x.code == c) s.invites ≡ some i
      → (elim st as (λ _. Store × InviteOutcome) [
        | accepted ↦ (s, replayed)
        | expired ↦ (s, invite_expired)
        | active ↦ accept_active profile_id account_id now i s
      ]).1
        ≡ joined g
      → is_spent c
          (elim st as (λ _. Store × InviteOutcome) [
            | accepted ↦ (s, replayed)
            | expired ↦ (s, invite_expired)
            | active ↦ accept_active profile_id account_id now i s
          ]).0.invites
        ≡ true
  status_spent i g accepted q e h = absurd (cc h)
  status_spent i g expired q e h = absurd (cc h)
  status_spent i g active q e h =
      passed_spent i g _ (accept_active-Accepted profile_id account_id now i s) e q h

  accept_code-is_spent :
      (requested : Option ℕ) (g : ℕ)
      → (accept_code profile_id account_id now c requested s).1 ≡ joined g
      → is_spent c (accept_code profile_id account_id now c requested s).0.invites ≡ true
  unfolding accept_code
  accept_code-is_spent requested g h =
      elim (Option-cases (find (λ (x : InviteRow). x.code == c) s.invites)) [
        | inl e ↦ absurd (ground (arith, h, e))
        | inr (i, e) ↦ elim (Bool-cases (asks_other requested i.group_id)) [
          | inl t ↦ absurd (ground (arith, h, e, t))
          | inr f ↦ ground (arith, e, f, status_spent i g i.status refl e (ground (arith, h, e, f)))
        ]
      ]

  spent_refused :
      (requested : Option ℕ) (g : ℕ)
      → is_spent c s.invites ≡ true
      → (accept_code profile_id account_id now c requested s).1 ≢ joined g
  unfolding accept_code
  spent_refused requested g h e = ground (arith, h, e)

module _ (code_subject_hash : Scope → ℕ → ℕ) (profile_id account_id source_id : ℕ)
    (date : DateValue) (c : ℕ) (requested : Option ℕ) (s : Store) where
  accept-is_spent :
      (g : ℕ)
      → (accept_real_group_invite code_subject_hash profile_id account_id source_id date
          (some c)
          requested
          s).1
        ≡ joined g
      → is_spent c
          (accept_real_group_invite code_subject_hash profile_id account_id source_id date
            (some c)
            requested
            s).0.invites
        ≡ true
  unfolding accept_real_group_invite accept_counted
  accept-is_spent g h =
      elim (Result-cases
        (consume_guess_attempt code_subject_hash account_id source_id date s.throttles)) [
          | inl (f, e) ↦ absurd (ground (arith, h, e))
          | inr (guess, e) ↦ elim (Option-cases date) [
            | inl n ↦ absurd (ground (arith, h, e, n))
            | inr (now, n) ↦ ground (
              arith,
              h,
              e,
              n,
              accept_code-is_spent profile_id account_id now c (record s { throttles = guess.0 })
                  requested g,
            )
          ]
        ]

  accept-spent :
      (g : ℕ)
      → is_spent c s.invites ≡ true
      → (accept_real_group_invite code_subject_hash profile_id account_id source_id date
          (some c)
          requested
          s).1
        ≢ joined g
  unfolding accept_real_group_invite accept_counted
  accept-spent g h k =
      elim (Result-cases
        (consume_guess_attempt code_subject_hash account_id source_id date s.throttles)) [
          | inl (f, e) ↦ absurd (ground (arith, k, e))
          | inr (guess, e) ↦ elim (Option-cases date) [
            | inl n ↦ absurd (ground (arith, k, e, n))
            | inr (now, n) ↦
                spent_refused profile_id account_id now c (record s { throttles = guess.0 })
                  requested g h (ground (arith, k, e, n))
          ]
        ]

-- An update that leaves no row active keeps a spent code spent.
spent-update :
    (c : ℕ) (p : InviteRow → Bool) (f : InviteRow → InviteRow) (rows : List InviteRow)
    → ((x : InviteRow) → (f x).code ≡ x.code)
    → ((x : InviteRow) → is_active (f x).status ≡ false)
    → is_spent c rows ≡ true
    → is_spent c (update p f rows) ≡ true
spent-update c p f rows k a h = elim (Option-cases (find (λ (i : InviteRow). i.code == c) rows)) [
  | inl e ↦ absurd (ground (arith, e, h))
  | inr (i, e) ↦ ground (
    arith,
    e,
    h,
    a i,
    find-update (λ (x : InviteRow). x.code == c) p f rows (λ x. ap (λ n. n == c) (k x)),
  )
]

module _ (profile_id account_id now c : ℕ) where
  accept_active-spent :
      (i : InviteRow) (s : Store)
      → is_spent c s.invites ≡ true
      → is_spent c (accept_active profile_id account_id now i s).0.invites ≡ true
  unfolding accept_active join_checked join_group
  accept_active-spent i s h =
      let gone =
        spent-update c (λ (x : InviteRow). x.id == i.id) (λ x. record x { status = expired })
          s.invites (λ x. refl) (λ x. refl) h in
      let taken =
        spent-update c (λ (x : InviteRow). (x.id == i.id) && is_active x.status)
          (accepted_row account_id now) s.invites (λ x. refl) (λ x. refl) h in
      ground (arith, gone, taken, h)

  accept_code-spent :
      (code : ℕ) (requested : Option ℕ) (s : Store)
      → is_spent c s.invites ≡ true
      → is_spent c (accept_code profile_id account_id now code requested s).0.invites ≡ true
  unfolding accept_code
  accept_code-spent code requested s h =
      elim (Option-cases (find (λ (x : InviteRow). x.code == code) s.invites)) [
        | inl e ↦ ground (arith, h, e)
        | inr (i, e) ↦ ground (arith, h, e, accept_active-spent i s h)
      ]

same-some : (o : Option ℕ) (c : ℕ) → same o (some c) ≡ true → o ≡ some c
same-some none c t = absurd (cc t)
same-some (some n) c t = ap some ((==_iff n c).0 t)

-- A call to accept an invitation, with the identifier for a new profile and the instant of the call.
pub record AcceptCall : Type 0 where
  pub profile_id : ℕ
  pub account_id : ℕ
  pub source_id : ℕ
  pub date : DateValue
  pub code : Option ℕ
  pub requested : Option ℕ

module _ (code_subject_hash : Scope → ℕ → ℕ) where
  abbrev pub run_accept : AcceptCall → Store → Store × InviteOutcome
  run_accept k =
      accept_real_group_invite code_subject_hash k.profile_id k.account_id k.source_id k.date k.code
        k.requested

  run_accept-spent :
      (k : AcceptCall) (c : ℕ) (s : Store)
      → is_spent c s.invites ≡ true
      → is_spent c (run_accept k s).0.invites ≡ true
  unfolding accept_real_group_invite accept_counted
  run_accept-spent k c s h =
      elim (Result-cases
        (consume_guess_attempt code_subject_hash k.account_id k.source_id k.date s.throttles)) [
          | inl (f, e) ↦ ground (arith, h, e)
          | inr (guess, e) ↦ elim (Option-cases k.date) [
            | inl n ↦ ground (arith, h, e, n)
            | inr (now, n) ↦ elim (Option-cases k.code) [
              | inl m ↦ ground (arith, h, e, n, m)
              | inr (code, m) ↦ ground (
                arith,
                h,
                e,
                n,
                m,
                accept_code-spent k.profile_id k.account_id now c code k.requested
                    (record s { throttles = guess.0 }) h,
              )
            ]
          ]
        ]

  abbrev joins : ℕ → AcceptCall → InviteOutcome → ℕ
  joins c k (joined group_id) = if same k.code (some c) then 1 else 0
  joins c k _ = 0

  -- How many calls of a sequence join a group with the code `c`.
  unfoldable pub joined_with : ℕ → List AcceptCall → Store → ℕ
  joined_with c [] s = 0
  joined_with c (k ∷ ks) s = joins c k (run_accept k s).1 + joined_with c ks (run_accept k s).0

  joins_cases :
      (c : ℕ) (k : AcceptCall) (r : InviteOutcome)
      → (joins c k r ≡ 0) ⊎ ((g : ℕ) × (r ≡ joined g) × (k.code ≡ some c))
  joins_cases c k (joined g) = elim (Bool-cases (same k.code (some c))) [
    | inl t ↦ inr (g, refl, same-some k.code c t)
    | inr f ↦ inl (ground (arith, f))
  ]
  joins_cases c k invite_expired = inl refl
  joins_cases c k replayed = inl refl
  joins_cases c k malformed = inl refl
  joins_cases c k denied = inl refl
  joins_cases c k full = inl refl
  joins_cases c k throttled = inl refl
  joins_cases c k thrown = inl refl

  joins-le : (c : ℕ) (k : AcceptCall) (r : InviteOutcome) → joins c k r ≤ 1
  joins-le c k r = ground arith

  run_accept-is_spent :
      (k : AcceptCall) (c g : ℕ) (s : Store)
      → (run_accept k s).1 ≡ joined g
      → k.code ≡ some c
      → is_spent c (run_accept k s).0.invites ≡ true
  run_accept-is_spent k c g s j m =
      let call = λ (code : Option ℕ). run_accept (record k { code = code }) s in
      let j' : (call (some c)).1 ≡ joined g = subst (λ x. (call x).1 ≡ joined g) m j in
      subst (λ x. is_spent c (call x).0.invites ≡ true) (sym m)
        (accept-is_spent code_subject_hash k.profile_id k.account_id k.source_id k.date c
          k.requested s g j')

  run_accept_refused :
      (k : AcceptCall) (c g : ℕ) (s : Store)
      → is_spent c s.invites ≡ true
      → k.code ≡ some c
      → (run_accept k s).1 ≢ joined g
  run_accept_refused k c g s h m j =
      let call = λ (code : Option ℕ). run_accept (record k { code = code }) s in
      accept-spent code_subject_hash k.profile_id k.account_id k.source_id k.date c k.requested s g
        h (subst (λ x. (call x).1 ≡ joined g) m j)

  joined_with-zero :
      (c : ℕ) (ks : List AcceptCall) (s : Store)
      → is_spent c s.invites ≡ true
      → joined_with c ks s ≡ 0
  unfolding joined_with
  joined_with-zero c [] s h = refl
  joined_with-zero c (k ∷ ks) s h =
      let rest = joined_with-zero c ks (run_accept k s).0 (run_accept-spent k c s h) in
      elim (joins_cases c k (run_accept k s).1) [
        | inl z ↦ omega (arith, rest, z)
        | inr (g, j, m) ↦ absurd (run_accept_refused k c g s h m j)
      ]

  -- Of any sequence of calls to accept invitations, of whatever codes, by whomever and whenever, at
  -- most one joins a group with a given code.
  pub accept_once : (c : ℕ) (ks : List AcceptCall) (s : Store) → joined_with c ks s ≤ 1
  unfolding joined_with
  accept_once c [] s = omega arith
  accept_once c (k ∷ ks) s = elim (joins_cases c k (run_accept k s).1) [
    | inl z ↦ omega (arith, accept_once c ks (run_accept k s).0, z)
    | inr (g, j, m) ↦
        let rest = joined_with-zero c ks (run_accept k s).0 (run_accept-is_spent k c g s j m) in
        let one : joins c k (run_accept k s).1 ≤ 1 = joins-le c k (run_accept k s).1 in
        omega (arith, rest, one)
  ]
