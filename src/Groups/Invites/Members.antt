-- ===== src/Groups/Invites/Members.antt =====
-- server/src/groups/invites.ts: the members of a group and the acceptance of invitations.
use rewind_app.Common.{
  ℕ, ◌+◌, ◌≡◌, ◌≢◌, refl, sym, ap, ◌∙◌, Bool, true, Option, none, some, List, ◌==◌, if◌then◌else◌,
  if_intro, find, any, count, DateValue, Result, ok, err, arith,
}
use rewind_app.Groups.Invites.{
  Store, InviteRow, InviteStatus, active, accepted, expired, InviteOutcome, joined, malformed,
  thrown, invite_expired, denied, replayed, member_of, is_member, max_members_of, accept_active,
  accept_code, accept_counted, accept_real_group_invite, asks_other,
}
use rewind_app.Groups.Throttle.{Scope, ThrottleRow, ThrottleError, consume_guess_attempt}
use rewind_app.Groups.Invites.Active.{
  Accepted-Bounded, Accepted-Joins, Bounded, Bounded-within, Joins, accept_active-Accepted,
  is_within, within-Bounded,
}

module _ (code_subject_hash : Scope → ℕ → ℕ) (profile_id account_id source_id : ℕ)
    (date : DateValue) (code requested : Option ℕ) (s : Store) where
  -- The end of an acceptance: as it was but for the throttle, or as the active invitation has it.
  data Ends : Store × InviteOutcome → Type 0 where
    stopped :
        {r : Store × InviteOutcome}
        → r.0.memberships ≡ s.memberships
        → r.0.metadata ≡ s.metadata
        → ((g : ℕ) → r.1 ≢ joined g)
        → Ends r
    reached :
        (now : ℕ) (i : InviteRow) (t : Store)
        → t.memberships ≡ s.memberships
        → t.metadata ≡ s.metadata
        → Ends (accept_active profile_id account_id now i t)

  module _ (now : ℕ) (t : Store) (mem : t.memberships ≡ s.memberships)
      (meta : t.metadata ≡ s.metadata) where
    status-Ends :
        (i : InviteRow) (st : InviteStatus)
        → Ends (elim st [
          | accepted ↦ (t, replayed)
          | expired ↦ (t, invite_expired)
          | active ↦ accept_active profile_id account_id now i t
        ])
    status-Ends i accepted = stopped mem meta (λ g e. cc e)
    status-Ends i expired = stopped mem meta (λ g e. cc e)
    status-Ends i active = reached now i t mem meta

    invite-Ends :
        (o : Option InviteRow)
        → Ends (elim o [
          | none ↦ (t, malformed)
          | some invite ↦
              if asks_other requested invite.group_id then (t, denied) else (elim invite.status [
                | accepted ↦ (t, replayed)
                | expired ↦ (t, invite_expired)
                | active ↦ accept_active profile_id account_id now invite t
              ])
        ])
    invite-Ends none = stopped mem meta (λ g e. cc e)
    invite-Ends (some i) =
        if_intro Ends (asks_other requested i.group_id) (λ _. stopped mem meta (λ g e. cc e))
          (λ _. status-Ends i i.status)

    code-Ends :
        (c : Option ℕ)
        → Ends (elim c [
          | none ↦ (t, malformed)
          | some n ↦ accept_code profile_id account_id now n requested t
        ])
    unfolding accept_code
    code-Ends none = stopped mem meta (λ g e. cc e)
    code-Ends (some n) = invite-Ends (find (λ (i : InviteRow). i.code == n) t.invites)

  guess-Ends :
      (guess : List ThrottleRow × Bool) (d : DateValue)
      → Ends (elim d [
        | none ↦ (s, thrown)
        | some now ↦ accept_counted profile_id account_id now code requested s guess
      ])
  unfolding accept_counted
  guess-Ends guess none = stopped refl refl (λ g e. cc e)
  guess-Ends guess (some now) =
      if_intro Ends guess.1 (λ _. code-Ends now (record s { throttles = guess.0 }) refl refl code)
        (λ _. stopped refl refl (λ g e. cc e))

  consumed-Ends :
      (q : Result ThrottleError (List ThrottleRow × Bool))
      → Ends (elim q [
        | err e ↦ (s, thrown)
        | ok guess ↦ (elim date [
          | none ↦ (s, thrown)
          | some now ↦ accept_counted profile_id account_id now code requested s guess
        ])
      ])
  consumed-Ends (err e) = stopped refl refl (λ g h. cc h)
  consumed-Ends (ok guess) = guess-Ends guess date

  accept-Ends : Ends (
      accept_real_group_invite code_subject_hash profile_id account_id source_id date code requested
        s)
  unfolding accept_real_group_invite
  accept-Ends =
      consumed-Ends (consume_guess_attempt code_subject_hash account_id source_id date s.throttles)

  Ends-Bounded : (r : Store × InviteOutcome) (k : ℕ) → Ends r → Bounded k s → Bounded k r.0
  Ends-Bounded r k (stopped m d _) h =
      λ most e. ground (arith, m, h most (ap (λ t. max_members_of k t) (sym d) ∙ e))
  Ends-Bounded r k (reached now i t m d) h =
      Accepted-Bounded profile_id account_id now i t _ k
        (accept_active-Accepted profile_id account_id now i t)
        (λ most e. ground (arith, m, h most (ap (λ x. max_members_of k x) (sym d) ∙ e)))

  Ends-Joins :
      (r : Store × InviteOutcome) (g : ℕ) → Ends r → r.1 ≡ joined g → Joins account_id g s r.0
  Ends-Joins r g (stopped _ _ never) h = absurd (never g h)
  Ends-Joins r g (reached now i t m d) h =
      let (a, b, c, e) =
        Accepted-Joins profile_id account_id now i t _ g
          (accept_active-Accepted profile_id account_id now i t) h in
      (
        ap (any (is_member g account_id)) (sym m) ∙ a,
        b,
        c ∙ ap (λ x. count (member_of g) x + 1) m,
        e ∙ d,
      )

  -- An acceptance, however it ends, leaves a group that had no more members than its limit with no
  -- more members than its limit.
  pub accept-within :
      (k : ℕ)
      → is_within k s ≡ true
      → is_within k
          (accept_real_group_invite code_subject_hash profile_id account_id source_id date code
            requested s).0
        ≡ true
  accept-within k h =
      let r =
        accept_real_group_invite code_subject_hash profile_id account_id source_id date code
          requested s in
      Bounded-within k r.0 (Ends-Bounded r k accept-Ends (within-Bounded k s h))

  -- An acceptance that joins a group adds the account, which was not a member of it, as one
  -- member, and leaves the limits of the groups as they are.
  pub accept-Joins :
      (g : ℕ)
      → (accept_real_group_invite code_subject_hash profile_id account_id source_id date code
          requested s).1
        ≡ joined g
      → Joins account_id g s
          (accept_real_group_invite code_subject_hash profile_id account_id source_id date code
            requested s).0
  accept-Joins g = Ends-Joins _ g accept-Ends
