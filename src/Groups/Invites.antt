-- ===== src/Groups/Invites.antt =====
-- server/src/groups/invites.ts: the acceptance of an invitation code.
-- A code is the number that stands for its normalised text, `none` where `rawCode` is no text or
-- its normalised text does not match `REAL_INVITE_CODE_PATTERN`. The digest of a throttle's subject
-- and the random identifier of a new profile are arguments.
pub mod Active
pub mod Members
pub mod Single
mod Tests
use rewind_app.Common.{
  ℕ, Bool, true, false, not, ◌&&◌, Option, none, some, List, [], ◌∷◌, ◌++◌, leb, ◌==◌, is_some,
  if◌then◌else◌, find, any, count, fmap, update, DateValue, ok, err, date_le,
}
use rewind_app.Groups.Throttle.{Scope, ThrottleRow, consume_guess_attempt}
use rewind_app.Tables.{GroupRow, CycleRow, Database}

pub data InviteStatus : Type 0 where
  active accepted expired : InviteStatus

pub record InviteRow : Type 0 where
  pub id : ℕ
  pub group_id : ℕ
  pub code : ℕ
  pub status : InviteStatus
  pub expires_at : DateValue
  pub accepted_by : Option ℕ
  pub accepted_at : Option ℕ

pub record MembershipRow : Type 0 where
  pub group_id : ℕ
  pub account_id : ℕ
  pub profile_id : ℕ
  pub is_owner : Bool
  pub accepted_at : ℕ

pub record MetadataRow : Type 0 where
  pub group_id : ℕ
  pub max_members : ℕ

pub record ProfileRow : Type 0 where
  pub id : ℕ
  pub account_id : ℕ

pub record SelectionRow : Type 0 where
  pub account_id : ℕ
  pub group_id : ℕ

pub record Store : Type 0 where
  pub database : Database
  pub throttles : List ThrottleRow
  pub invites : List InviteRow
  pub memberships : List MembershipRow
  pub metadata : List MetadataRow
  pub profiles : List ProfileRow
  pub selections : List SelectionRow

pub data InviteOutcome : Type 0 where
  joined : ℕ → InviteOutcome
  invite_expired replayed malformed denied full throttled thrown : InviteOutcome

abbrev pub member_of : ℕ → MembershipRow → Bool
member_of group_id m = m.group_id == group_id

abbrev pub is_member : ℕ → ℕ → MembershipRow → Bool
is_member group_id account_id m = (m.group_id == group_id) && (m.account_id == account_id)

abbrev pub max_members_of : ℕ → List MetadataRow → Option ℕ
max_members_of group_id rows =
    fmap (λ (m : MetadataRow). m.max_members)
      (find (λ (m : MetadataRow). m.group_id == group_id) rows)

-- Whether `getRealGroup` finds the group with its current cycle.
abbrev has_cycle : Database → ℕ → Option ℕ → Bool
has_cycle db group_id none = false
has_cycle db group_id (some cycle_id) =
    any (λ (c : CycleRow). (c.id == cycle_id) && (c.group_id == group_id)) db.cycles

abbrev pub group_loads : ℕ → ℕ → Store → Bool
group_loads account_id group_id s =
    any (is_member group_id account_id) s.memberships
    && is_some (max_members_of group_id s.metadata)
    && (elim (find (λ (g : GroupRow). g.id == group_id) s.database.groups) [
      | none ↦ false
      | some g ↦ has_cycle s.database group_id g.current_cycle_id
    ])

abbrev pub upsert_selection : ℕ → ℕ → List SelectionRow → List SelectionRow
upsert_selection account_id group_id rows =
    if any (λ (x : SelectionRow). x.account_id == account_id) rows
    then update (λ (x : SelectionRow). x.account_id == account_id)
        (λ x. record x { group_id = group_id }) rows
    else rows ++ record { account_id = account_id; group_id = group_id } ∷ []

-- The account's profile, and the profiles with it.
abbrev pub ensure_profile : ℕ → ℕ → List ProfileRow → List ProfileRow × ℕ
ensure_profile profile_id account_id rows =
    elim (find (λ (p : ProfileRow). p.account_id == account_id) rows) [
      | some p ↦ (rows, p.id)
      | none ↦ (rows ++ record { id = profile_id; account_id = account_id } ∷ [], profile_id)
    ]

abbrev pub is_active : InviteStatus → Bool
is_active active = true
is_active _ = false

abbrev pub accepted_row : ℕ → ℕ → InviteRow → InviteRow
accepted_row account_id now i = record i {
  status = accepted;
  accepted_by = some account_id;
  accepted_at = some now;
}

-- The statements of a join, and its commit if the group can be loaded.
unfoldable pub join_group : ℕ → ℕ → ℕ → InviteRow → Store → Store
join_group profile_id account_id now invite s =
    let profile = ensure_profile profile_id account_id s.profiles in
    record s {
      profiles = profile.0;
      memberships =
          s.memberships
          ++ record {
            group_id = invite.group_id;
            account_id = account_id;
            profile_id = profile.1;
            is_owner = false;
            accepted_at = now;
          }
            ∷ [];
      invites =
          update (λ (i : InviteRow). (i.id == invite.id) && is_active i.status)
            (accepted_row account_id now) s.invites;
      selections = upsert_selection account_id invite.group_id s.selections;
    }

unfoldable pub join_checked : ℕ → ℕ → ℕ → InviteRow → Store → Store × InviteOutcome
unfolding join_group
join_checked profile_id account_id now invite s =
    let s' = join_group profile_id account_id now invite s in
    if group_loads account_id invite.group_id s' then (s', joined invite.group_id) else (s, thrown)

-- The checks of an active invitation, in their order.
unfoldable pub accept_active : ℕ → ℕ → ℕ → InviteRow → Store → Store × InviteOutcome
unfolding join_checked
accept_active profile_id account_id now invite s =
    if date_le invite.expires_at now
    then (
      record s {
        invites =
            update (λ (i : InviteRow). i.id == invite.id) (λ i. record i { status = expired })
              s.invites;
      },
      invite_expired,
    )
    else (elim (max_members_of invite.group_id s.metadata) [
      | none ↦ (s, denied)
      | some most ↦
          if any (is_member invite.group_id account_id) s.memberships
          then (s, replayed)
          else (if leb most (count (member_of invite.group_id) s.memberships)
              then (s, full)
              else join_checked profile_id account_id now invite s)
    ])

abbrev pub asks_other : Option ℕ → ℕ → Bool
asks_other none group_id = false
asks_other (some asked) group_id = not (asked == group_id)

unfoldable pub accept_code : ℕ → ℕ → ℕ → ℕ → Option ℕ → Store → Store × InviteOutcome
unfolding accept_active
accept_code profile_id account_id now code requested s =
    elim (find (λ (i : InviteRow). i.code == code) s.invites) [
      | none ↦ (s, malformed)
      | some invite ↦
          if asks_other requested invite.group_id then (s, denied) else (elim invite.status [
            | accepted ↦ (s, replayed)
            | expired ↦ (s, invite_expired)
            | active ↦ accept_active profile_id account_id now invite s
          ])
    ]

-- `acceptRealGroupInvite` at a valid instant: the guess is committed before the code is looked at.
unfoldable pub accept_counted :
    ℕ → ℕ → ℕ → Option ℕ → Option ℕ → Store → List ThrottleRow × Bool → Store × InviteOutcome
unfolding accept_code
accept_counted profile_id account_id now code requested s guess =
    let s' = record s { throttles = guess.0 } in
    if guess.1
    then (elim code [
      | none ↦ (s', malformed)
      | some c ↦ accept_code profile_id account_id now c requested s'
    ])
    else (s', throttled)

unfoldable pub accept_real_group_invite :
    (Scope → ℕ → ℕ) → ℕ → ℕ → ℕ → DateValue → Option ℕ → Option ℕ → Store → Store × InviteOutcome
unfolding accept_counted consume_guess_attempt
accept_real_group_invite code_subject_hash profile_id account_id source_id date code requested s =
    elim (consume_guess_attempt code_subject_hash account_id source_id date s.throttles) [
      | err e ↦ (s, thrown)
      | ok guess ↦ (elim date [
        | none ↦ (s, thrown)
        | some now ↦ accept_counted profile_id account_id now code requested s guess
      ])
    ]
