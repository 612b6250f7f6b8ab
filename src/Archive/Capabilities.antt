-- ===== src/Archive/Capabilities.antt =====
-- server/src/archive/capabilities.ts: short-lived capabilities for a released film or clip. The
-- digests of the random token and of the session token are arguments; a Map keeps its keys in the
-- order of their insertion.
pub mod Evicted
pub mod Resolved
pub mod Kept
pub mod Authorized
mod Tests
use rewind_app.Common.{
  ℕ, ◌+◌, Bool, true, false, not, ◌&&◌, Option, none, some, List, [], ◌∷◌, ◌++◌, ltb, leb, ◌==◌,
  same, zero, suc, is_some, if◌then◌else◌, keep, find, any, length, drop, update, DateValue,
}
use rewind_app.Tables.{
  JobKind, clip, film, ReleaseStatus, published, unpublished, CycleRow, ContributionRow,
  MediaJobRow, is_ready, is_film, Database,
}
use rewind_app.Auth.Sessions.{SessionRow}

abbrev pub media_capability_ttl_ms : ℕ
media_capability_ttl_ms = 120_000

abbrev pub media_capability_max_count : ℕ
media_capability_max_count = 4096

pub data Purpose : Type 0 where
  play download : Purpose

pub record MediaCapability : Type 0 where
  pub session_hash : ℕ
  pub account_id : ℕ
  pub group_id : ℕ
  pub member_id : ℕ
  pub job_id : ℕ
  pub kind : JobKind
  pub purpose : Purpose
  pub output_path : ℕ
  pub sha256 : ℕ
  pub byte_length : ℕ
  pub expires_at : ℕ

-- An entry of the map of grants.
pub record Grant : Type 0 where
  pub key : ℕ
  pub grant : MediaCapability

abbrev pub has_key : ℕ → Grant → Bool
has_key k g = g.key == k

abbrev pub is_current : ℕ → Grant → Bool
is_current now g = not (leb g.grant.expires_at now)

-- `while (size >= MAX) delete first`, on fuel.
unfoldable pub evict : ℕ → List Grant → List Grant
evict zero gs = gs
evict (suc fuel) gs =
    let rest = evict fuel (drop 1 gs) in
    if leb media_capability_max_count (length gs) then rest else gs

unfoldable pub set_grant : Grant → List Grant → List Grant
set_grant g gs =
    if any (has_key g.key) gs then update (has_key g.key) (λ (x : Grant). g) gs else gs ++ g ∷ []

-- `asset` has its session and expiry replaced.
abbrev pub granted : MediaCapability → ℕ → ℕ → MediaCapability
granted asset session_hash now = record asset {
  session_hash = session_hash;
  expires_at = now + media_capability_ttl_ms;
}

unfoldable pub issue : MediaCapability → ℕ → ℕ → ℕ → List Grant → List Grant
unfolding evict set_grant
issue asset session_hash key now gs =
    let current = keep (is_current now) gs in
    set_grant (record { key = key; grant = granted asset session_hash now })
      (evict (length current) current)

pub record MembershipRow : Type 0 where
  pub account_id : ℕ
  pub group_id : ℕ
  pub profile_id : ℕ
  pub accepted : Bool

pub record SelectionRow : Type 0 where
  pub account_id : ℕ
  pub group_id : ℕ

pub record Access : Type 0 where
  pub sessions : List SessionRow
  pub memberships : List MembershipRow
  pub selections : List SelectionRow
  pub tables : Database

abbrev pub is_open_session : MediaCapability → ℕ → SessionRow → Bool
is_open_session g now s =
    (s.token_hash == g.session_hash)
    && (s.account_id == g.account_id)
    && not (is_some s.revoked_at)
    && ltb now s.idle_expires_at
    && ltb now s.absolute_expires_at

abbrev pub is_member : MediaCapability → MembershipRow → Bool
is_member g m =
    (m.account_id == g.account_id)
    && (m.group_id == g.group_id)
    && (m.profile_id == g.member_id)
    && m.accepted

abbrev pub is_selected : MediaCapability → SelectionRow → Bool
is_selected g x = (x.account_id == g.account_id) && (x.group_id == g.group_id)

unfoldable pub has_session : Access → MediaCapability → ℕ → Bool
has_session a g now =
    any (is_open_session g now) a.sessions
    && any (is_member g) a.memberships
    && any (is_selected g) a.selections

abbrev is_published : ReleaseStatus → Bool
is_published published = true
is_published unpublished = false

abbrev pub is_released : ℕ → ℕ → CycleRow → Bool
is_released cycle_id group_id c =
    (c.id == cycle_id)
    && (c.group_id == group_id)
    && is_published c.release_status
    && is_some c.release_published_at

abbrev pub same_kind : JobKind → JobKind → Bool
same_kind film film = true
same_kind clip clip = true
same_kind _ _ = false

-- The row of the output, less its cycle.
abbrev pub is_output : MediaCapability → MediaJobRow → Bool
is_output g j =
    (j.id == g.job_id)
    && (j.group_id == g.group_id)
    && same_kind j.kind g.kind
    && is_ready j.status
    && not (is_some j.deleted_at)
    && same j.output_path (some g.output_path)
    && same j.output_sha256 (some g.sha256)
    && same j.output_bytes (some g.byte_length)
    && is_some j.output_verified_at

-- The cycle of a film, or of the contribution of a clip, which is the member's own.
unfoldable pub is_servable : Database → MediaCapability → MediaJobRow → Bool
is_servable db g j =
    if is_film j.kind
    then any (λ (c : CycleRow). same j.cycle_id (some c.id) && is_released c.id j.group_id c)
        db.cycles
    else any
        (λ (x : ContributionRow).
          same j.contribution_id (some x.id)
          && (x.member_id == g.member_id)
          && not (is_some x.deleted_at)
          && any (is_released x.cycle_id j.group_id) db.cycles)
        db.contributions

unfoldable pub has_output : Database → MediaCapability → Bool
unfolding is_servable
has_output db g = any (λ (j : MediaJobRow). is_output g j && is_servable db g j) db.jobs

-- A presented session, if there is one, is that of the grant.
abbrev pub presents : Option ℕ → MediaCapability → Bool
presents none g = true
presents (some session_hash) g = session_hash == g.session_hash

abbrev pub answer_of : Bool → MediaCapability → Option MediaCapability
answer_of allowed g = if allowed then some g else none

-- `key` is the digest of a well-formed token, `now` is `none` where the date does not parse.
unfoldable pub resolve :
    Access → Option ℕ → DateValue → Option ℕ → List Grant → List Grant × Option MediaCapability
unfolding has_session has_output
resolve a none now presented gs = (gs, none)
resolve a (some key) none presented gs = (gs, none)
resolve a (some key) (some now) presented gs = elim (find (has_key key) gs) [
  | none ↦ (keep (λ (g : Grant). not (has_key key g)) gs, none)
  | some g ↦
      if is_current now g
      then (
        gs,
        answer_of
            (presents presented g.grant && has_session a g.grant now && has_output a.tables g.grant)
            g.grant,
      )
      else (keep (λ (g : Grant). not (has_key key g)) gs, none)
]
