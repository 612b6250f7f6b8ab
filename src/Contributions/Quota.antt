-- ===== src/Contributions/Quota.antt =====
-- server/src/contributions/index.ts: the seven-day allowance windows of one cycle and member.
-- The table `contribution_quota_windows` is a list of rows, changed by each statement as its SQL
-- says. Identifiers are numbers; durations are doubles, and the `max_seconds` column is a whole
-- number of seconds. `windowId` is a digest of its three arguments, from node's crypto: here
-- it is a parameter.
pub mod Windows
pub mod Rows
pub mod Reserve
mod Tests
use rewind_app.Common.{
  ℕ, ◌+◌, ◌-◌, ◌*◌, ◌/◌, Bool, ◌&&◌, ◌||◌, Option, none, some, List, [], ◌∷◌, ◌++◌, ltb, leb, ◌==◌,
  min, max, if◌then◌else◌, find, any, count, update, DateValue, Result, ok, err, ◌>>=◌, ◌>>◌, plus,
}

abbrev pub max_contribution_count : ℕ
max_contribution_count = 5

abbrev pub max_contribution_seconds : ℕ
max_contribution_seconds = 30

abbrev pub max_contribution_duration_seconds : ℕ
max_contribution_duration_seconds = 15

abbrev pub contribution_quota_window_ms : ℕ
contribution_quota_window_ms = 7 * 24 * 60 * 60 * 1000

-- A double that is not negative stands as the whole number of its 64 bits: 0 is the double 0, and the
-- order of the doubles is that of the numbers. The arithmetic of doubles, of JavaScript and of the
-- database's DOUBLE PRECISION, is an argument: the double of a whole number, the rounded sum, and
-- `MAX(0, a - b)` with the rounded difference.
pub record Doubles : Type 0 where
  pub of_whole : ℕ → ℕ
  pub add : ℕ → ℕ → ℕ
  pub take_off : ℕ → ℕ → ℕ

-- `inactive`, `invalid_instant` and `out_of_range` are thrown as a RangeError, and `not_persisted`
-- as an Error; the other two are returned as reasons.
pub data QuotaError : Type 0 where
  inactive invalid_instant out_of_range not_persisted : QuotaError
  quota_exceeded invalid_duration : QuotaError

pub record QuotaCycle : Type 0 where
  pub id : ℕ
  pub starts_at : DateValue
  pub ends_at : DateValue
  pub max_count : ℕ
  pub max_seconds : ℕ

pub record WindowBoundary : Type 0 where
  pub starts_at : ℕ
  pub ends_at : ℕ

-- A row of `contribution_quota_windows`.
pub record QuotaWindow : Type 0 where
  pub id : ℕ
  pub cycle_id : ℕ
  pub member_id : ℕ
  pub starts_at : ℕ
  pub ends_at : ℕ
  pub max_count : ℕ
  pub max_seconds : ℕ
  pub count_used : ℕ
  pub seconds_used : ℕ
  pub deletions_used : ℕ

abbrev pub parse_instant : DateValue → Result QuotaError ℕ
parse_instant none = err invalid_instant
parse_instant (some t) = ok t

unfoldable pub policy_limit : ℕ → ℕ → ℕ
policy_limit value hard_limit = max 1 (min hard_limit value)

abbrev pub outside : ℕ → ℕ → ℕ → Bool
outside cycle_start cycle_end current = ltb current cycle_start || leb cycle_end current

abbrev boundary_at : ℕ → ℕ → Result QuotaError WindowBoundary
boundary_at cycle_start current = do
  let index = (current - cycle_start) / contribution_quota_window_ms
  let starts = cycle_start + index * contribution_quota_window_ms
  ends ← plus out_of_range starts contribution_quota_window_ms
  ok (record { starts_at = starts; ends_at = ends })

unfoldable pub contribution_quota_window :
    DateValue → DateValue → DateValue → Result QuotaError WindowBoundary
contribution_quota_window starts_at ends_at now = do
  cycle_start ← parse_instant starts_at
  cycle_end ← parse_instant ends_at
  current ← parse_instant now
  if outside cycle_start cycle_end current then err inactive else boundary_at cycle_start current

-- `WHERE cycle_id = ? AND member_id = ? AND window_start_at = ?`
abbrev pub has_key : ℕ → ℕ → ℕ → QuotaWindow → Bool
has_key cycle_id member_id starts_at r =
    (r.cycle_id == cycle_id) && (r.member_id == member_id) && (r.starts_at == starts_at)

-- `INSERT OR IGNORE`, against the primary key and the unique key of the table.
insert_or_ignore : QuotaWindow → List QuotaWindow → List QuotaWindow
insert_or_ignore row t =
    if any (λ r. (r.id == row.id) || has_key row.cycle_id row.member_id row.starts_at r) t
    then t
    else t ++ row ∷ []

abbrev pub or_throw {ℓ κ} : {E : Type ℓ} {A : Type κ} → E → Option A → Result E A
or_throw e none = err e
or_throw e (some a) = ok a

-- A statement's new table and its result.
abbrev pub Tabled : Type 0 → Type 0
Tabled A = List QuotaWindow × Result QuotaError A

abbrev pub has_room : Doubles → ℕ → QuotaWindow → Bool
has_room f64 duration r =
    ltb r.count_used r.max_count
    && leb (f64.add r.seconds_used duration) (f64.of_whole r.max_seconds)

abbrev pub charge : Doubles → ℕ → QuotaWindow → QuotaWindow
charge f64 duration r = record r {
  count_used = r.count_used + 1;
  seconds_used = f64.add r.seconds_used duration;
}

-- The guarded UPDATE of a reservation, and the test of its `changes`.
reserve_in : Doubles → ℕ → QuotaWindow → List QuotaWindow → Tabled QuotaWindow
reserve_in f64 duration window t =
    let hit = λ (r : QuotaWindow). (r.id == window.id) && has_room f64 duration r in
    (
      update hit (charge f64 duration) t,
      if count hit t == 1 then ok (charge f64 duration window) else err quota_exceeded,
    )

-- The reservation, once the window is there.
reserve_ensured : Doubles → ℕ → Tabled QuotaWindow → Tabled QuotaWindow
unfolding reserve_in
reserve_ensured f64 duration (t, err e) = (t, err e)
reserve_ensured f64 duration (t, ok window) = reserve_in f64 duration window t

abbrev valid_duration : Doubles → ℕ → Bool
valid_duration f64 duration =
    ltb 0 duration && leb duration (f64.of_whole max_contribution_duration_seconds)

module _ (window_id : ℕ → ℕ → ℕ → ℕ) where
  pub new_window : QuotaCycle → ℕ → WindowBoundary → QuotaWindow
  new_window cycle member_id boundary = record {
    id = window_id cycle.id member_id boundary.starts_at;
    cycle_id = cycle.id;
    member_id = member_id;
    starts_at = boundary.starts_at;
    ends_at = boundary.ends_at;
    max_count = policy_limit cycle.max_count max_contribution_count;
    max_seconds = policy_limit cycle.max_seconds max_contribution_seconds;
    count_used = 0;
    seconds_used = 0;
    deletions_used = 0;
  }

  ensure_at : QuotaCycle → ℕ → WindowBoundary → List QuotaWindow → Tabled QuotaWindow
  unfolding insert_or_ignore new_window
  ensure_at cycle member_id boundary t =
      let t' = insert_or_ignore (new_window cycle member_id boundary) t in
      (t', or_throw not_persisted (find (has_key cycle.id member_id boundary.starts_at) t'))

  unfoldable pub ensure_contribution_quota_window :
      QuotaCycle → ℕ → DateValue → List QuotaWindow → Tabled QuotaWindow
  unfolding ensure_at contribution_quota_window
  ensure_contribution_quota_window cycle member_id now t =
      elim (contribution_quota_window cycle.starts_at cycle.ends_at now) [
        | err e ↦ (t, err e)
        | ok boundary ↦ ensure_at cycle member_id boundary t
      ]

  -- `none` is a duration that is negative or not finite.
  unfoldable pub reserve_contribution_allowance :
      Doubles → QuotaCycle → ℕ → Option ℕ → DateValue → List QuotaWindow → Tabled QuotaWindow
  unfolding reserve_ensured ensure_contribution_quota_window
  reserve_contribution_allowance f64 cycle member_id none now t = (t, err invalid_duration)
  reserve_contribution_allowance f64 cycle member_id (some duration) now t =
      if valid_duration f64 duration
      then reserve_ensured f64 duration (ensure_contribution_quota_window cycle member_id now t)
      else (t, err invalid_duration)

-- `MAX(0, count_used - 1)` is the subtraction of ℕ.
unfoldable pub release_contribution_allowance :
    Doubles → ℕ → ℕ → ℕ → ℕ → List QuotaWindow → List QuotaWindow
release_contribution_allowance f64 cycle_id member_id starts_at duration =
    update (has_key cycle_id member_id starts_at) (λ r. record r {
      count_used = r.count_used - 1;
      seconds_used = f64.take_off r.seconds_used duration;
    })
