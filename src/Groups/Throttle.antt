-- ===== src/Groups/Throttle.antt =====
-- server/src/groups/invites.ts: the guess throttle of invitation codes, `consumeGuessAttempt`. The
-- digest of a subject, from node's crypto, is an argument.
pub mod Limit
mod Tests
use rewind_app.Common.{
  ℕ, ◌+◌, ◌*◌, Bool, true, false, ◌&&◌, ◌||◌, Option, none, some, List, [], ◌∷◌, ◌++◌, ltb, leb,
  ◌==◌, if◌then◌else◌, keep, find, any, update, DateValue, Result, ok, err, ◌>>=◌, ◌>>◌, minus,
}

-- A date that `toISOString` cannot write.
pub data ThrottleError : Type 0 where
  out_of_range : ThrottleError

abbrev pub guess_window_ms : ℕ
guess_window_ms = 15 * 60 * 1000

abbrev pub guess_limit : ℕ
guess_limit = 10

abbrev pub day_ms : ℕ
day_ms = 24 * 60 * 60 * 1000

pub data Scope : Type 0 where
  account source : Scope

abbrev pub same_scope : Scope → Scope → Bool
same_scope account account = true
same_scope source source = true
same_scope _ _ = false

-- A row of `real_invite_guess_throttles`.
pub record ThrottleRow : Type 0 where
  pub scope : Scope
  pub subject_hash : ℕ
  pub attempts : ℕ
  pub window_started_at : ℕ
  pub updated_at : ℕ

abbrev pub throttle_of : Scope → ℕ → ThrottleRow → Bool
throttle_of scope hash r = same_scope r.scope scope && (r.subject_hash == hash)

-- `row && Date.parse(row.windowStartedAt) > Date.parse(cutoff)`
abbrev pub in_window : ℕ → Option ThrottleRow → Bool
in_window cutoff none = false
in_window cutoff (some r) = ltb cutoff r.window_started_at

abbrev pub attempts_in : ℕ → Option ThrottleRow → ℕ
attempts_in cutoff none = 0
attempts_in cutoff (some r) = if ltb cutoff r.window_started_at then r.attempts else 0

abbrev pub started_in : ℕ → ℕ → Option ThrottleRow → ℕ
started_in cutoff now none = now
started_in cutoff now (some r) = if ltb cutoff r.window_started_at then r.window_started_at else now

-- `INSERT ... ON CONFLICT(scope, subject_hash) DO UPDATE SET ...`
unfoldable pub upsert_throttle : ThrottleRow → List ThrottleRow → List ThrottleRow
upsert_throttle row rows =
    if any (throttle_of row.scope row.subject_hash) rows
    then update (throttle_of row.scope row.subject_hash)
        (λ r. record r {
          attempts = row.attempts;
          window_started_at = row.window_started_at;
          updated_at = row.updated_at;
        })
        rows
    else rows ++ row ∷ []

abbrev pub charged_row : Scope → ℕ → ℕ → ℕ → Option ThrottleRow → ThrottleRow
charged_row scope hash now cutoff row = record {
  scope = scope;
  subject_hash = hash;
  attempts = attempts_in cutoff row + 1;
  window_started_at = started_in cutoff now row;
  updated_at = now;
}

module _ (code_subject_hash : Scope → ℕ → ℕ) where
  abbrev pub row_of : Scope → ℕ → List ThrottleRow → Option ThrottleRow
  row_of scope subject rows = find (throttle_of scope (code_subject_hash scope subject)) rows

  -- With the two cut-offs: the rows that are a day old go, and both subjects are charged unless one
  -- of them has spent its attempts.
  unfoldable pub consume_between : ℕ → ℕ → ℕ → ℕ → ℕ → List ThrottleRow → List ThrottleRow × Bool
  unfolding upsert_throttle
  consume_between day_ago cutoff now account_id source_id rows =
      let kept = keep (λ (r : ThrottleRow). ltb day_ago r.window_started_at) rows in
      let by_account = row_of account account_id kept in
      let by_source = row_of source source_id kept in
      if leb guess_limit (attempts_in cutoff by_account)
        || leb guess_limit (attempts_in cutoff by_source)
      then (kept, false)
      else (
        upsert_throttle
            (charged_row source (code_subject_hash source source_id) now cutoff by_source)
            (upsert_throttle
              (charged_row account (code_subject_hash account account_id) now cutoff by_account)
              kept),
        true,
      )

  -- `err` is the RangeError of a date that cannot be written.
  unfoldable pub consume_guess_attempt :
      ℕ → ℕ → DateValue → List ThrottleRow → Result ThrottleError (List ThrottleRow × Bool)
  unfolding consume_between
  consume_guess_attempt account_id source_id none rows = err out_of_range
  consume_guess_attempt account_id source_id (some now) rows = do
    cutoff ← minus out_of_range now guess_window_ms
    day_ago ← minus out_of_range now day_ms
    ok (consume_between day_ago cutoff now account_id source_id rows)
