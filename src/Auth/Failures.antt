-- ===== src/Auth/Failures.antt =====
-- server/src/auth/index.ts: failed sign-ins of an account and of a source, and their cooldowns. The
-- digest of a subject is the subject.
use rewind_app.Common.{
  ℕ, ◌+◌, ◌^◌, ◌-◌, ◌*◌, Bool, true, false, ◌&&◌, Option, none, some, List, [], ◌∷◌, ◌++◌, ltb, leb,
  ◌==◌, min, max, if◌then◌else◌, find, or_else, update,
}

abbrev pub login_window_ms : ℕ
login_window_ms = 900_000

abbrev pub login_failure_limit : ℕ
login_failure_limit = 5

abbrev pub base_cooldown_ms : ℕ
base_cooldown_ms = 900_000

abbrev pub max_cooldown_ms : ℕ
max_cooldown_ms = 86_400_000

pub data Scope : Type 0 where
  account source : Scope

pub record LoginThrottleRow : Type 0 where
  pub scope : Scope
  pub subject : ℕ
  pub failures : ℕ
  pub window_started_at : ℕ
  pub cooldown_until : Option ℕ
  pub cooldown_level : ℕ

abbrev pub same_scope : Scope → Scope → Bool
same_scope account account = true
same_scope source source = true
same_scope account source = false
same_scope source account = false

abbrev pub is_subject : Scope → ℕ → LoginThrottleRow → Bool
is_subject scope subject r = same_scope r.scope scope && (r.subject == subject)

abbrev pub throttle_row : List LoginThrottleRow → Scope → ℕ → Option LoginThrottleRow
throttle_row rows scope subject = find (is_subject scope subject) rows

-- `row?.cooldownUntil ? Date.parse(row.cooldownUntil) : 0`
abbrev pub cooldown_end_of : Option LoginThrottleRow → ℕ
cooldown_end_of none = 0
cooldown_end_of (some r) = or_else r.cooldown_until 0

unfoldable pub login_cooldown_end : List LoginThrottleRow → ℕ → ℕ → ℕ → Option ℕ
login_cooldown_end rows username source_key now =
    let end =
      max (cooldown_end_of (throttle_row rows account username))
        (cooldown_end_of (throttle_row rows source source_key)) in
    if ltb now end then some end else none

-- The wait doubles with each level, up to a day.
unfoldable pub cooldown_ms : ℕ → ℕ
cooldown_ms level = min (base_cooldown_ms * 2 ^ (level - 1)) max_cooldown_ms

abbrev pub in_window : Option LoginThrottleRow → ℕ → Bool
in_window none now = false
in_window (some r) now = ltb now (r.window_started_at + login_window_ms)

abbrev pub failures_after : Option LoginThrottleRow → ℕ → ℕ
failures_after none now = 1
failures_after (some r) now = if in_window (some r) now then r.failures + 1 else 1

abbrev pub window_after : Option LoginThrottleRow → ℕ → ℕ
window_after none now = now
window_after (some r) now = if in_window (some r) now then r.window_started_at else now

abbrev pub level_of : Option LoginThrottleRow → ℕ
level_of none = 0
level_of (some r) = r.cooldown_level

unfoldable pub failed_row : Scope → ℕ → ℕ → Option LoginThrottleRow → LoginThrottleRow
unfolding cooldown_ms
failed_row scope subject now old =
    let failures = failures_after old now in
    let limited = leb login_failure_limit failures in
    let level = if limited then level_of old + 1 else level_of old in
    record {
      scope = scope;
      subject = subject;
      failures = if limited then 0 else failures;
      window_started_at = window_after old now;
      cooldown_until = if limited then some (now + cooldown_ms level) else none;
      cooldown_level = level;
    }

-- `INSERT ... ON CONFLICT DO UPDATE`.
unfoldable pub record_failure : Scope → ℕ → ℕ → List LoginThrottleRow → List LoginThrottleRow
unfolding failed_row
record_failure scope subject now rows = elim (throttle_row rows scope subject) [
  | none ↦ rows ++ failed_row scope subject now none ∷ []
  | some old ↦
      update (is_subject scope subject)
        (λ (r : LoginThrottleRow). failed_row scope subject now (some old)) rows
]
