-- ===== src/Media/ServingBudget.antt =====
-- server/src/media/serving-budget.ts: the process-wide budget of media snapshots. The object's
-- private state is a record, and the leases that it has handed out are the closures, each with its
-- `byteLength` and `released`, in the order of their acquisition.
pub mod Leases
mod Tests
use rewind_app.Common.{
  ℕ, ◌+◌, ◌-◌, ◌*◌, Bool, true, false, ◌&&◌, Option, none, some, List, [], ◌∷◌, ltb, leb, zero, suc,
  if◌then◌else◌, Number, max_safe_integer, safe_within,
}

pub record MediaServingBudget : Type 0 where
  pub max_concurrent : ℕ
  pub max_snapshot_bytes : ℕ
  pub active : ℕ
  pub reserved_bytes : ℕ

-- A closure that `tryAcquire` returned.
pub record Lease : Type 0 where
  pub byte_length : ℕ
  pub released : Bool

-- The budget with all the leases that it has handed out.
pub record Process : Type 0 where
  pub budget : MediaServingBudget
  pub leases : List Lease

unfoldable pub default_budget : MediaServingBudget
default_budget = record {
  max_concurrent = 3;
  max_snapshot_bytes = 96 * 1024 * 1024;
  active = 0;
  reserved_bytes = 0;
}

abbrev pub fits : ℕ → MediaServingBudget → Bool
fits n b =
    leb n b.max_snapshot_bytes
    && ltb b.active b.max_concurrent
    && leb (b.reserved_bytes + n) b.max_snapshot_bytes

-- The new budget where a lease is handed out, `none` where the answer is null.
unfoldable pub try_acquire : Number → MediaServingBudget → Option (MediaServingBudget × Lease)
try_acquire byte_length b = elim (safe_within 1 max_safe_integer byte_length) [
  | none ↦ none
  | some n ↦
      if fits n b
      then some (
        record b { active = b.active + 1; reserved_bytes = b.reserved_bytes + n },
        record { byte_length = n; released = false },
      )
      else none
]

-- `Math.max(0, ...)` is the subtraction of ℕ.
unfoldable pub release : Lease → MediaServingBudget → MediaServingBudget × Lease
release lease b = if lease.released then (b, lease) else (
  record b { active = b.active - 1; reserved_bytes = b.reserved_bytes - lease.byte_length },
  record lease { released = true },
)

-- A step of the process: an acquisition, or a call of the `release` of the n-th lease.
pub data Call : Type 0 where
  acquire : Number → Call
  release_at : ℕ → Call

unfoldable pub release_nth : ℕ → MediaServingBudget → List Lease → MediaServingBudget × List Lease
unfolding release
release_nth n b [] = (b, [])
release_nth zero b (l ∷ ls) = let done = release l b in (done.0, done.1 ∷ ls)
release_nth (suc n) b (l ∷ ls) = let rest = release_nth n b ls in (rest.0, l ∷ rest.1)

unfoldable pub step : Call → Process → Process
unfolding try_acquire release_nth
step (acquire n) p = elim (try_acquire n p.budget) [
  | none ↦ p
  | some (b, l) ↦ record { budget = b; leases = l ∷ p.leases }
]
step (release_at n) p =
    let done = release_nth n p.budget p.leases in record { budget = done.0; leases = done.1 }

unfoldable pub run : List Call → Process → Process
unfolding step
run [] p = p
run (c ∷ cs) p = run cs (step c p)
