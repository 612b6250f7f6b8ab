-- ===== src/Media/ServingBudget/Leases.antt =====
-- server/src/media/serving-budget.ts: the budget is the sum of the leases that are held.
use rewind_app.Common.{
  ℕ, ◌+◌, ◌≤◌, ◌≡◌, refl, List, [], ◌∷◌, zero, suc, if◌then◌else◌, sum_of, arith,
}
use rewind_app.Media.ServingBudget.{
  MediaServingBudget, Lease, Process, try_acquire, release, Call, acquire, release_at, release_nth,
  step, run,
}

abbrev pub held : Lease → ℕ
held l = if l.released then 0 else 1

abbrev pub held_bytes : Lease → ℕ
held_bytes l = if l.released then 0 else l.byte_length

-- The counters are the leases held and their bytes, within the bounds of the budget.
abbrev pub Accounted : Process → Type 0
Accounted p =
    (p.budget.active ≡ sum_of held p.leases)
    × (p.budget.reserved_bytes ≡ sum_of held_bytes p.leases)
    × (p.budget.active ≤ p.budget.max_concurrent)
    × (p.budget.reserved_bytes ≤ p.budget.max_snapshot_bytes)

-- A release takes what its lease holds off both counters, once.
release_nth-sum :
    (n : ℕ) (b : MediaServingBudget) (ls : List Lease)
    → sum_of held ls ≤ b.active
    → sum_of held_bytes ls ≤ b.reserved_bytes
    → ((release_nth n b ls).0.active + sum_of held ls
        ≡ b.active + sum_of held (release_nth n b ls).1)
      × ((release_nth n b ls).0.reserved_bytes + sum_of held_bytes ls
          ≡ b.reserved_bytes + sum_of held_bytes (release_nth n b ls).1)
      × ((release_nth n b ls).0.active ≤ b.active)
      × ((release_nth n b ls).0.reserved_bytes ≤ b.reserved_bytes)
      × ((release_nth n b ls).0.max_concurrent ≡ b.max_concurrent)
      × ((release_nth n b ls).0.max_snapshot_bytes ≡ b.max_snapshot_bytes)
unfolding release_nth release
release_nth-sum n b [] h k = ground arith
release_nth-sum zero b (l ∷ ls) h k = ground (arith, h, k)
release_nth-sum (suc n) b (l ∷ ls) h k = ground (arith, h, k, release_nth-sum n b ls)

step-Accounted : (c : Call) (p : Process) → Accounted p → Accounted (step c p)
unfolding step try_acquire
step-Accounted (acquire n) p h = ground (arith, h)
step-Accounted (release_at n) p h = ground (arith, h, release_nth-sum n p.budget p.leases)

-- Where the counts of the active snapshots and of the reserved bytes are those of the leases that
-- are held, within the bounds, any sequence of acquisitions and releases, repeated releases
-- included, keeps them so.
pub run-Accounted : (cs : List Call) (p : Process) → Accounted p → Accounted (run cs p)
unfolding run
run-Accounted [] p h = h
run-Accounted (c ∷ cs) p h = run-Accounted cs (step c p) (step-Accounted c p h)

release_nth_twice :
    (n : ℕ) (b : MediaServingBudget) (ls : List Lease)
    → release_nth n (release_nth n b ls).0 (release_nth n b ls).1 ≡ release_nth n b ls
unfolding release_nth release
release_nth_twice n b [] = refl
release_nth_twice zero b (l ∷ ls) = ground arith
release_nth_twice (suc n) b (l ∷ ls) = ground (arith, release_nth_twice n b ls)

-- A second call of the `release` of a lease, right after the first, changes nothing.
pub release_at_twice :
    (n : ℕ) (p : Process) → step (release_at n) (step (release_at n) p) ≡ step (release_at n) p
unfolding step
release_at_twice n p = ground (arith, release_nth_twice n p.budget p.leases)
