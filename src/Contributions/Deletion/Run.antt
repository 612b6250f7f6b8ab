-- ===== src/Contributions/Deletion/Run.antt =====
-- server/src/contributions/index.ts: the run of a deletion that goes through.
use rewind_app.Common.{
  ℕ, ◌≡◌, refl, sym, ap, ◌∙◌, inl, inr, none, some, List, [], ◌∷◌, find, find_sound, count, update,
  DateValue, ok, Option-cases, Result-cases, arith,
}
use rewind_app.Tables.{ContributionRow, MediaJobRow, Database}
use rewind_app.Contributions.Quota.{Doubles, QuotaWindow}
use rewind_app.Contributions.Deletion.{
  Store, Deletable, Deleted, deletable, owned_by, clip_of, deletable_job, current_window_start,
  may_delete, refund, tombstone_rows, commit_deletion, delete_row, delete_contribution,
}

-- A deletion that went through: the row and the job that it was of, and its allowance window.
pub record Run (f64 : Doubles) (group_id : ℕ) (row : Deletable) (now : DateValue) (s : Store)
    (r : Deleted) : Type 0 where
  pub job : MediaJobRow
  pub charged : ℕ
  pub instant : ℕ
  pub has_job : deletable_job row.job ≡ ok job
  pub in_window : current_window_start row now ≡ ok charged
  pub at_instant : now ≡ some instant
  pub was_live : row.contribution.deleted_at ≡ none
  pub one_window :
      count (may_delete row.contribution.cycle_id row.contribution.member_id charged) s.windows ≡ 1
  pub result : r ≡ commit_deletion f64 group_id row job charged instant s

delete_row-Run :
    (f64 : Doubles) (group_id : ℕ) (row : Deletable) (now : DateValue) (s : Store) (r : Deleted)
    → delete_row f64 group_id row now s ≡ ok r
    → Run f64 group_id row now s r
unfolding delete_row
delete_row-Run f64 group_id row now s r h = elim (Result-cases (deletable_job row.job)) [
  | inl (f, e) ↦ absurd (ground (arith, h, e))
  | inr (job, e) ↦ elim (Result-cases (current_window_start row now)) [
    | inl (f, e') ↦ absurd (ground (arith, h, e, e'))
    | inr (charged, e') ↦ elim (Option-cases now) [
      | inl n ↦ absurd (ground (arith, h, e, e', n))
      | inr (t, n) ↦ record {
        job = job;
        charged = charged;
        instant = t;
        has_job = e;
        in_window = e';
        at_instant = n;
        was_live = ground (arith, h);
        one_window = ground (arith, h, e, e', n);
        result = ground (arith, h, e, e', n);
      }
    ]
  ]
]

pub delete_contribution-Run :
    (f64 : Doubles) (group_id member_id contribution_id : ℕ) (now : DateValue) (s : Store)
    (r : Deleted)
    → delete_contribution f64 group_id member_id contribution_id now s ≡ ok r
    → (row : Deletable) × (deletable group_id member_id contribution_id s.database ≡ some row)
      × Run f64 group_id row now s r
unfolding delete_contribution
delete_contribution-Run f64 group_id member_id contribution_id now s r h =
    elim (Option-cases (deletable group_id member_id contribution_id s.database)) [
      | inl e ↦ absurd (ground (arith, h, e))
      | inr (row, e) ↦ (row, e, delete_row-Run f64 group_id row now s r (ground (arith, h, e)))
    ]

pub commit-windows :
    (f64 : Doubles) (group_id : ℕ) (row : Deletable) (job : MediaJobRow) (charged t : ℕ) (s : Store)
    → (commit_deletion f64 group_id row job charged t s).store.windows
      ≡ update
          (may_delete row.contribution.cycle_id row.contribution.member_id charged)
          (refund f64 row.contribution.duration)
          s.windows
unfolding commit_deletion
commit-windows f64 group_id row job charged t s = ground arith

pub commit-database :
    (f64 : Doubles) (group_id : ℕ) (row : Deletable) (job : MediaJobRow) (charged t : ℕ) (s : Store)
    → (commit_deletion f64 group_id row job charged t s).store.database
      ≡ tombstone_rows f64 row.contribution job.id t s.database
unfolding commit_deletion
commit-database f64 group_id row job charged t s = ground arith

-- Once a window's deletion is used, it is found used up.
pub used_up :
    (f64 : Doubles) (c m w d : ℕ) (ws : List QuotaWindow)
    → count (may_delete c m w) (update (may_delete c m w) (refund f64 d) ws) ≡ 0
used_up f64 c m w d [] = refl
used_up f64 c m w d (x ∷ xs) = ground (arith, used_up f64 c m w d xs)

pub charged_start :
    (row : Deletable) (now : DateValue) (charged : ℕ)
    → current_window_start row now ≡ ok charged
    → row.contribution.quota_window_start_at ≡ some charged
unfolding current_window_start
charged_start row now charged h = ground (arith, h)

pub deletable-owner :
    (g m c : ℕ) (db : Database) (row : Deletable)
    → deletable g m c db ≡ some row
    → (row.contribution.member_id ≡ m)
      × (row.contribution.id ≡ c)
      × (find (owned_by c m) db.contributions ≡ some row.contribution)
      × (row.job ≡ find (clip_of c) db.jobs)
deletable-owner g m c db row h = elim (Option-cases (find (owned_by c m) db.contributions)) [
  | inl e ↦ absurd (ground (arith, h, e))
  | inr (x, e) ↦
      (let own = find_sound (owned_by c m) db.contributions e in
        let i : x.id ≡ c = ground (arith, own) in
        let j : x.member_id ≡ m = ground (arith, own) in
        let same_row : x ≡ row.contribution = ground (arith, h, e) in
        let k : row.job ≡ find (clip_of x.id) db.jobs = ground (arith, h, e) in
        (
          ap (λ (y : ContributionRow). y.member_id) (sym same_row) ∙ j,
          ap (λ (y : ContributionRow). y.id) (sym same_row) ∙ i,
          e ∙ ap some same_row,
          k ∙ ap (λ n. find (clip_of n) db.jobs) i,
        ))
]
