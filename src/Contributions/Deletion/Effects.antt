-- ===== src/Contributions/Deletion/Effects.antt =====
-- server/src/contributions/index.ts: what a deletion that goes through has done.
use rewind_app.Common.{
  ℕ, ◌≤◌, ◌≡◌, refl, sym, ap, ◌∙◌, true, not, ◌&&◌, none, some, ltb, ◌==◌, is_some, find,
  find_sound, find-update, count, count-and, update, DateValue, ok, arith,
}
use rewind_app.Tables.{ContributionRow, MediaJobRow, is_clip}
use rewind_app.Contributions.Quota.{Doubles, QuotaWindow, has_key}
use rewind_app.Contributions.Deletion.{
  Store, Deletable, Deleted, deletable, owned_by, clip_of, deletable_job, may_delete, refund,
  is_open_status, tombstone, tombstone_rows, commit_deletion, delete_contribution,
}
use rewind_app.Contributions.Deletion.Run.{
  charged_start, commit-database, commit-windows, deletable-owner, delete_contribution-Run, used_up,
}

module _ (f64 : Doubles) (group_id member_id : ℕ) (s : Store) (r : Deleted) (contribution_id : ℕ)
    (now : DateValue)
    (done : delete_contribution f64 group_id member_id contribution_id now s ≡ ok r) where
  -- After a deletion that goes through, no second one of the same member and group goes through
  -- for a contribution of the same cycle that was charged to the same window.
  pub deletion-once_per_window :
      (contribution_id' : ℕ) (now' : DateValue) (row row' : Deletable)
      → deletable group_id member_id contribution_id s.database ≡ some row
      → deletable group_id member_id contribution_id' r.store.database ≡ some row'
      → row.contribution.cycle_id ≡ row'.contribution.cycle_id
      → row.contribution.quota_window_start_at ≡ row'.contribution.quota_window_start_at
      → ¬ (
          (r' : Deleted) × (delete_contribution f64 group_id member_id contribution_id' now' r.store
            ≡ ok r'))
  deletion-once_per_window contribution_id' now' row row' e e' same_cycle same_window (r', done') =
      let (one, f, first) =
        delete_contribution-Run f64 group_id member_id contribution_id now s r done in
      let (two, f', second) =
        delete_contribution-Run f64 group_id member_id contribution_id' now' r.store r' done' in
      let same_one : one ≡ row = cc (f, e) in
      let same_two : two ≡ row' = cc (f', e') in
      let w : one.contribution.quota_window_start_at ≡ some first.charged =
        charged_start one now first.charged first.in_window in
      let w' : two.contribution.quota_window_start_at ≡ some second.charged =
        charged_start two now' second.charged second.in_window in
      let windows : r.store.windows
          ≡ update (may_delete one.contribution.cycle_id one.contribution.member_id first.charged)
              (refund f64 one.contribution.duration) s.windows =
        cc
          (first.result, commit-windows f64 group_id one first.job first.charged first.instant s) in
      let m : one.contribution.member_id ≡ member_id =
        (deletable-owner group_id member_id contribution_id s.database one f).0 in
      let m' : two.contribution.member_id ≡ member_id =
        (deletable-owner group_id member_id contribution_id' r.store.database two f').0 in
      let c : one.contribution.cycle_id ≡ two.contribution.cycle_id =
        cc (same_cycle, same_one, same_two) in
      let k : first.charged ≡ second.charged =
        ground (arith, w, w', same_window, same_one, same_two) in
      let none_left =
        used_up f64 one.contribution.cycle_id one.contribution.member_id first.charged
          one.contribution.duration s.windows in
      let again : count
            (may_delete one.contribution.cycle_id one.contribution.member_id first.charged)
            r.store.windows
          ≡ 1 =
        cc (second.one_window, m, m', c, k) in
      absurd (ground (arith, none_left, again, windows))

  -- A deletion that goes through gives the window that the contribution was charged to, the one
  -- row of its key, its clip and its seconds back, the seconds by the rounded difference of doubles;
  -- the window had no deletion before, and its one deletion is now used.
  pub deletion-refund :
      (row : Deletable) (start : ℕ) (w : QuotaWindow)
      → deletable group_id member_id contribution_id s.database ≡ some row
      → row.contribution.quota_window_start_at ≡ some start
      → count (has_key row.contribution.cycle_id member_id start) s.windows ≤ 1
      → find (has_key row.contribution.cycle_id member_id start) s.windows ≡ some w
      → (w.deletions_used ≡ 0)
        × (find (has_key row.contribution.cycle_id member_id start) r.store.windows
            ≡ some (refund f64 row.contribution.duration w))
        × (r.restored_seconds ≡ row.contribution.duration)
  unfolding commit_deletion
  deletion-refund row start w e es one ew =
      let (row', f, run) =
        delete_contribution-Run f64 group_id member_id contribution_id now s r done in
      let same_row : row' ≡ row = cc (f, e) in
      let m : row'.contribution.member_id ≡ member_id =
        (deletable-owner group_id member_id contribution_id s.database row' f).0 in
      let k : run.charged ≡ start =
        ground (arith, charged_start row' now run.charged run.in_window, same_row, es) in
      let key = has_key row.contribution.cycle_id member_id start in
      let windows : r.store.windows
          ≡ update (may_delete row.contribution.cycle_id member_id start)
              (refund f64 row.contribution.duration) s.windows =
        cc (
          run.result,
          commit-windows f64 group_id row' run.job run.charged run.instant s,
          same_row,
          m,
          k,
        ) in
      let hit : count (may_delete row.contribution.cycle_id member_id start) s.windows ≡ 1 =
        cc (run.one_window, same_row, m, k) in
      let unused : ltb w.deletions_used 1 ≡ true =
        ground (arith, hit, count-and key (λ x. ltb x.deletions_used 1) s.windows w one ew) in
      let restored : r.restored_seconds ≡ row'.contribution.duration =
        ap (λ (d : Deleted). d.restored_seconds) run.result in
      (
        ground (arith, unused),
        ground (
          arith,
          windows,
          unused,
          ew,
          find_sound key s.windows ew,
          find-update key (may_delete row.contribution.cycle_id member_id start)
              (refund f64 row.contribution.duration) s.windows (λ x. refl),
        ),
        cc (restored, same_row),
      )

  -- A deletion at `t` that goes through marks the contribution deleted at `t`, and its clip job is a
  -- tombstone: deleted, and without the paths, the digest and the source that it had.
  pub deletion-tombstone :
      (row : Deletable) (job : MediaJobRow) (t : ℕ)
      → deletable group_id member_id contribution_id s.database ≡ some row
      → row.job ≡ some job
      → now ≡ some t
      → (find (owned_by contribution_id member_id) r.store.database.contributions
          ≡ some (record row.contribution { deleted_at = some t }))
        × (find (clip_of contribution_id) r.store.database.jobs ≡ some (tombstone t job))
  unfolding deletable_job tombstone_rows
  deletion-tombstone row job t e ej et =
      let (row', f, run) =
        delete_contribution-Run f64 group_id member_id contribution_id now s r done in
      let same_row : row' ≡ row = cc (f, e) in
      let (m, i, fc, fj) = deletable-owner group_id member_id contribution_id s.database row e in
      let hj : deletable_job row.job ≡ ok run.job = cc (run.has_job, same_row) in
      let same_job : run.job ≡ job = ground (arith, hj, ej) in
      let open_job : is_open_status job.status ≡ true = ground (arith, hj, ej) in
      let at : run.instant ≡ t = ground (arith, run.at_instant, et) in
      let live : row.contribution.deleted_at ≡ none = cc (run.was_live, same_row) in
      let db : r.store.database ≡ tombstone_rows f64 row.contribution job.id t s.database = cc (
        run.result,
        commit-database f64 group_id row' run.job run.charged run.instant s,
        same_row,
        same_job,
        at,
      ) in
      let stored : find (clip_of contribution_id) s.database.jobs ≡ some job = sym fj ∙ ej in
      let clip = find_sound (clip_of contribution_id) s.database.jobs stored in
      (
        ground (
          arith,
          db,
          fc,
          i,
          live,
          find-update (owned_by contribution_id member_id)
              (λ (x : ContributionRow). (x.id == row.contribution.id) && not (is_some x.deleted_at))
              (λ x. record x { deleted_at = some t }) s.database.contributions (λ x. refl),
        ),
        ground (
          arith,
          db,
          stored,
          clip,
          open_job,
          find-update (clip_of contribution_id)
              (λ (j : MediaJobRow). (j.id == job.id) && is_clip j.kind && is_open_status j.status)
              (tombstone t) s.database.jobs (λ x. refl),
        ),
      )
