-- ===== src/Capture/Interruption/Decisions.antt =====
-- src/capture/capture-interruption.ts: no orphaned capture, and no status that claims live work.
use rewind_app.Common.{ℕ, ◌≡◌, refl, Bool, true, false, not, ◌&&◌, ◌||◌, some, ltb, arith}
use rewind_app.Capture.Interruption.{
  CaptureInterruptionEvent, ContributionLifecycle, decide_interruption, ContributionStatus, failed,
  reconciled, reconcile_contribution_status, is_live_processing_status,
}

abbrev pub implies : Bool → Bool → Bool
implies a b = not a || b

-- Every interruption releases the local capture exactly if it does not keep it for a retry, and
-- discards the preview exactly with the capture; it sweeps orphaned files and clears the
-- contribution's status only with the capture, clears accepted metadata only with the status,
-- reconciles no status that it clears, and cancels a recording only with the upload.
pub decide_interruption-Consistent :
    (e : CaptureInterruptionEvent)
    → let d = decide_interruption e in
      (d.release_local_capture ≡ not d.retain_local_capture_for_retry)
      × (d.discard_preview ≡ d.release_local_capture)
      × (implies d.sweep_orphaned_files d.release_local_capture ≡ true)
      × (implies d.clear_contribution_status d.release_local_capture ≡ true)
      × (implies d.clear_accepted_metadata d.clear_contribution_status ≡ true)
      × ((d.reconcile_contribution_status && d.clear_contribution_status) ≡ false)
      × (implies d.cancel_recording d.cancel_upload_request ≡ true)
unfolding decide_interruption
decide_interruption-Consistent e = ground arith

abbrev pub is_failed : ContributionLifecycle → Bool
is_failed failed = true
is_failed _ = false

-- A reconciled status claims no live work, keeps its contribution and job, and offers a retry of a
-- failure only while attempts remain; reconciled again in the same circumstances it is the same.
pub reconcile-Honest :
    (st : ContributionStatus) (n : ℕ) (resumable : Bool)
    → (st' : ContributionStatus) × (reconcile_contribution_status (some st) n resumable ≡ some st')
      × (is_live_processing_status (some st') ≡ false)
      × (st'.contribution_id ≡ st.contribution_id)
      × (st'.job_id ≡ st.job_id)
      × (implies (is_failed st'.state && st'.retryable) (ltb 0 n) ≡ true)
      × (reconcile_contribution_status (some st') n resumable ≡ some st')
unfolding reconcile_contribution_status is_live_processing_status
reconcile-Honest st n resumable = (
  reconciled st n resumable,
  refl,
  ground arith,
  ground arith,
  ground arith,
  ground arith,
  ground arith,
)
