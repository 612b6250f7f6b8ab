-- ===== src/Capture/Interruption.antt =====
-- src/capture/capture-interruption.ts: what each interruption of a capture decides, and the
-- reconciliation of a persisted contribution status. The messages of the file are named; any other
-- one is a number.
pub mod Decisions
mod Tests
use rewind_app.Common.{ℕ, Bool, true, false, ◌&&◌, Option, none, some, ltb, leb, if◌then◌else◌}

pub data CaptureInterruptionEvent : Type 0 where
  background foreground route_change reload restart sign_out reset interrupted_upload :
      CaptureInterruptionEvent

pub record CaptureInterruptionDecision : Type 0 where
  pub cancel_recording : Bool
  pub cancel_upload_request : Bool
  pub release_local_capture : Bool
  pub retain_local_capture_for_retry : Bool
  pub discard_preview : Bool
  pub clear_accepted_metadata : Bool
  pub clear_contribution_status : Bool
  pub reconcile_contribution_status : Bool
  pub recheck_access : Bool
  pub sweep_orphaned_files : Bool

unfoldable pub decide_interruption : CaptureInterruptionEvent → CaptureInterruptionDecision
decide_interruption background = record {
  cancel_recording = true;
  cancel_upload_request = true;
  release_local_capture = false;
  retain_local_capture_for_retry = true;
  discard_preview = false;
  clear_accepted_metadata = false;
  clear_contribution_status = false;
  reconcile_contribution_status = false;
  recheck_access = false;
  sweep_orphaned_files = false;
}
decide_interruption foreground = record {
  cancel_recording = false;
  cancel_upload_request = false;
  release_local_capture = false;
  retain_local_capture_for_retry = true;
  discard_preview = false;
  clear_accepted_metadata = false;
  clear_contribution_status = false;
  reconcile_contribution_status = true;
  recheck_access = true;
  sweep_orphaned_files = false;
}
decide_interruption route_change = record {
  cancel_recording = true;
  cancel_upload_request = true;
  release_local_capture = true;
  retain_local_capture_for_retry = false;
  discard_preview = true;
  clear_accepted_metadata = false;
  clear_contribution_status = false;
  reconcile_contribution_status = false;
  recheck_access = false;
  sweep_orphaned_files = false;
}
decide_interruption reload = record {
  cancel_recording = true;
  cancel_upload_request = true;
  release_local_capture = true;
  retain_local_capture_for_retry = false;
  discard_preview = true;
  clear_accepted_metadata = false;
  clear_contribution_status = false;
  reconcile_contribution_status = true;
  recheck_access = true;
  sweep_orphaned_files = true;
}
decide_interruption restart = record {
  cancel_recording = true;
  cancel_upload_request = true;
  release_local_capture = true;
  retain_local_capture_for_retry = false;
  discard_preview = true;
  clear_accepted_metadata = false;
  clear_contribution_status = false;
  reconcile_contribution_status = true;
  recheck_access = true;
  sweep_orphaned_files = true;
}
decide_interruption sign_out = record {
  cancel_recording = true;
  cancel_upload_request = true;
  release_local_capture = true;
  retain_local_capture_for_retry = false;
  discard_preview = true;
  clear_accepted_metadata = false;
  clear_contribution_status = true;
  reconcile_contribution_status = false;
  recheck_access = false;
  sweep_orphaned_files = true;
}
decide_interruption reset = record {
  cancel_recording = true;
  cancel_upload_request = true;
  release_local_capture = true;
  retain_local_capture_for_retry = false;
  discard_preview = true;
  clear_accepted_metadata = true;
  clear_contribution_status = true;
  reconcile_contribution_status = false;
  recheck_access = false;
  sweep_orphaned_files = true;
}
decide_interruption interrupted_upload = record {
  cancel_recording = false;
  cancel_upload_request = true;
  release_local_capture = false;
  retain_local_capture_for_retry = true;
  discard_preview = false;
  clear_accepted_metadata = false;
  clear_contribution_status = false;
  reconcile_contribution_status = true;
  recheck_access = false;
  sweep_orphaned_files = false;
}

pub data ContributionLifecycle : Type 0 where
  queued processing sealed failed : ContributionLifecycle

pub data Message : Type 0 where
  interrupted_message exhausted_message unrecoverable_message : Message
  other_message : ℕ → Message

pub record ContributionStatus : Type 0 where
  pub state : ContributionLifecycle
  pub contribution_id : Option ℕ
  pub job_id : Option ℕ
  pub duration_seconds : Option ℕ
  pub created_at : ℕ
  pub message : Option Message
  pub retryable : Bool

abbrev pub interrupted : ContributionStatus → Bool → ℕ → ContributionStatus
interrupted st resumable attempts_remaining = record st {
  message = some (if resumable then interrupted_message else unrecoverable_message);
  retryable = resumable && ltb 0 attempts_remaining;
  state = failed;
}

abbrev pub bounded : ContributionStatus → ℕ → ContributionStatus
bounded st attempts_remaining =
    if st.retryable && leb attempts_remaining 0
    then record st { message = some exhausted_message; retryable = false }
    else st

abbrev pub reconciled : ContributionStatus → ℕ → Bool → ContributionStatus
reconciled st attempts_remaining resumable = elim st.state [
  | sealed ↦ st
  | processing ↦ interrupted st resumable attempts_remaining
  | queued ↦ interrupted st resumable attempts_remaining
  | failed ↦ bounded st attempts_remaining
]

unfoldable pub reconcile_contribution_status :
    Option ContributionStatus → ℕ → Bool → Option ContributionStatus
reconcile_contribution_status none attempts_remaining resumable = none
reconcile_contribution_status (some st) attempts_remaining resumable =
    some (reconciled st attempts_remaining resumable)

unfoldable pub is_live_processing_status : Option ContributionStatus → Bool
is_live_processing_status none = false
is_live_processing_status (some st) = elim st.state [
  | processing ↦ true
  | queued ↦ true
  | sealed ↦ false
  | failed ↦ false
]
