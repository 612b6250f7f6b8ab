-- ===== src/Capture/Interruption/Tests.antt =====
-- Tests and instances for src/capture/capture-interruption.ts.
use rewind_app.Common.{◌≡◌, refl, true, false, none, some}
use rewind_app.Capture.Interruption.{
  ContributionStatus, processing, failed, exhausted_message, reconcile_contribution_status,
}

abbrev sending : ContributionStatus
sending = record {
  state = processing;
  contribution_id = some 4;
  job_id = some 5;
  duration_seconds = some 3;
  created_at = 100;
  message = none;
  retryable = true;
}

spent :
    reconcile_contribution_status (some (record sending { state = failed })) 0 true
    ≡ some (record sending { state = failed; message = some exhausted_message; retryable = false })
unfolding reconcile_contribution_status
spent = refl
