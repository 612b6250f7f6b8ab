-- ===== src/Capture/Uploader/Stale.antt =====
-- src/capture/clip-uploader.ts: the runs that a cancellation or a newer run has overtaken.
use rewind_app.Common.{ℕ, ◌≤◌, ◌≡◌, false, some, List, [], ◌∷◌, arith}
use rewind_app.Capture.Uploader.{
  ClipUploadSession, cancelled, can_retry, begin_run, upload, retry, cancel, forget, prepared,
  rejected, uploaded, Event, step, run_all,
}

step-generation : (e : Event) (s : ClipUploadSession) → s.generation ≤ (step e s).generation
unfolding step upload retry cancel forget prepared rejected uploaded begin_run can_retry
step-generation e s = ground arith

run_all-generation :
    (es : List Event) (s : ClipUploadSession) → s.generation ≤ (run_all es s).generation
unfolding run_all
run_all-generation [] s = omega arith
run_all-generation (e ∷ es) s =
    ground (arith, step-generation e s, run_all-generation es (step e s))

-- Of a run that was started before a cancellation, whatever happened since: its prepared clip is
-- not sent, a job that it gets is cancelled, the progress is then cancelled, and the active job
-- and the attempts of the session are as they were.
pub cancelled_run :
    (es : List Event) (s : ClipUploadSession) (run job : ℕ)
    → run ≤ s.generation
    → let late = run_all es (cancel s).0 in
      ((prepared run late).1 ≡ false)
      × ((uploaded run job late).1 ≡ some job)
      × ((uploaded run job late).0.progress ≡ cancelled)
      × ((uploaded run job late).0.active_job_id ≡ late.active_job_id)
      × ((uploaded run job late).0.attempts ≡ late.attempts)
unfolding cancel prepared uploaded
cancelled_run es s run job h = ground (arith, h, run_all-generation es (cancel s).0)

-- When a newer run has started, and whatever has happened since, the rejection of an older run
-- sets the session's progress to cancelled.
pub stale_rejection :
    (es : List Event) (s : ClipUploadSession) (run : ℕ)
    → run ≤ s.generation
    → (rejected run (run_all es (begin_run s))).progress ≡ cancelled
unfolding begin_run rejected
stale_rejection es s run h = ground (arith, h, run_all-generation es (begin_run s))
