-- ===== src/Capture/Uploader/Tests.antt =====
-- Tests and instances for src/capture/clip-uploader.ts.
use rewind_app.Common.{◌≤◌, ◌≡◌, refl, true, none, some, [], ◌∷◌, arith, whole}
use rewind_app.Capture.Uploader.{
  ClipUploadInput, ClipUploadSession, cancelled, idle, uploading, is_valid_input,
  attempts_remaining, begin_run, upload, rejected, uploaded, on_upload, on_retry, on_rejected,
  on_uploaded, step, run_all,
}
use rewind_app.Capture.Uploader.Budget.{InBudget, submitted, run_all-InBudget, submitted-le}

abbrev clip : ClipUploadInput
clip = record {
  key_matches = true;
  replaced_matches = none;
  has_source = true;
  is_mp4 = true;
  byte_length = whole 1_000_000;
  duration = some 4_000_000;
  width = whole 720;
  height = whole 1280;
  has_audio = true;
}

abbrev fresh : ClipUploadSession
fresh = record {
  progress = idle;
  last_input = none;
  generation = 0;
  active_job_id = none;
  attempts = 0;
  controller = none;
}

abbrev started : ClipUploadSession
started = record {
  progress = uploading;
  last_input = some clip;
  generation = 1;
  active_job_id = none;
  attempts = 1;
  controller = some 1;
}

starts : (upload clip fresh).0 ≡ started
unfolding upload begin_run is_valid_input
starts = refl

-- The first run's late rejection, after a second run has its job.
overtaken :
    (run_all (on_upload clip ∷ on_uploaded 2 77 ∷ on_rejected 1 ∷ []) started).progress ≡ cancelled
unfolding run_all step upload begin_run is_valid_input uploaded rejected
overtaken = refl

run_all-InBudget_example :
    InBudget (run_all (on_rejected 1 ∷ on_retry ∷ on_rejected 2 ∷ on_retry ∷ on_retry ∷ []) started)
run_all-InBudget_example =
    run_all-InBudget (on_rejected 1 ∷ on_retry ∷ on_rejected 2 ∷ on_retry ∷ on_retry ∷ []) started
      (omega arith, λ h. cc h)

submitted-le_example :
    submitted (on_rejected 1 ∷ on_retry ∷ on_rejected 2 ∷ on_retry ∷ on_retry ∷ []) started
    ≤ attempts_remaining started
submitted-le_example =
    submitted-le (on_rejected 1 ∷ on_retry ∷ on_rejected 2 ∷ on_retry ∷ on_retry ∷ []) started
      (omega arith, λ h. cc h) refl
