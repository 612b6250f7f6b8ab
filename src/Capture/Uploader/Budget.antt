-- ===== src/Capture/Uploader/Budget.antt =====
-- src/capture/clip-uploader.ts: the attempts that a clip has.
use rewind_app.Common.{
  ℕ, ◌+◌, ◌≤◌, ◌≡◌, Bool, true, false, not, ◌||◌, none, List, [], ◌∷◌, ltb, if◌then◌else◌, all,
  arith,
}
use rewind_app.Capture.Uploader.{
  ClipUploadSession, max_clip_upload_attempts, can_retry, attempts_remaining, begin_run, upload,
  retry, cancel, forget, prepared, rejected, uploaded, Event, on_upload, on_retry, on_forget, step,
  run_all,
}

-- The attempts are within the budget, and a session without a clip has spent none.
abbrev pub InBudget : ClipUploadSession → Type 0
InBudget s = (s.attempts ≤ max_clip_upload_attempts) × ((s.last_input ≡ none) → s.attempts ≡ 0)

step-InBudget : (e : Event) (s : ClipUploadSession) → InBudget s → InBudget (step e s)
unfolding step upload retry cancel forget prepared rejected uploaded begin_run can_retry
step-InBudget e s h = ground (arith, h)

-- Whatever its events are, a session is within its budget of three attempts.
pub run_all-InBudget :
    (es : List Event) (s : ClipUploadSession) → InBudget s → InBudget (run_all es s)
unfolding run_all
run_all-InBudget [] s h = h
run_all-InBudget (e ∷ es) s h = run_all-InBudget es (step e s) (step-InBudget e s h)

abbrev is_upload : Event → Bool
is_upload (on_upload input) = true
is_upload _ = false

abbrev is_forget : Event → Bool
is_forget on_forget = true
is_forget _ = false

-- Whether a retry begins a run: the session has a new generation.
abbrev begins : ClipUploadSession → ℕ
begins s = if ltb s.generation (retry s).0.generation then 1 else 0

-- How many runs the retries of a sequence of events begin.
unfoldable pub submitted : List Event → ClipUploadSession → ℕ
submitted [] s = 0
submitted (e ∷ es) s = (elim e [ on_retry ↦ begins s | _ ↦ 0 ]) + submitted es (step e s)

step-attempts :
    (e : Event) (s : ClipUploadSession)
    → (is_upload e || is_forget e) ≡ false
    → (step e s).attempts ≡ (elim e as (λ _. ℕ) [ on_retry ↦ begins s | _ ↦ 0 ]) + s.attempts
unfolding step upload retry cancel forget prepared rejected uploaded begin_run can_retry
step-attempts e s h = ground (arith, h)

-- In a session within its budget, until a new clip is uploaded or the clip is forgotten, the runs
-- that retries begin are no more than the attempts that remain, whatever the other events are.
pub submitted-le :
    (es : List Event) (s : ClipUploadSession)
    → InBudget s
    → all (λ e. not (is_upload e || is_forget e)) es ≡ true
    → submitted es s ≤ attempts_remaining s
unfolding submitted attempts_remaining
submitted-le [] s b h = ground (arith, b)
submitted-le (e ∷ es) s b h = ground (
  arith,
  b,
  h,
  step-attempts e s (ground (arith, h)),
  submitted-le es (step e s) (step-InBudget e s b),
  step-InBudget e s b,
)
