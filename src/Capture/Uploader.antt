-- ===== src/Capture/Uploader.antt =====
-- src/capture/clip-uploader.ts: the upload session of one clip. The session object's private fields
-- are a record. An `await` ends a step: a run is known by its generation, and what resolves or
-- rejects it later is a step of its own, with the transport's answer as an argument. The steps of
-- one run between two awaits are one function.
pub mod Budget
pub mod Stale
mod Tests
use rewind_app.Common.{
  ℕ, ◌+◌, ◌-◌, ◌*◌, Bool, true, false, ◌&&◌, Option, none, some, List, [], ◌∷◌, ltb, leb, ◌==◌,
  same, is_some, if◌then◌else◌, Number, whole, other,
}

abbrev pub max_clip_bytes : ℕ
max_clip_bytes = 50 * 1024 * 1024

-- Microseconds: `MAX_CLIP_DURATION_SECONDS` of src/domain/video.ts is 15.
abbrev pub max_clip_duration : ℕ
max_clip_duration = 15 * 1_000_000

abbrev pub max_clip_upload_attempts : ℕ
max_clip_upload_attempts = 3

-- The texts as far as they are tested: whether they match the patterns, and are there.
pub record ClipUploadInput : Type 0 where
  pub key_matches : Bool
  pub replaced_matches : Option Bool
  pub has_source : Bool
  pub is_mp4 : Bool
  pub byte_length : Number
  pub duration : Option ℕ
  pub width : Number
  pub height : Number
  pub has_audio : Bool

pub data Progress : Type 0 where
  idle validating uploading cancelled : Progress
  complete : ℕ → Progress
  failed : ℕ → Progress

pub record ClipUploadSession : Type 0 where
  pub progress : Progress
  pub last_input : Option ClipUploadInput
  pub generation : ℕ
  pub active_job_id : Option ℕ
  pub attempts : ℕ
  pub controller : Option ℕ

unfoldable pub new_session : ClipUploadSession
new_session = record {
  progress = idle;
  last_input = none;
  generation = 0;
  active_job_id = none;
  attempts = 0;
  controller = none;
}

-- The numbers are whole where `Number.isInteger` holds; the code asks no more of them.
abbrev positive : Number → Bool
positive (whole n) = ltb 0 n
positive other = false

abbrev at_most : ℕ → Number → Bool
at_most most (whole n) = leb n most
at_most most other = false

abbrev allowed_duration : Option ℕ → Bool
allowed_duration none = false
allowed_duration (some d) = ltb 0 d && leb d max_clip_duration

unfoldable pub is_valid_input : ClipUploadInput → Bool
is_valid_input i =
    i.key_matches
    && (elim i.replaced_matches [ none ↦ true | some b ↦ b ])
    && i.has_source
    && i.is_mp4
    && positive i.byte_length
    && at_most max_clip_bytes i.byte_length
    && allowed_duration i.duration
    && positive i.width
    && positive i.height
    && i.has_audio

unfoldable pub can_retry : ClipUploadSession → Bool
can_retry s = is_some s.last_input && ltb s.attempts max_clip_upload_attempts

unfoldable pub attempts_remaining : ClipUploadSession → ℕ
attempts_remaining s = max_clip_upload_attempts - s.attempts

-- `runUpload` to its first await: the run is the session's new generation.
unfoldable pub begin_run : ClipUploadSession → ClipUploadSession
begin_run s = record s {
  controller = some (s.generation + 1);
  generation = s.generation + 1;
  progress = uploading;
}

pub data Refusal : Type 0 where
  validation missing_input attempts_exhausted : Refusal

unfoldable pub upload : ClipUploadInput → ClipUploadSession → ClipUploadSession × Option Refusal
unfolding begin_run is_valid_input
upload input s =
    if is_valid_input input
    then (begin_run (record s { last_input = some input; attempts = 1 }), none)
    else (record s { progress = failed 0 }, some validation)

unfoldable pub retry : ClipUploadSession → ClipUploadSession × Option Refusal
unfolding begin_run can_retry
retry s =
    if is_some s.last_input
    then (if can_retry s
        then (begin_run (record s { attempts = s.attempts + 1 }), none)
        else (s, some attempts_exhausted))
    else (s, some missing_input)

-- `finally { if (this.controller === controller) this.controller = null; }`
abbrev drop_controller : ℕ → ClipUploadSession → ClipUploadSession
drop_controller run s = if same s.controller (some run) then record s { controller = none } else s

-- The transport's job for a run: the session, and the job that the run then cancels itself. A
-- cancellation that fails ends the run as one that succeeds does.
unfoldable pub uploaded : ℕ → ℕ → ClipUploadSession → ClipUploadSession × Option ℕ
uploaded run job s =
    if run == s.generation
    then (
      drop_controller run (record s { active_job_id = some job; progress = complete job }),
      none,
    )
    else (drop_controller run (record s { progress = cancelled }), some job)

-- A rejection of a run, by the preparation of its input or by the transport.
unfoldable pub rejected : ℕ → ClipUploadSession → ClipUploadSession
rejected run s =
    if run == s.generation
    then drop_controller run (record s { progress = failed 10 })
    else drop_controller run (record s { progress = cancelled })

-- The prepared input of a run: whether its clip is sent now.
unfoldable pub prepared : ℕ → ClipUploadSession → ClipUploadSession × Bool
unfolding rejected
prepared run s = if run == s.generation then (s, true) else (rejected run s, false)

-- The session, and the job that the transport is asked to cancel.
unfoldable pub cancel : ClipUploadSession → ClipUploadSession × Option ℕ
cancel s = (
  record s {
    generation = s.generation + 1;
    controller = none;
    active_job_id = none;
    progress = cancelled;
  },
  s.active_job_id,
)

unfoldable pub forget : ClipUploadSession → ClipUploadSession
forget s = record s { last_input = none; active_job_id = none; attempts = 0; progress = idle }

pub data Event : Type 0 where
  on_upload : ClipUploadInput → Event
  on_retry on_cancel on_forget : Event
  on_prepared on_rejected : ℕ → Event
  on_uploaded : (run job : ℕ) → Event

unfoldable pub step : Event → ClipUploadSession → ClipUploadSession
unfolding upload retry cancel forget prepared rejected uploaded
step (on_upload input) s = (upload input s).0
step on_retry s = (retry s).0
step on_cancel s = (cancel s).0
step on_forget s = forget s
step (on_prepared run) s = (prepared run s).0
step (on_rejected run) s = rejected run s
step (on_uploaded run job) s = (uploaded run job s).0

unfoldable pub run_all : List Event → ClipUploadSession → ClipUploadSession
unfolding step
run_all [] s = s
run_all (e ∷ es) s = run_all es (step e s)
