-- ===== src/Jobs/Queue.antt =====
-- server/src/jobs/queue.ts: the pages of the active jobs of a group. A cursor is the record that its
-- text stands for, since the text is JSON in base64, and the length of that text is an argument; a text
-- that cannot be read is `none`. The rows
-- that `SELECT ... WHERE ... ORDER BY` gives are the ordered table's rows that pass the test.
pub mod Order
pub mod Pages
mod Tests
use rewind_app.Common.{
  ℕ, Bool, true, false, ◌&&◌, ◌||◌, Option, none, some, List, [], ◌∷◌, map, ltb, leb, ◌==◌, suc,
  min, is_some, if◌then◌else◌, keep, length, take, order_by, fmap, or_else, Result, ok, err, ◌>>=◌,
  ◌>>◌, Number, max_safe_integer, safe_within,
}
use rewind_app.Tables.{
  JobKind, clip, film, download, JobStatus, pending, processing, ready, failed, deleted, ErrorCode,
  invalid_metadata, source_unavailable, process_failed, cleanup_failed, MediaJobRow,
}

abbrev pub queue_default_page_size : ℕ
queue_default_page_size = 50

abbrev pub queue_max_page_size : ℕ
queue_max_page_size = 100

abbrev pub queue_max_film_attempts : ℕ
queue_max_film_attempts = 3

pub data QueueJobKind : Type 0 where
  clip_job film_job : QueueJobKind

pub data QueueJobStatus : Type 0 where
  is_pending is_processing is_failed : QueueJobStatus

pub data QueueFailureCategory : Type 0 where
  bad_metadata no_source processing_failed unknown_failure : QueueFailureCategory

pub record QueueJobObservation : Type 0 where
  pub id : ℕ
  pub kind : QueueJobKind
  pub status : QueueJobStatus
  pub attempts : ℕ
  pub failure_category : Option QueueFailureCategory
  pub progress : ℕ
  pub created_at : ℕ
  pub updated_at : ℕ
  pub processing_started_at : Option ℕ
  pub failed_at : Option ℕ
  pub retryable : Bool

pub record QueueCursor : Type 0 where
  pub group_id : ℕ
  pub kind : Option QueueJobKind
  pub status : Option QueueJobStatus
  pub created_at : ℕ
  pub id : ℕ

pub record QueueJobsPage : Type 0 where
  pub jobs : List QueueJobObservation
  pub limit : ℕ
  pub has_more : Bool
  pub next_cursor : Option QueueCursor

pub data QueueQueryError : Type 0 where
  bad_limit bad_cursor : QueueQueryError

-- `none` is the empty or missing limit.
unfoldable pub parse_queue_limit : Option Number → Result QueueQueryError ℕ
parse_queue_limit none = ok queue_default_page_size
parse_queue_limit (some value) = elim (safe_within 1 queue_max_page_size value) [
  | none ↦ err bad_limit
  | some n ↦ ok n
]

abbrev pub same_kind : Option QueueJobKind → Option QueueJobKind → Bool
same_kind none none = true
same_kind (some clip_job) (some clip_job) = true
same_kind (some film_job) (some film_job) = true
same_kind _ _ = false

abbrev pub same_status : Option QueueJobStatus → Option QueueJobStatus → Bool
same_status none none = true
same_status (some is_pending) (some is_pending) = true
same_status (some is_processing) (some is_processing) = true
same_status (some is_failed) (some is_failed) = true
same_status _ _ = false

abbrev pub max_cursor_length : ℕ
max_cursor_length = 512

unfoldable pub decode_cursor :
    (QueueCursor → ℕ)
    → Option QueueCursor
    → ℕ
    → Option QueueJobKind
    → Option QueueJobStatus
    → Result QueueQueryError QueueCursor
decode_cursor encoded_length none group_id kind status = err bad_cursor
decode_cursor encoded_length (some c) group_id kind status =
    if leb (encoded_length c) max_cursor_length
      && (c.group_id == group_id)
      && same_kind c.kind kind
      && same_status c.status status
    then ok c
    else err bad_cursor

abbrev pub queue_kind : JobKind → Option QueueJobKind
queue_kind clip = some clip_job
queue_kind film = some film_job
queue_kind download = none

abbrev pub queue_status : JobStatus → Option QueueJobStatus
queue_status pending = some is_pending
queue_status processing = some is_processing
queue_status failed = some is_failed
queue_status ready = none
queue_status deleted = none

abbrev pub failure_of : Option ErrorCode → QueueFailureCategory
failure_of none = unknown_failure
failure_of (some e) = elim e [
  | invalid_metadata ↦ bad_metadata
  | source_unavailable ↦ no_source
  | process_failed ↦ processing_failed
  | cleanup_failed ↦ processing_failed
  | _ ↦ unknown_failure
]

unfoldable pub safe_failure_category :
    QueueJobStatus → Option ErrorCode → Option QueueFailureCategory
safe_failure_category is_failed code = some (failure_of code)
safe_failure_category is_pending code = none
safe_failure_category is_processing code = none

abbrev or_first : Option ℕ → ℕ → ℕ
or_first none d = d
or_first (some a) d = a

abbrev is_retryable : QueueJobStatus → QueueJobKind → ℕ → Bool
is_retryable is_pending kind attempts = true
is_retryable is_processing kind attempts = false
is_retryable is_failed clip_job attempts = true
is_retryable is_failed film_job attempts = ltb attempts queue_max_film_attempts

abbrev failed_time : QueueJobStatus → Option ℕ → ℕ → Option ℕ
failed_time status (some t) updated_at = some t
failed_time is_failed none updated_at = some updated_at
failed_time is_pending none updated_at = none
failed_time is_processing none updated_at = none

unfoldable pub map_queue_job : MediaJobRow → QueueJobObservation
unfolding safe_failure_category
map_queue_job row =
    let kind = or_else (queue_kind row.kind) clip_job in
    let status = or_else (queue_status row.status) is_pending in
    let updated_at = or_first row.updated_at (or_first row.processing_started_at row.created_at) in
    let attempts = min max_safe_integer row.attempt_count in
    record {
      id = row.id;
      kind = kind;
      status = status;
      attempts = attempts;
      failure_category = safe_failure_category status row.error_code;
      progress = min 100 row.progress;
      created_at = row.created_at;
      updated_at = updated_at;
      processing_started_at = row.processing_started_at;
      failed_at = failed_time status row.failed_at updated_at;
      retryable = is_retryable status kind attempts;
    }

abbrev pub key_before : ℕ → ℕ → MediaJobRow → Bool
key_before created_at id j =
    ltb created_at j.created_at || ((created_at == j.created_at) && ltb id j.id)

abbrev pub row_before : MediaJobRow → MediaJobRow → Bool
row_before i j = key_before i.created_at i.id j

abbrev asked_kind : Option QueueJobKind → JobKind → Bool
asked_kind none k = is_some (queue_kind k)
asked_kind (some asked) k = same_kind (queue_kind k) (some asked)

abbrev asked_status : Option QueueJobStatus → JobStatus → Bool
asked_status none st = is_some (queue_status st)
asked_status (some asked) st = same_status (queue_status st) (some asked)

-- The clauses that every page has, and that of the cursor.
abbrev pub is_asked : ℕ → Option QueueJobKind → Option QueueJobStatus → MediaJobRow → Bool
is_asked group_id kind status j =
    (j.group_id == group_id) && asked_kind kind j.kind && asked_status status j.status

abbrev pub past_cursor : Option QueueCursor → MediaJobRow → Bool
past_cursor none j = true
past_cursor (some c) j = key_before c.created_at c.id j

abbrev pub last_of : List MediaJobRow → Option MediaJobRow
last_of [] = none
last_of (x ∷ xs) = elim (last_of xs) [ none ↦ some x | some y ↦ some y ]

abbrev pub cursor_at : ℕ → Option QueueJobKind → Option QueueJobStatus → MediaJobRow → QueueCursor
cursor_at group_id kind status j = record {
  group_id = group_id;
  kind = kind;
  status = status;
  created_at = j.created_at;
  id = j.id;
}

-- The page of the first `limit` rows of those found.
unfoldable pub page_of :
    ℕ → Option QueueJobKind → Option QueueJobStatus → ℕ → List MediaJobRow → QueueJobsPage
page_of group_id kind status limit rows =
    let has_more = ltb limit (length (take (suc limit) rows)) in
    let page_rows = take limit (take (suc limit) rows) in
    record {
      jobs = map map_queue_job page_rows;
      limit = limit;
      has_more = has_more;
      next_cursor =
          if has_more then fmap (cursor_at group_id kind status) (last_of page_rows) else none;
    }

unfoldable pub read_cursor :
    (QueueCursor → ℕ)
    → Option (Option QueueCursor)
    → ℕ
    → Option QueueJobKind
    → Option QueueJobStatus
    → Result QueueQueryError (Option QueueCursor)
unfolding decode_cursor
read_cursor encoded_length none group_id kind status = ok none
read_cursor encoded_length (some text) group_id kind status =
    decode_cursor encoded_length text group_id kind status >>= λ c. ok (some c)

unfoldable pub list_queue_jobs :
    (QueueCursor → ℕ)
    → ℕ
    → Option QueueJobKind
    → Option QueueJobStatus
    → Option Number
    → Option (Option QueueCursor)
    → List MediaJobRow
    → Result QueueQueryError QueueJobsPage
unfolding parse_queue_limit read_cursor page_of
list_queue_jobs encoded_length group_id kind status limit cursor table = do
  n ← parse_queue_limit limit
  c ← read_cursor encoded_length cursor group_id kind status
  ok (
      page_of group_id kind status n (
        keep (λ (j : MediaJobRow). is_asked group_id kind status j && past_cursor c j)
          (order_by row_before table)))
