-- ===== src/Jobs/Queue/Tests.antt =====
-- Tests and instances for server/src/jobs/queue.ts.
use rewind_app.Common.{ℕ, ◌+◌, ◌≡◌, refl, none, some, List, [], ◌∷◌, map, err, arith, whole}
use rewind_app.Tables.{
  clip, JobStatus, pending, processing, ready, failed, invalid_metadata, MediaJobRow, video,
}
use rewind_app.Jobs.Queue.{
  clip_job, bad_cursor, bad_limit, map_queue_job, parse_queue_limit, QueueCursor, decode_cursor,
  cursor_at,
}
use rewind_app.Jobs.Queue.Pages.{walk, asked, walk-asked}

abbrev job : ℕ → ℕ → JobStatus → MediaJobRow
job id created_at status = record {
  id = id;
  group_id = 1;
  contribution_id = some id;
  kind = clip;
  status = status;
  output_path = none;
  created_at = created_at;
  source_path = none;
  source_uri = none;
  source_generation = none;
  error_code = some invalid_metadata;
  processing_started_at = none;
  cycle_id = none;
  progress = 0;
  input_count = 0;
  completed_count = 0;
  claim_generation = 1;
  deleted_at = none;
  attempt_count = 1;
  updated_at = none;
  failed_at = none;
  output_sha256 = none;
  output_bytes = none;
  output_verified_at = none;
  media_type = video;
}

abbrev table : List MediaJobRow
table = job 4 30 pending ∷ job 2 20 failed ∷ job 3 20 processing ∷ job 5 10 ready ∷ []

-- The length of a text that is longer for a greater identifier.
abbrev length_of : QueueCursor → ℕ
length_of c = 100 + c.id

rising : map (λ (j : MediaJobRow). j.id) (asked length_of 1 none none 2 table) ≡ 2 ∷ 3 ∷ 4 ∷ []
rising = refl

too_long : parse_queue_limit (some (whole 101)) ≡ err bad_limit
unfolding parse_queue_limit
too_long = refl

too_long_cursor :
    decode_cursor length_of (some (cursor_at 1 none none (job 413 20 failed))) 1 none none
    ≡ err bad_cursor
unfolding decode_cursor
too_long_cursor = refl

other_filter :
    decode_cursor length_of (some (cursor_at 1 none none (job 2 20 failed))) 1 (some clip_job) none
    ≡ err bad_cursor
unfolding decode_cursor
other_filter = refl

walk-asked_example :
    walk length_of 1 none none 2 table 4 none
    ≡ some (map map_queue_job (asked length_of 1 none none 2 table))
walk-asked_example =
    walk-asked length_of 1 none none 2 table (omega arith) (omega arith)
      ((refl, (refl, (refl, tt))), ((refl, (refl, tt)), ((refl, tt), (tt, tt))))
      (omega arith, (omega arith, (omega arith, (omega arith, tt))))
