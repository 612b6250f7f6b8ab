-- ===== src/Cycles/Lifecycle/Tests.antt =====
-- Tests and instances for server/src/cycles/lifecycle.ts.
use rewind_app.Common.{
  ℕ, ◌≡◌, refl, false, Option, none, some, [], ◌∷◌, ◌==◌, if◌then◌else◌, find, Result, ok, err,
  arith,
}
use rewind_app.Tables.{
  CycleRow, GroupRow, MediaJobRow, Database, collecting, locked, unpublished, ready,
}
use rewind_app.Jobs.Compilation.{ensure_compilation_job, new_film, insert_film}
use rewind_app.Cycles.Lifecycle.{
  Failure, to_revealing, to_archived, premiere, too_early, not_ready, is_cycle, read_cycle,
  checked_cycle, read_successor, current_cycle_id, add_event, create_successor, move_pointer,
  ensure_successor, successor_row,
}
use rewind_app.Cycles.Lifecycle.Output.{compilation_output, has_ready_compilation_output}
use rewind_app.Cycles.Lifecycle.Transactions.{
  Advanced, closed_row, archived_row, Published, published_row, close_cycle, archive_cycle,
  publish_row, publish_first, publish_read, publish_cycle_release_verified, end_premiere, settle,
  ensure_film, advance_past_end, advance_cycle, advance_cycle_lifecycle_verified,
}
use rewind_app.Cycles.Lifecycle.Successor.{ensure_successor-new}
use rewind_app.Cycles.Lifecycle.Legal.{advance-LegalStep}
use rewind_app.Cycles.Lifecycle.Parts.{LegalStep}
use rewind_app.Cycles.Lifecycle.Events.{Logs, advance-Logs}
use rewind_app.Cycles.Lifecycle.Release.{Publishes, publish-Publishes}

abbrev cycle : CycleRow
cycle = record {
  id = 7;
  group_id = 1;
  prompt = 5;
  starts_at = some 1000;
  ends_at = some 3000;
  status = collecting;
  lock_state = locked;
  max_count = 4;
  max_seconds = 60;
  count_used = 2;
  seconds_used = 20;
  release_status = unpublished;
  release_published_at = none;
  previous_cycle_id = none;
}

abbrev group : GroupRow
group = record { id = 1; current_cycle_id = some 7 }

abbrev open_db : Database
open_db = record {
  cycles = cycle ∷ [];
  groups = group ∷ [];
  events = [];
  contributions = [];
  jobs = [];
  inputs = [];
}

abbrev film_row : MediaJobRow
unfolding new_film
film_row = record (new_film 90 1 7 3000 0) {
  status = ready;
  output_path = some 4;
  output_sha256 = some 12;
  output_bytes = some 99;
  output_verified_at = some (some 3500);
}

abbrev filmed_db : Database
filmed_db = record open_db { cycles = closed_row cycle ∷ []; jobs = film_row ∷ [] }

abbrev released_db : Database
released_db = record open_db {
  cycles = published_row 4000 (closed_row cycle) ∷ [];
  jobs = film_row ∷ [];
}

abbrev on_disk : ℕ → Option (ℕ × ℕ)
on_disk path = if path == 4 then some (12, 99) else none

abbrev film_id : ℕ → ℕ → ℕ
film_id group_id cycle_id = 90

abbrev successor : CycleRow
successor = successor_row 8 cycle 3000 5000

too_soon : publish_cycle_release_verified on_disk none (some 2999) 1 7 filmed_db ≡ err too_early
unfolding publish_cycle_release_verified publish_read publish_first publish_row read_cycle
    checked_cycle has_ready_compilation_output compilation_output film_row
too_soon = refl

other_bytes :
    publish_cycle_release_verified (λ path. some (13, 99)) none (some 3000) 1 7 filmed_db
    ≡ err not_ready
unfolding publish_cycle_release_verified publish_read publish_first publish_row read_cycle
    checked_cycle has_ready_compilation_output compilation_output film_row
other_bytes = refl

abbrev published_once : Published
published_once = record {
  database = record filmed_db { cycles = published_row 4000 (closed_row cycle) ∷ [] };
  already = false;
  cycle = published_row 4000 (closed_row cycle);
}

publish-Publishes_example :
    (c : CycleRow) × (find (is_cycle 7 1) filmed_db.cycles ≡ some c)
    × Publishes on_disk none 4000 1 7 filmed_db c published_once
unfolding publish_cycle_release_verified publish_read publish_first publish_row read_cycle
    checked_cycle has_ready_compilation_output compilation_output film_row
publish-Publishes_example = publish-Publishes on_disk none 4000 1 7 filmed_db published_once refl

abbrev value_of : Result Failure Advanced → Advanced
value_of (ok r) = r
value_of (err e) = record { database = open_db; action = premiere; cycle = none; next_cycle = none }

abbrev closed : Advanced
closed =
    value_of (advance_cycle_lifecycle_verified on_disk none film_id 8 (some 3000) 1 none open_db)

closed_pointer :
    (closed.action ≡ to_revealing)
    × (closed.next_cycle ≡ some successor)
    × (current_cycle_id 1 closed.database.groups ≡ some 8)
unfolding advance_cycle_lifecycle_verified advance_cycle advance_past_end ensure_film settle
    end_premiere close_cycle archive_cycle ensure_successor create_successor move_pointer
    read_successor read_cycle checked_cycle add_event current_cycle_id ensure_compilation_job
    insert_film has_ready_compilation_output compilation_output
closed_pointer = (refl, refl, refl)

advance-LegalStep_example :
    (row' : CycleRow) × (find (is_cycle 7 1) closed.database.cycles ≡ some row')
    × LegalStep 3000 cycle row'
unfolding advance_cycle_lifecycle_verified advance_cycle advance_past_end ensure_film settle
    end_premiere close_cycle archive_cycle ensure_successor create_successor move_pointer
    read_successor read_cycle checked_cycle add_event current_cycle_id ensure_compilation_job
    insert_film has_ready_compilation_output compilation_output
advance-LegalStep_example =
    advance-LegalStep on_disk none film_id 8 1 none open_db closed 3000 7 1 cycle refl refl

abbrev ended : Advanced
ended = value_of (
    advance_cycle_lifecycle_verified on_disk none film_id 8 (some 86_404_000) 1 (some 7)
      released_db)

ended_archived :
    (ended.action ≡ to_archived)
    × (ended.cycle ≡ some (archived_row (published_row 4000 (closed_row cycle))))
unfolding advance_cycle_lifecycle_verified advance_cycle advance_past_end ensure_film settle
    end_premiere close_cycle archive_cycle ensure_successor create_successor move_pointer
    read_successor read_cycle checked_cycle add_event current_cycle_id ensure_compilation_job
    insert_film has_ready_compilation_output compilation_output
ended_archived = (refl, refl)

advance-Logs_example :
    Logs
      (published_row 4000 (closed_row cycle))
      86_404_000
      released_db.events
      ended.database.events
      ended.action
unfolding advance_cycle_lifecycle_verified advance_cycle advance_past_end ensure_film settle
    end_premiere close_cycle archive_cycle ensure_successor create_successor move_pointer
    read_successor read_cycle checked_cycle add_event current_cycle_id ensure_compilation_job
    insert_film has_ready_compilation_output compilation_output
advance-Logs_example =
    advance-Logs on_disk none film_id 8 1 7 (published_row 4000 (closed_row cycle)) released_db
      ended 86_404_000 refl refl

ensure_successor-new_example :
    (r : Database × CycleRow) × (ensure_successor 8 cycle open_db ≡ ok r)
    × (r.1 ≡ successor)
    × (read_successor 7 1 r.0.cycles ≡ ok (some r.1))
ensure_successor-new_example =
    ensure_successor-new 8 cycle open_db 1000 3000 refl refl (omega arith) (omega arith) refl refl
