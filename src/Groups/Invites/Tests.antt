-- ===== src/Groups/Invites/Tests.antt =====
-- Tests and instances for server/src/groups/invites.ts.
use rewind_app.Common.{ℕ, ◌+◌, ◌≤◌, ◌≡◌, refl, true, Option, none, some, List, [], ◌∷◌}
use rewind_app.Tables.{CycleRow, StoredStatus, locked, unpublished}
use rewind_app.Groups.Invites.{
  Store, active, InviteOutcome, invite_expired, denied, full, join_group, join_checked,
  accept_active, accept_code, accept_counted, accept_real_group_invite,
}
use rewind_app.Groups.Throttle.{Scope, account, source, consume_between, consume_guess_attempt}
use rewind_app.Groups.Invites.Members.{accept-within, accept-Joins}
use rewind_app.Groups.Invites.Active.{is_within, Joins}
use rewind_app.Groups.Invites.Single.{AcceptCall, joined_with, accept_once}

abbrev hash : Scope → ℕ → ℕ
hash account n = n
hash source n = n + 1000

abbrev cycle : CycleRow
cycle = record {
  id = 7;
  group_id = 1;
  prompt = 5;
  starts_at = some 1000;
  ends_at = some 3000;
  status = StoredStatus.collecting;
  lock_state = locked;
  max_count = 4;
  max_seconds = 60;
  count_used = 0;
  seconds_used = 0;
  release_status = unpublished;
  release_published_at = none;
  previous_cycle_id = none;
}

abbrev store : ℕ → Store
store most = record {
  database = record {
    cycles = cycle ∷ [];
    groups = record { id = 1; current_cycle_id = some 7 } ∷ [];
    events = [];
    contributions = [];
    jobs = [];
    inputs = [];
  };
  throttles = [];
  invites =
      record {
        id = 50;
        group_id = 1;
        code = 123;
        status = active;
        expires_at = some 200_000_000;
        accepted_by = none;
        accepted_at = none;
      }
      ∷ [];
  memberships =
      record { group_id = 1; account_id = 20; profile_id = 30; is_owner = true; accepted_at = 1000 }
      ∷ [];
  metadata = record { group_id = 1; max_members = most } ∷ [];
  profiles = record { id = 30; account_id = 20 } ∷ [];
  selections = [];
}

abbrev accept : ℕ → ℕ → Option ℕ → Option ℕ → Store × InviteOutcome
accept most now code requested =
    accept_real_group_invite hash 31 21 9 (some now) code requested (store most)

other_group : (accept 2 100_000_000 (some 123) (some 4)).1 ≡ denied
unfolding accept_real_group_invite accept_counted consume_guess_attempt consume_between accept_code
other_group = refl

no_room : (accept 1 100_000_000 (some 123) none).1 ≡ full
unfolding accept_real_group_invite accept_counted consume_guess_attempt consume_between accept_code
    accept_active
no_room = refl

too_late : (accept 2 200_000_000 (some 123) none).1 ≡ invite_expired
unfolding accept_real_group_invite accept_counted consume_guess_attempt consume_between accept_code
    accept_active
too_late = refl

accept-within_example : is_within 1 (accept 2 100_000_000 (some 123) none).0 ≡ true
accept-within_example =
    accept-within hash 31 21 9 (some 100_000_000) (some 123) none (store 2) 1 refl

accept-Joins_example : Joins 21 1 (store 2) (accept 2 100_000_000 (some 123) none).0
unfolding accept_real_group_invite accept_counted consume_guess_attempt consume_between accept_code
    accept_active join_checked join_group
accept-Joins_example = accept-Joins hash 31 21 9 (some 100_000_000) (some 123) none (store 2) 1 refl

abbrev calls : List AcceptCall
calls =
    record {
      profile_id = 31;
      account_id = 21;
      source_id = 9;
      date = some 100_000_000;
      code = some 123;
      requested = none;
    }
    ∷ record {
      profile_id = 32;
      account_id = 22;
      source_id = 9;
      date = some 100_000_500;
      code = some 123;
      requested = none;
    }
    ∷ []

accept_once_example : joined_with hash 123 calls (store 3) ≤ 1
accept_once_example = accept_once hash 123 calls (store 3)

one_joins : joined_with hash 123 calls (store 3) ≡ 1
unfolding joined_with accept_real_group_invite accept_counted consume_guess_attempt consume_between
    accept_code accept_active join_checked join_group
one_joins = refl
