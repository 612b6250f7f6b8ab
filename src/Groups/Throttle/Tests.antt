-- ===== src/Groups/Throttle/Tests.antt =====
-- Tests and instances for the guess throttle.
use rewind_app.Common.{ℕ, ◌+◌, ◌≤◌, ◌≡◌, refl, List, [], ◌∷◌, arith}
use rewind_app.Groups.Throttle.{
  Scope, account, source, ThrottleRow, upsert_throttle, consume_between, consume_guess_attempt,
}
use rewind_app.Groups.Throttle.Limit.{passes, guesses-limit}

abbrev hash : Scope → ℕ → ℕ
hash account n = n
hash source n = n + 1000

abbrev tried : ThrottleRow
tried = record {
  scope = account;
  subject_hash = 21;
  attempts = 8;
  window_started_at = 100_000_000;
  updated_at = 100_000_000;
}

abbrev three_guesses : List (ℕ × ℕ)
three_guesses = (9, 100_000_100) ∷ (10, 100_000_200) ∷ (11, 100_000_300) ∷ []

guesses-limit_example : 8 + passes hash 21 three_guesses (tried ∷ []) ≤ 10
guesses-limit_example =
    guesses-limit hash 21 three_guesses (tried ∷ []) tried refl (omega arith)
      (omega arith, (omega arith, (omega arith, tt)))

eleventh : passes hash 21 three_guesses (tried ∷ []) ≡ 2
unfolding passes consume_guess_attempt consume_between upsert_throttle
eleventh = refl
