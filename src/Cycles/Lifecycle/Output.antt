-- ===== src/Cycles/Lifecycle/Output.antt =====
-- server/src/cycles/lifecycle.ts: the film of a cycle, and what makes it fit for release.
-- An output row's digest is NULL here where the text is not 64 hex digits; a proof never leaves
-- the process, so that `proof.database === database` holds and is left out.
use rewind_app.Common.{
  ℕ, Bool, true, false, ◌&&◌, Option, none, some, List, [], ◌∷◌, ltb, leb, ◌==◌, same, is_some,
  if◌then◌else◌, keep, order_by, max_safe_integer,
}
use rewind_app.Tables.{
  JobStatus, pending, processing, ready, failed, deleted, MediaJobRow, is_ready, Database,
}
use rewind_app.Jobs.Compilation.{is_film_of}

abbrev pub first_of {ℓ} : {A : Type ℓ} → List A → Option A
first_of [] = none
first_of (x ∷ xs) = some x

unfoldable pub compilation_output : ℕ → ℕ → Database → Option MediaJobRow
compilation_output group_id cycle_id db =
    first_of (
      order_by (λ (j k : MediaJobRow). ltb j.id k.id) (keep (is_film_of group_id cycle_id) db.jobs))

abbrev pub is_parsed : Option (Option ℕ) → Bool
is_parsed none = false
is_parsed (some none) = false
is_parsed (some (some t)) = true

abbrev pub same_date : Option (Option ℕ) → Option (Option ℕ) → Bool
same_date none none = true
same_date (some d) (some e) = same d e
same_date _ _ = false

abbrev pub is_byte_length : Option ℕ → Bool
is_byte_length none = false
is_byte_length (some n) = leb n max_safe_integer && ltb 0 n

-- The committed columns of a film that has its exact output.
abbrev pub has_output : MediaJobRow → Bool
has_output j =
    is_ready j.status
    && is_some j.output_path
    && is_parsed j.output_verified_at
    && is_some j.output_sha256
    && is_byte_length j.output_bytes

abbrev same_status : JobStatus → JobStatus → Bool
same_status pending pending = true
same_status processing processing = true
same_status ready ready = true
same_status failed failed = true
same_status deleted deleted = true
same_status _ _ = false

-- `JSON.stringify` of the two output rows is the same text.
abbrev pub same_output : MediaJobRow → MediaJobRow → Bool
same_output j k =
    (j.id == k.id)
    && same_status j.status k.status
    && same j.output_path k.output_path
    && same j.output_sha256 k.output_sha256
    && same j.output_bytes k.output_bytes
    && same_date j.output_verified_at k.output_verified_at

abbrev same_row : Option MediaJobRow → Option MediaJobRow → Bool
same_row (some j) (some k) = same_output j k
same_row none none = true
same_row _ _ = false

-- The digest and the length that are read from a path, `none` where no file can be read.
abbrev observed_matches : Option (ℕ × ℕ) → MediaJobRow → Bool
observed_matches none j = false
observed_matches (some o) j = same (some o.0) j.output_sha256 && same (some o.1) j.output_bytes

module _ (hash_file : ℕ → Option (ℕ × ℕ)) where
  abbrev pub bytes_match : Option MediaJobRow → MediaJobRow → Bool
  bytes_match (some proof) j = same_output proof j
  bytes_match none j = elim j.output_path [
    | none ↦ false
    | some path ↦ observed_matches (hash_file path) j
  ]

  unfoldable pub has_ready_compilation_output : ℕ → ℕ → Bool → Option MediaJobRow → Database → Bool
  has_ready_compilation_output group_id cycle_id verify_bytes proof db =
      elim (compilation_output group_id cycle_id db) [
        | none ↦ false
        | some j ↦ has_output j && (if verify_bytes then bytes_match proof j else true)
      ]

-- `verifyCompilationOutput`: `before` and `after` are the database before and after the awaited
-- `verifyReadyJobOutput`, of which `verified` is the answer for the row's identifier.
unfoldable pub verify_compilation_output :
    (ℕ → Bool) → ℕ → ℕ → Database → Database → Option MediaJobRow
verify_compilation_output verified group_id cycle_id before after =
    elim (compilation_output group_id cycle_id before) [
      | none ↦ none
      | some row ↦
          if verified row.id && same_row (some row) (compilation_output group_id cycle_id after)
          then some row
          else none
    ]
