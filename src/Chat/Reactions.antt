-- ===== src/Chat/Reactions.antt =====
-- src/chat/reaction-sync.ts: the loaded rows of a chat and the reactions to them. A message is its
-- identifier, its content and the count of its one reaction, `none` where there are no counts. A
-- `Map` is the list of its rows in the order of insertion.
pub mod Merge
mod Tests
use rewind_app.Common.{
  ℕ, Bool, true, false, ◌&&◌, Option, none, some, List, [], ◌∷◌, ◌++◌, map, ltb, leb, ◌==◌, same,
  is_some, if◌then◌else◌, any, count, order_by, update,
}

pub record ChatRow : Type 0 where
  pub event_id : ℕ
  pub id : ℕ
  pub content : ℕ
  pub reaction_count : Option ℕ
  pub reaction_revision : Option ℕ

pub record ReactionPatch : Type 0 where
  pub message_id : ℕ
  pub reaction_count : Option ℕ
  pub revision : Option ℕ

-- `value ?? 0`
abbrev pub or_zero : Option ℕ → ℕ
or_zero none = 0
or_zero (some n) = n

abbrev pub same_counts : Option ℕ → Option ℕ → Bool
same_counts l r = or_zero l == or_zero r

-- The patch that `byId` holds for a message, with `known` the one that it holds so far.
unfoldable pub newest_patch : ℕ → Option ReactionPatch → List ReactionPatch → Option ReactionPatch
newest_patch id known [] = known
newest_patch id known (p ∷ ps) =
    let wins =
      (p.message_id == id)
      && (elim known [ none ↦ true | some k ↦ leb (or_zero k.revision) (or_zero p.revision) ]) in
    newest_patch id (if wins then some p else known) ps

-- `patch.revision !== undefined && patch.revision < known`
abbrev is_older : Option ℕ → ℕ → Bool
is_older none known = false
is_older (some r) known = ltb r known

abbrev or_known : Option ℕ → Option ℕ → Option ℕ
or_known none known = known
or_known (some r) known = some r

abbrev pub patched : ChatRow → ReactionPatch → ChatRow
patched row p =
    let revision = or_known p.revision row.reaction_revision in
    if is_older p.revision (or_zero row.reaction_revision)
    then row
    else (if same_counts row.reaction_count p.reaction_count && same revision row.reaction_revision
        then row
        else record row { reaction_count = p.reaction_count; reaction_revision = revision })

abbrev pub patch_row : List ReactionPatch → ChatRow → ChatRow
patch_row ps row = elim (newest_patch row.id none ps) [ none ↦ row | some p ↦ patched row p ]

-- The same rows are returned where nothing changed.
unfoldable pub apply_reaction_patches : List ChatRow → List ReactionPatch → List ChatRow
apply_reaction_patches rows ps = map (patch_row ps) rows

abbrev pub has_id : ℕ → ChatRow → Bool
has_id k row = row.id == k

-- `new Map(current.map((row) => [row.message.id, row]))`
unfoldable pub put : ChatRow → List ChatRow → List ChatRow
put row m = if any (has_id row.id) m then update (has_id row.id) (λ _. row) m else m ++ row ∷ []

unfoldable pub map_of : List ChatRow → List ChatRow → List ChatRow
map_of m [] = m
map_of m (r ∷ rs) = map_of (put r m) rs

-- The loop over the incoming rows: those of new messages are added, and of the others the reactions
-- that have a revision are kept as patches.
unfoldable pub take_in : List ChatRow → List ChatRow → List ChatRow
take_in m [] = m
take_in m (r ∷ rs) = take_in (if any (has_id r.id) m then m else m ++ r ∷ []) rs

unfoldable pub patches_of : List ChatRow → List ChatRow → List ReactionPatch
patches_of m [] = []
patches_of m (r ∷ rs) =
    let known = any (has_id r.id) m in
    let rest = patches_of (if known then m else m ++ r ∷ []) rs in
    if known && is_some r.reaction_revision
    then record {
      message_id = r.id;
      reaction_count = r.reaction_count;
      revision = r.reaction_revision;
    }
      ∷ rest
    else rest

abbrev pub event_before : ChatRow → ChatRow → Bool
event_before a b = ltb a.event_id b.event_id

unfoldable pub merge_rows : List ChatRow → List ChatRow → List ChatRow
unfolding map_of take_in patches_of apply_reaction_patches
merge_rows current incoming =
    let known = map_of [] current in
    apply_reaction_patches (order_by event_before (take_in known incoming))
      (patches_of known incoming)

-- A live event has no revision.
unfoldable pub append_message : List ChatRow → ℕ → ℕ → ℕ → Option ℕ → List ChatRow
unfolding merge_rows
append_message rows event_id id content count = merge_rows rows (
    record {
      event_id = event_id;
      id = id;
      content = content;
      reaction_count = count;
      reaction_revision = none;
    }
    ∷ [])
