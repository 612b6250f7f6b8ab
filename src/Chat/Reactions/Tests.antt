-- ===== src/Chat/Reactions/Tests.antt =====
-- Tests and instances for src/chat/reaction-sync.ts.
use rewind_app.Common.{ℕ, ◌≡◌, refl, Option, none, some, List, [], ◌∷◌, count}
use rewind_app.Chat.Reactions.{
  ChatRow, newest_patch, apply_reaction_patches, has_id, put, map_of, take_in, patches_of,
  merge_rows, append_message,
}
use rewind_app.Chat.Reactions.Merge.{merge_rows-Once}

abbrev row : ℕ → ℕ → Option ℕ → Option ℕ → ChatRow
row event_id id count revision = record {
  event_id = event_id;
  id = id;
  content = 0;
  reaction_count = count;
  reaction_revision = revision;
}

abbrev loaded : List ChatRow
loaded = row 3 30 (some 1) (some 7) ∷ row 4 40 none none ∷ []

abbrev history : List ChatRow
history = row 2 20 none (some 9) ∷ row 3 30 (some 2) (some 9) ∷ row 4 40 (some 1) none ∷ []

merged :
    merge_rows loaded history
    ≡ row 2 20 none (some 9) ∷ row 3 30 (some 2) (some 9) ∷ row 4 40 none none ∷ []
unfolding merge_rows map_of put take_in patches_of apply_reaction_patches newest_patch
merged = refl

delayed :
    apply_reaction_patches loaded
      (record { message_id = 30; reaction_count = some 0; revision = some 6 } ∷ [])
    ≡ loaded
unfolding apply_reaction_patches newest_patch
delayed = refl

again : append_message loaded 4 40 0 (some 5) ≡ loaded
unfolding append_message merge_rows map_of put take_in patches_of apply_reaction_patches
    newest_patch
again = refl

merge_rows-Once_example : count (has_id 30) (merge_rows loaded history) ≡ 1
merge_rows-Once_example = merge_rows-Once 30 loaded history
