-- ===== src/Store/File/Tests.antt =====
-- Runs of the file operations on concrete files.
use astra_storage.Base.{[], ◌∷◌, none, some, ◌≡◌, ◌≢◌, refl, arith}
use astra_storage.Base.Int.{ℤ, pos}
use astra_storage.Base.Map.{lookup, insert, any_value}
use astra_storage.Base.Map.Laws.{none-ne-some}
use astra_storage.Store.State.{MemoryState, new_memory_state, err, invalid_argument, already_exists}
use astra_storage.Store.Requests.{FilePatch}
use astra_storage.Store.Select.{find_file}
use astra_storage.Store.File.{create_file, update_file}
use astra_storage.Store.File.Laws.{
  IsFiled, create, update, run_file_calls, run_file_calls-IsFiled, update_file-partial,
}
use astra_storage.Store.Fixtures.{note, note_file, file_of, with_note}

-- A repository with the inode of the file.
abbrev with_inode_only : MemoryState
with_inode_only = record new_memory_state { inodes = ("i3", note) ∷ [] }

abbrev resize : ℤ → FilePatch
resize chunk_size = record {
  selector = file_of "f1";
  parent_inode_id = none;
  path = none;
  name = none;
  size = some (pos 77);
  stored_size = none;
  chunk_size = some chunk_size;
  version = none;
  status = none;
  primary_node_id = none;
  secondary_node_ids = none;
  latest_upload_session_id = none;
  checksum = none;
  replica_policy = none;
  user_metadata = none;
  tags = none;
  completed_at = none;
  updated_at = 3;
}

twice_refused :
    (create_file (create_file with_inode_only (some note_file)).0 (some note_file)).1
    ≡ err already_exists
unfolding create_file insert lookup any_value
twice_refused = refl

pub IsFiled-empty : IsFiled []
unfolding lookup
IsFiled-empty = record {
  is_map = tt;
  keyed = λ k f e. absurd (none-ne-some e);
  chunk_sized = λ k f e. absurd (none-ne-some e);
  one_inode = λ k l f g e. absurd (none-ne-some e);
}

run_file_calls-IsFiled_example :
    IsFiled
      (run_file_calls with_inode_only (
        create (some note_file)
        ∷ update (resize (pos 1))
        ∷ update (resize (pos 4194304))
        ∷ [])).files
run_file_calls-IsFiled_example =
    run_file_calls-IsFiled with_inode_only
      (create (some note_file) ∷ update (resize (pos 1)) ∷ update (resize (pos 4194304)) ∷ [])
      IsFiled-empty

found : find_file with_note.files (file_of "f1") ≡ some ("f1", note_file)
unfolding find_file lookup
found = refl

stored : lookup "f1" with_note.files ≡ some note_file
unfolding lookup
stored = refl

other_size : ◌≢◌ {A = ℤ} (pos 5000000) (pos 77)
other_size e = ground arith

update_file-partial_example :
    ((update_file with_note (resize (pos 1))).1 ≡ err invalid_argument)
    × ((update_file with_note (resize (pos 1))).0 ≢ with_note)
update_file-partial_example =
    update_file-partial with_note (resize (pos 1)) "f1" note_file (pos 77) found stored refl refl
      other_size
