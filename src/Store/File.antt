-- ===== src/Store/File.antt =====
-- internal/mds/store/memory_file.go: the file table.
pub mod Laws
pub mod Tests
use astra_storage.Base.{
  String, Bool, true, false, not, ◌&&◌, ◌||◌, ◌==◌, List, [], ◌∷◌, Option, none, some, is_some,
  or_keep, or_keep?, if◌then◌else◌, contains,
}
use astra_storage.Base.Int.{ℤ, pos, eq_ℤ}
use astra_storage.Base.Map.{
  Map, lookup, insert, erase, any_value, values_where, insert_all, erase_all,
}
use astra_storage.Base.Text.{has_prefix}
use astra_storage.Base.Slice.{sort_slice, apply_list_window, text_lt}
use astra_storage.Metadata.Inode.{inode_type_file}
use astra_storage.Metadata.Object.{FileMetadata, FileStatus, fixed_chunk_size_bytes}
use astra_storage.Store.State.{
  MemoryState, Outcome, Result, ok, err, not_found, already_exists, invalid_argument, conflict,
  ◌>>=◌, ◌>>◌, fail_if, commit,
}
use astra_storage.Store.Requests.{FileSelector, FileFilter, FilePatch, FilePlacementPatch}
use astra_storage.Store.Select.{find_file, file_has_node, or_error}

abbrev pub with_file : MemoryState → String → FileMetadata → MemoryState
with_file s key f = record s { files = insert key f s.files }

-- `if x == 0 { x = FixedChunkSizeBytes }`
abbrev pub default_chunk_size : ℤ → ℤ
default_chunk_size size = if eq_ℤ size (pos 0) then fixed_chunk_size_bytes else size

abbrev pub with_chunk_size : FileMetadata → FileMetadata
with_chunk_size f = record f { chunk_size = default_chunk_size f.chunk_size }

unfoldable pub create_file : MemoryState → Option FileMetadata → Outcome FileMetadata
create_file s none = (s, err invalid_argument)
create_file s (some f) = commit s do
  fail_if (f.id == "" || f.inode_id == "") invalid_argument
  fail_if (is_some (lookup f.id s.files)) already_exists
  fail_if (any_value (λ e. e.inode_id == f.inode_id) s.files) already_exists
  inode ← or_error (lookup f.inode_id s.inodes)
  fail_if (not (inode.type == inode_type_file)) invalid_argument
  fail_if (not (eq_ℤ (default_chunk_size f.chunk_size) fixed_chunk_size_bytes)) invalid_argument
  ok (with_file s f.id (with_chunk_size f), with_chunk_size f)

unfoldable pub get_file : MemoryState → FileSelector → Result FileMetadata
get_file s q = do entry ← or_error (find_file s.files q); ok entry.1

-- A filter field that is set and that the value fails.
abbrev pub skips : String → Bool → Bool
skips wanted passes = not (wanted == "") && not passes

abbrev pub skips_list : List String → String → Bool
skips_list [] actual = false
skips_list (x ∷ xs) actual = not (contains (x ∷ xs) actual)

abbrev pub file_passes : FileFilter → FileMetadata → Bool
file_passes q f = not (
    skips q.namespace (f.namespace == q.namespace)
    || skips q.parent_inode_id (f.parent_inode_id == q.parent_inode_id)
    || skips q.path_prefix (has_prefix f.path q.path_prefix)
    || skips_list q.status f.status
    || skips q.node_id (file_has_node f q.node_id))

unfoldable pub list_files : MemoryState → FileFilter → List FileMetadata
list_files s q =
    apply_list_window
      (sort_slice (λ a b. text_lt a.path b.path) (values_where (file_passes q) s.files)) q.limit
      q.offset

-- The fields that are written before the chunk size is looked at.
abbrev pub patch_before : FilePatch → FileMetadata → FileMetadata
patch_before p f = record f {
  size = or_keep p.size f.size;
  parent_inode_id = or_keep p.parent_inode_id f.parent_inode_id;
  path = or_keep p.path f.path;
  name = or_keep p.name f.name;
  stored_size = or_keep p.stored_size f.stored_size;
}

abbrev pub patch_after : FilePatch → FileMetadata → FileMetadata
patch_after p f = record f {
  chunk_size = or_keep p.chunk_size f.chunk_size;
  version = or_keep p.version f.version;
  status = or_keep p.status f.status;
  primary_node_id = or_keep p.primary_node_id f.primary_node_id;
  secondary_node_ids = or_keep p.secondary_node_ids f.secondary_node_ids;
  latest_upload_session_id = or_keep p.latest_upload_session_id f.latest_upload_session_id;
  checksum = or_keep p.checksum f.checksum;
  replica_policy = or_keep p.replica_policy f.replica_policy;
  user_metadata = or_keep p.user_metadata f.user_metadata;
  tags = or_keep p.tags f.tags;
  completed_at = or_keep? p.completed_at f.completed_at;
  updated_at = p.updated_at;
}

abbrev pub bad_chunk_size : Option ℤ → Bool
bad_chunk_size none = false
bad_chunk_size (some size) = not (eq_ℤ size fixed_chunk_size_bytes)

-- The record is changed in place: a refused chunk size leaves the fields written before it.
unfoldable pub update_file : MemoryState → FilePatch → Outcome (Unit {0})
update_file s p = elim (find_file s.files p.selector) [
  | none ↦ (s, err not_found)
  | some (key, f) ↦
      if bad_chunk_size p.chunk_size
      then (with_file s key (patch_before p f), err invalid_argument)
      else (with_file s key (patch_after p (patch_before p f)), ok tt)
]

pub update_file_placements : MemoryState → FilePlacementPatch → Outcome (Unit {0})
update_file_placements s p = commit s do
  entry ← or_error (find_file s.files p.selector)
  fail_if (skips_list p.expected_status entry.1.status) conflict
  ok (
    with_file s entry.0 (record entry.1 {
      node_placements = erase_all p.remove_node_ids (insert_all p.upserts entry.1.node_placements);
      updated_at = p.updated_at;
    }),
    tt,
  )

unfoldable pub delete_file : MemoryState → FileSelector → Outcome (Unit {0})
delete_file s q = commit s do
  entry ← or_error (find_file s.files q)
  ok (record s { files = erase entry.1.id s.files }, tt)
