-- ===== src/Store/Inode.antt =====
-- internal/mds/store/memory_inode.go: the directory tree.
-- The walk of `is_descendant` gets one round for each inode and one more.
pub mod Effects
pub mod Walk
pub mod Tree
pub mod Invariant
pub mod Step
pub mod Ends
pub mod Run
pub mod Tests
use astra_storage.Base.{
  ℕ, zero, suc, String, Bool, true, false, not, ◌&&◌, ◌||◌, ◌==◌, List, [], ◌∷◌, map, Option, none,
  some, is_some, or_keep, or_keep?, if◌then◌else◌,
}
use astra_storage.Base.Map.{Map, lookup, insert, erase, any_value, values_where, map_values, size}
use astra_storage.Base.Text.{◌++◌, has_prefix, trim_prefix}
use astra_storage.Base.Slice.{sort_slice, apply_list_window, text_lt}
use astra_storage.Metadata.Inode.{
  InodeMetadata, InodeId, InodeType, DirectoryEntry, root_inode_id, inode_type_file,
  inode_type_directory, inode_status_deleting, inode_status_deleted,
}
use astra_storage.Store.State.{
  MemoryState, Outcome, Result, ok, err, not_found, already_exists, invalid_argument, conflict,
  panicked, diverged, ◌>>=◌, ◌>>◌, fail_if, commit,
}
use astra_storage.Store.Requests.{
  InodeSelector, InodePatch, ListOptions, MoveInodeOperation, RenameInodeOperation,
  UpdateSubtreePathsOperation,
}
use astra_storage.Store.Select.{
  find_inode, name_taken, is_descendant, join_path, replace_base_name, differs?, or_error,
}

abbrev pub enough : MemoryState → ℕ
enough s = suc (size s.inodes)

abbrev pub with_inode : MemoryState → String → InodeMetadata → MemoryState
with_inode s key i = record s { inodes = insert key i s.inodes }

unfoldable pub check_parent : MemoryState → InodeMetadata → Result (Unit {0})
check_parent s i =
    if i.id == root_inode_id
    then (do
      fail_if (not (i.parent_id == "")) invalid_argument
      fail_if (any_value (λ e. e.id == root_inode_id) s.inodes) already_exists)
    else (do
      parent ← or_error (lookup i.parent_id s.inodes)
      fail_if (not (parent.type == inode_type_directory)) invalid_argument)

-- A directory carries no file.
abbrev pub without_file : InodeMetadata → InodeMetadata
without_file i = if i.type == inode_type_directory then record i { file_id = "" } else i

-- The result is the caller's record as the call leaves it.
unfoldable pub create_inode : MemoryState → Option InodeMetadata → Outcome InodeMetadata
unfolding check_parent
create_inode s none = (s, err invalid_argument)
create_inode s (some i) = commit s do
  fail_if (i.id == "") invalid_argument
  fail_if (i.name == "" && not (i.id == root_inode_id)) invalid_argument
  fail_if (not (i.type == inode_type_directory) && not (i.type == inode_type_file)) invalid_argument
  fail_if (is_some (lookup i.id s.inodes)) already_exists
  check_parent s i
  fail_if (name_taken s.inodes i.parent_id i.name i.id) already_exists
  ok (with_inode s i.id (without_file i), without_file i)

unfoldable pub get_inode : MemoryState → InodeSelector → Result InodeMetadata
get_inode s q = do entry ← or_error (find_inode s.inodes q); ok entry.1

abbrev pub directory_entry : InodeMetadata → DirectoryEntry
directory_entry i = record {
  parent_id = i.parent_id;
  child_id = i.id;
  name = i.name;
  type = i.type;
  created_at = i.created_at;
  updated_at = i.updated_at;
}

abbrev pub is_listed : InodeId → InodeMetadata → Bool
is_listed parent_id i = not (not (i.parent_id == parent_id) || i.status == inode_status_deleted)

unfoldable pub list_children : MemoryState → InodeId → ListOptions → Result (List DirectoryEntry)
list_children s parent_id opts = do
  fail_if (parent_id == "") invalid_argument
  fail_if (not (is_some (lookup parent_id s.inodes))) not_found
  ok (
      apply_list_window
        (sort_slice (λ a b. text_lt a.name b.name)
          (map directory_entry (values_where (is_listed parent_id) s.inodes)))
        opts.limit opts.offset)

abbrev pub patch_inode : InodePatch → InodeMetadata → InodeMetadata
patch_inode p i = record i {
  path = or_keep p.path i.path;
  name = or_keep p.name i.name;
  parent_id = or_keep p.parent_id i.parent_id;
  status = or_keep p.status i.status;
  size = or_keep p.size i.size;
  permissions = or_keep p.permissions i.permissions;
  owner = or_keep p.owner i.owner;
  group = or_keep p.group i.group;
  link_count = or_keep p.link_count i.link_count;
  generation = or_keep p.generation i.generation;
  accessed_at = or_keep? p.accessed_at i.accessed_at;
  updated_at = p.updated_at;
}

-- The patch renames the inode to a name that a sibling has.
abbrev pub rename_clashes : Map InodeMetadata → Option String → InodeMetadata → Bool
rename_clashes inodes none i = false
rename_clashes inodes (some name) i =
    not (name == i.name) && name_taken inodes i.parent_id name i.id

unfoldable pub update_inode : MemoryState → InodePatch → Outcome (Unit {0})
update_inode s p = commit s do
  entry ← or_error (find_inode s.inodes p.selector)
  fail_if (rename_clashes s.inodes p.name entry.1) already_exists
  ok (with_inode s entry.0 (patch_inode p entry.1), tt)

abbrev pub is_leaving : InodeMetadata → Bool
is_leaving i = i.status == inode_status_deleting || i.status == inode_status_deleted

-- The test that keeps a directory out of its own subtree.
unfoldable pub check_no_cycle : MemoryState → InodeMetadata → InodeId → Result (Unit {0})
check_no_cycle s i target =
    if i.type == inode_type_directory
    then elim (is_descendant (enough s) s.inodes target i.id) [
      | none ↦ err diverged
      | some inside ↦ fail_if inside invalid_argument
    ]
    else ok tt

abbrev pub new_name_of : MoveInodeOperation → InodeMetadata → String
new_name_of op i = if op.new_name == "" then i.name else op.new_name

abbrev pub moved : MoveInodeOperation → InodeMetadata → InodeMetadata
moved op i = record i {
  parent_id = op.target_parent_id;
  name = new_name_of op i;
  path = join_path op.target_parent_path (new_name_of op i);
  updated_at = op.updated_at;
}

unfoldable pub move_inode : MemoryState → MoveInodeOperation → Outcome (Unit {0})
unfolding check_no_cycle
move_inode s op = commit s do
  entry ← or_error (find_inode s.inodes op.selector)
  fail_if (is_leaving entry.1) conflict
  fail_if (differs? op.expected_type entry.1.type) conflict
  parent ← or_error (lookup op.target_parent_id s.inodes)
  fail_if (not (parent.type == inode_type_directory)) invalid_argument
  fail_if (entry.1.id == op.target_parent_id) invalid_argument
  check_no_cycle s entry.1 op.target_parent_id
  fail_if (name_taken s.inodes op.target_parent_id (new_name_of op entry.1) entry.1.id)
      already_exists
  ok (with_inode s entry.0 (moved op entry.1), tt)

-- The name is written before the new path is computed, and stays if that panics.
unfoldable pub rename_entry :
    MemoryState → RenameInodeOperation → String → InodeMetadata → Outcome (Unit {0})
rename_entry s op key i = elim (replace_base_name i.path op.new_name) [
  | none ↦ (with_inode s key (record i { name = op.new_name }), err panicked)
  | some path ↦ (
    with_inode s key (record i { name = op.new_name; path = path; updated_at = op.updated_at }),
    ok tt,
  )
]

unfoldable pub check_rename : MemoryState → RenameInodeOperation → Result (String × InodeMetadata)
check_rename s op = do
  entry ← or_error (find_inode s.inodes op.selector)
  fail_if (is_leaving entry.1) conflict
  fail_if (differs? op.expected_type entry.1.type) conflict
  fail_if (op.new_name == "") invalid_argument
  fail_if (name_taken s.inodes entry.1.parent_id op.new_name entry.1.id) already_exists
  ok entry

unfoldable pub rename_inode : MemoryState → RenameInodeOperation → Outcome (Unit {0})
rename_inode s op = elim (check_rename s op) [
  | err e ↦ (s, err e)
  | ok (key, i) ↦ rename_entry s op key i
]

abbrev pub is_live_child : InodeId → InodeMetadata → Bool
is_live_child parent c = c.parent_id == parent && not (c.status == inode_status_deleted)

unfoldable pub delete_inode : MemoryState → InodeSelector → Outcome (Unit {0})
delete_inode s q = commit s do
  entry ← or_error (find_inode s.inodes q)
  fail_if (any_value (is_live_child entry.1.id) s.inodes) conflict
  ok (record s { inodes = erase entry.1.id s.inodes }, tt)

-- The walk that the loop makes for one inode; parents do not change during the loop.
abbrev pub in_subtree :
    MemoryState → UpdateSubtreePathsOperation → InodeMetadata → InodeMetadata → Option Bool
in_subtree s op root i =
    if i.id == root.id || not (has_prefix i.path op.old_prefix)
    then some false
    else is_descendant (enough s) s.inodes i.id root.id

abbrev pub rebase :
    MemoryState → UpdateSubtreePathsOperation → InodeMetadata → InodeMetadata → InodeMetadata
rebase s op root i = elim (in_subtree s op root i) [
  | some true ↦ record i {
    path = op.new_prefix ++ trim_prefix i.path op.old_prefix;
    updated_at = op.updated_at;
  }
  | _ ↦ i
]

unfoldable pub update_subtree_paths : MemoryState → UpdateSubtreePathsOperation → Outcome (Unit {0})
update_subtree_paths s op = commit s do
  fail_if (op.root_id == "") invalid_argument
  root ← or_error (lookup op.root_id s.inodes)
  fail_if (any_value (λ i. not (is_some (in_subtree s op root i))) s.inodes) diverged
  ok (record s { inodes = map_values (rebase s op root) s.inodes }, tt)
