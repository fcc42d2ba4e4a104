-- ===== src/Service/Mutation.antt =====
-- internal/mds/service_mutation.go: renames, moves and deletions. The recursive deletion has fuel.
pub mod Ends
use astra_storage.Base.{
  ℕ, zero, suc, String, Bool, true, false, not, ◌||◌, ◌&&◌, ◌==◌, Option, some, none, if◌then◌else◌,
  List, [], ◌∷◌, ◌++◌,
}
use astra_storage.Base.Int.{ℤ, pos}
use astra_storage.Base.Text.{is_blank}
use astra_storage.Metadata.Inode.{
  InodeId, InodeMetadata, DirectoryEntry, root_inode_id, inode_type_file, inode_type_directory,
}
use astra_storage.Metadata.Object.{FileId, FileMetadata}
use astra_storage.Store.State.{MemoryState, Result, ok, err, invalid_argument, diverged, fail_if}
use astra_storage.Store.Requests.{
  FilePatch, FileFilter, ListOptions, MoveInodeOperation, RenameInodeOperation,
  UpdateSubtreePathsOperation, inode_by_id, file_by_id, file_by_inode, chunk_by_id,
}
use astra_storage.Store.Inode.{
  get_inode, list_children, move_inode, rename_inode, delete_inode, update_subtree_paths, enough,
}
use astra_storage.Store.File.{get_file, list_files, update_file, delete_file}
use astra_storage.Store.Chunk.{list_chunks_by_file, delete_chunk}
use astra_storage.Store.Upload.{list_upload_sessions_by_file, delete_upload_session}
use astra_storage.Service.Body.{
  Body, ◌>>=◌, ◌>>◌, gives, reads, checks, refuse_if, calls, for_each, Answer, use_case, ReadModel,
  invalidate, file_model, directory_model, request_time,
}
use astra_storage.Service.Paths.{path_within_prefix, replace_path_prefix}
use astra_storage.Service.Upload.{patch_of}

pub record RenameInodeRequest : Type 0 where
  pub inode_id : InodeId
  pub new_name : String
  pub updated_at : ℕ

pub record MoveInodeRequest : Type 0 where
  pub inode_id : InodeId
  pub target_parent_id : InodeId
  pub new_name : String
  pub updated_at : ℕ

pub record DeleteFileRequest : Type 0 where
  pub file_id : FileId
  pub deleted_at : ℕ

pub record DeleteDirectoryRequest : Type 0 where
  pub inode_id : InodeId
  pub recursive : Bool
  pub deleted_at : ℕ

abbrev pub placed_as : InodeMetadata → FileId → ℕ → FilePatch
placed_as inode file_id now = record (patch_of file_id now) {
  parent_inode_id = some inode.parent_id;
  path = some inode.path;
  name = some inode.name;
}

unfoldable pub sync_file_for_inode : InodeMetadata → ℕ → Body (Unit {0})
sync_file_for_inode inode now = do
  file ← reads (λ s. get_file s (file_by_inode inode.id))
  calls update_file (placed_as inode file.id now)

abbrev pub under_prefix : String → FileFilter
under_prefix prefix = record {
  namespace = "";
  parent_inode_id = "";
  path_prefix = prefix;
  status = [];
  node_id = "";
  limit = pos 0;
  offset = pos 0;
}

-- One round of the loop over the files; two tests pass a file over.
unfoldable pub sync_path : String → String → ℕ → FileMetadata → Body (Unit {0})
sync_path old_prefix new_prefix now file =
    if not (path_within_prefix file.path old_prefix)
      || replace_path_prefix file.path old_prefix new_prefix == file.path
    then gives tt
    else calls update_file (record (patch_of file.id now) {
      path = some (replace_path_prefix file.path old_prefix new_prefix);
    })

unfoldable pub sync_files_under_directory_path : String → String → ℕ → Body (Unit {0})
sync_files_under_directory_path old_prefix new_prefix now = do
  files ← reads (λ s. ok (list_files s (under_prefix old_prefix)))
  for_each files (sync_path old_prefix new_prefix now)

abbrev pub subtree_rebase : InodeMetadata → String → ℕ → UpdateSubtreePathsOperation
subtree_rebase after old_path now = record {
  namespace = "";
  root_id = after.id;
  old_prefix = old_path;
  new_prefix = after.path;
  updated_at = now;
}

unfoldable pub sync_inode_mutation : InodeMetadata → InodeMetadata → String → ℕ → Body (Unit {0})
sync_inode_mutation before after old_path now =
    if before.type == inode_type_file then sync_file_for_inode after now else (do
      calls update_subtree_paths (subtree_rebase after old_path now)
      sync_files_under_directory_path old_path after.path now)

abbrev pub validate_rename_inode_request : RenameInodeRequest → Result (Unit {0})
validate_rename_inode_request req =
    fail_if (req.inode_id == "" || is_blank req.new_name) invalid_argument

abbrev pub rename_operation : RenameInodeRequest → ℕ → RenameInodeOperation
rename_operation req now = record {
  selector = inode_by_id req.inode_id;
  new_name = req.new_name;
  expected_type = none;
  updated_at = now;
}

unfoldable pub rename_body : RenameInodeRequest → ℕ → Body InodeMetadata
rename_body req now = do
  inode ← reads (λ s. get_inode s (inode_by_id req.inode_id))
  calls rename_inode (rename_operation req (request_time now req.updated_at))
  updated ← reads (λ s. get_inode s (inode_by_id req.inode_id))
  sync_inode_mutation inode updated inode.path (request_time now req.updated_at)
  gives updated

abbrev pub inode_models : InodeMetadata → List ReadModel
inode_models i = invalidate directory_model i.parent_id ++ invalidate file_model i.file_id

unfoldable pub rename_inode_and_paths : RenameInodeRequest → ℕ → MemoryState → Answer InodeMetadata
rename_inode_and_paths req now =
    use_case (validate_rename_inode_request req) (rename_body req now) inode_models

abbrev pub validate_move_inode_request : MoveInodeRequest → Result (Unit {0})
validate_move_inode_request req =
    fail_if (req.inode_id == "" || req.target_parent_id == "") invalid_argument

abbrev pub move_operation : MoveInodeRequest → InodeMetadata → ℕ → MoveInodeOperation
move_operation req target_parent now = record {
  selector = inode_by_id req.inode_id;
  target_parent_id = req.target_parent_id;
  target_parent_path = target_parent.path;
  new_name = req.new_name;
  expected_type = none;
  updated_at = now;
}

-- The result is the moved inode, beside the id of the directory that it was in.
unfoldable pub move_body : MoveInodeRequest → ℕ → Body (InodeId × InodeMetadata)
move_body req now = do
  inode ← reads (λ s. get_inode s (inode_by_id req.inode_id))
  target_parent ← reads (λ s. get_inode s (inode_by_id req.target_parent_id))
  refuse_if (not (target_parent.type == inode_type_directory)) invalid_argument
  calls move_inode (move_operation req target_parent (request_time now req.updated_at))
  updated ← reads (λ s. get_inode s (inode_by_id req.inode_id))
  sync_inode_mutation inode updated inode.path (request_time now req.updated_at)
  gives (inode.parent_id, updated)

unfoldable pub move_inode_and_paths :
    MoveInodeRequest → ℕ → MemoryState → Answer (InodeId × InodeMetadata)
move_inode_and_paths req now =
    use_case (validate_move_inode_request req) (move_body req now)
      (λ moved. invalidate directory_model moved.0 ++ inode_models moved.1)

unfoldable pub delete_file_cascade : FileId → Body (Unit {0})
delete_file_cascade file_id = do
  file ← reads (λ s. get_file s (file_by_id file_id))
  sessions ← reads (λ s. ok (list_upload_sessions_by_file s file.id ""))
  for_each sessions (λ u. calls delete_upload_session u.id)
  chunks ← reads (λ s. ok (list_chunks_by_file s file.id))
  for_each chunks (λ c. calls delete_chunk (chunk_by_id c.id))
  calls delete_file (file_by_id file.id)
  calls delete_inode (inode_by_id file.inode_id)

unfoldable pub delete_file_entry : DirectoryEntry → Body (Unit {0})
delete_file_entry child = do
  file ← reads (λ s. get_file s (file_by_inode child.child_id))
  delete_file_cascade file.id

abbrev pub all_children : ListOptions
all_children = record { recursive = false; limit = pos 0; offset = pos 0 }

unfoldable pub delete_directory_recursive : ℕ → InodeId → Body (Unit {0})
delete_directory_recursive zero inode_id = checks (err diverged)
delete_directory_recursive (suc fuel) inode_id = do
  children ← reads (λ s. list_children s inode_id all_children)
  for_each children (λ child.
      if child.type == inode_type_directory
      then delete_directory_recursive fuel child.child_id
      else delete_file_entry child)
  calls delete_inode (inode_by_id inode_id)

abbrev pub validate_delete_file_request : DeleteFileRequest → Result (Unit {0})
validate_delete_file_request req = fail_if (req.file_id == "") invalid_argument

-- The result is the id of the directory that the file was in.
unfoldable pub delete_file_body : DeleteFileRequest → Body InodeId
delete_file_body req = do
  file ← reads (λ s. get_file s (file_by_id req.file_id))
  delete_file_cascade req.file_id
  gives file.parent_inode_id

unfoldable pub delete_file_and_chunks : DeleteFileRequest → MemoryState → Answer InodeId
delete_file_and_chunks req =
    use_case (validate_delete_file_request req) (delete_file_body req)
      (λ parent_id. invalidate file_model req.file_id ++ invalidate directory_model parent_id)

abbrev pub validate_delete_directory_request : DeleteDirectoryRequest → Result (Unit {0})
validate_delete_directory_request req = fail_if (req.inode_id == "") invalid_argument

-- A directory's parent has fewer levels above it than there are inodes: one level of the recursion
-- for each inode, and one more.
unfoldable pub delete_directory_body : DeleteDirectoryRequest → Body InodeId
delete_directory_body req = do
  inode ← reads (λ s. get_inode s (inode_by_id req.inode_id))
  refuse_if (not (inode.type == inode_type_directory)) invalid_argument
  refuse_if (inode.id == root_inode_id) invalid_argument
  fuel ← reads (λ s. ok (enough s))
  if req.recursive
      then delete_directory_recursive fuel inode.id
      else calls delete_inode (inode_by_id inode.id)
  gives inode.parent_id

unfoldable pub delete_directory : DeleteDirectoryRequest → MemoryState → Answer InodeId
delete_directory req =
    use_case (validate_delete_directory_request req) (delete_directory_body req)
      (λ parent_id. invalidate directory_model parent_id)
