-- ===== src/Service/Invariant/Trees.antt =====
-- The directories, files and nodes of internal/mds/service*.go keep every table's invariant.
use astra_storage.Base.{ℕ, zero, suc, String, ◌≡◌, some}
use astra_storage.Metadata.Inode.{InodeId, InodeMetadata, DirectoryEntry}
use astra_storage.Metadata.Object.{FileId, FileMetadata}
use astra_storage.Store.State.{MemoryState}
use astra_storage.Store.Inode.{create_inode}
use astra_storage.Store.Inode.Step.{IsTakenOrNew}
use astra_storage.Store.File.{create_file}
use astra_storage.Service.Body.{◌>>=◌, calls}
use astra_storage.Service.Body.Keeps.{Keeps, keeps_rules, bind-after, after_reading}
use astra_storage.Service.Invariant.{IsWell}
use astra_storage.Service.Invariant.Calls.{call_rules, create_inode-IsWell, create_file-Keeps}
use astra_storage.Service.Create.{
  CreateDirectoryRequest, CreateFileRequest, parent_directory, directory_body, file_body,
  new_directory, new_file_inode, new_file,
}
use astra_storage.Service.Nodes.{
  RegisterNodeRequest, HeartbeatNodeRequest, register_body, heartbeat_body,
}
use astra_storage.Service.Body.{request_time}
use astra_storage.Service.Mutation.{
  RenameInodeRequest, MoveInodeRequest, DeleteFileRequest, DeleteDirectoryRequest, rename_body,
  move_body, delete_file_body, delete_directory_body, sync_file_for_inode, sync_path,
  sync_files_under_directory_path, sync_inode_mutation, delete_file_cascade, delete_file_entry,
  delete_directory_recursive,
}

parent_directory-same : (id : InodeId) (s : MemoryState) → Keeps (λ x. x ≡ s) (parent_directory id)
unfolding parent_directory
parent_directory-same id s = search keeps_rules

pub directory_body-IsWell :
    (req : CreateDirectoryRequest) (now : ℕ) (s : MemoryState)
    → IsTakenOrNew s.inodes req.inode_id
    → IsWell s
    → IsWell (directory_body req now s).0
unfolding directory_body calls
directory_body-IsWell req now s n w =
    after_reading IsWell (parent_directory req.parent_id)
      (λ parent.
        calls create_inode (some (new_directory req parent.path (request_time now req.created_at))))
      s (parent_directory-same req.parent_id) w
      (λ parent.
        create_inode-IsWell s (new_directory req parent.path (request_time now req.created_at)) n w)

pub file_body-IsWell :
    (req : CreateFileRequest) (now : ℕ) (s : MemoryState)
    → IsTakenOrNew s.inodes req.inode_id
    → IsWell s
    → IsWell (file_body req now s).0
unfolding file_body calls
file_body-IsWell req now s n w =
    after_reading IsWell (parent_directory req.parent_id)
      (λ parent.
        calls create_inode (some (new_file_inode req parent.path (request_time now req.created_at)))
        >>= λ inode.
            calls create_file (some (new_file req parent.path (request_time now req.created_at))))
      s (parent_directory-same req.parent_id) w
      (λ parent.
        bind-after
          (calls create_inode
            (some (new_file_inode req parent.path (request_time now req.created_at))))
          (λ inode.
            calls create_file (some (new_file req parent.path (request_time now req.created_at))))
          s (λ inode. create_file-Keeps _)
          (create_inode-IsWell s (new_file_inode req parent.path (request_time now req.created_at))
            n w))

pub register_body-Keeps :
    (req : RegisterNodeRequest) (now : ℕ) → Keeps IsWell (register_body req now)
unfolding register_body
register_body-Keeps req now = search (keeps_rules, call_rules) depth 24

pub heartbeat_body-Keeps :
    (req : HeartbeatNodeRequest) (now : ℕ) → Keeps IsWell (heartbeat_body req now)
unfolding heartbeat_body
heartbeat_body-Keeps req now = search (keeps_rules, call_rules) depth 24

sync_path-Keeps :
    (old new : String) (now : ℕ) (f : FileMetadata) → Keeps IsWell (sync_path old new now f)
unfolding sync_path
sync_path-Keeps old new now f = search (keeps_rules, call_rules) depth 24

sync_inode_mutation-Keeps :
    (before after : InodeMetadata) (old : String) (now : ℕ)
    → Keeps IsWell (sync_inode_mutation before after old now)
unfolding sync_inode_mutation sync_file_for_inode sync_files_under_directory_path
sync_inode_mutation-Keeps before after old now =
    search (keeps_rules, call_rules, sync_path-Keeps) depth 24

pub rename_body-Keeps : (req : RenameInodeRequest) (now : ℕ) → Keeps IsWell (rename_body req now)
unfolding rename_body
rename_body-Keeps req now = search (keeps_rules, call_rules, sync_inode_mutation-Keeps) depth 24

pub move_body-Keeps : (req : MoveInodeRequest) (now : ℕ) → Keeps IsWell (move_body req now)
unfolding move_body
move_body-Keeps req now = search (keeps_rules, call_rules, sync_inode_mutation-Keeps) depth 24

delete_file_cascade-Keeps : (id : FileId) → Keeps IsWell (delete_file_cascade id)
unfolding delete_file_cascade
delete_file_cascade-Keeps id = search (keeps_rules, call_rules) depth 24

pub delete_file_body-Keeps : (req : DeleteFileRequest) → Keeps IsWell (delete_file_body req)
unfolding delete_file_body
delete_file_body-Keeps req = search (keeps_rules, call_rules, delete_file_cascade-Keeps) depth 24

delete_file_entry-Keeps : (e : DirectoryEntry) → Keeps IsWell (delete_file_entry e)
unfolding delete_file_entry
delete_file_entry-Keeps e = search (keeps_rules, call_rules, delete_file_cascade-Keeps) depth 24

delete_directory_recursive-Keeps :
    (fuel : ℕ) (id : InodeId) → Keeps IsWell (delete_directory_recursive fuel id)
unfolding delete_directory_recursive
delete_directory_recursive-Keeps zero id = search keeps_rules
delete_directory_recursive-Keeps (suc fuel) id =
    search (keeps_rules, call_rules, delete_file_entry-Keeps, delete_directory_recursive-Keeps fuel)
      depth 24

pub delete_directory_body-Keeps :
    (req : DeleteDirectoryRequest) → Keeps IsWell (delete_directory_body req)
unfolding delete_directory_body
delete_directory_body-Keeps req =
    search (keeps_rules, call_rules, delete_directory_recursive-Keeps) depth 24
