-- ===== src/Service/Create.antt =====
-- internal/mds/service_directory.go and internal/mds/service_file.go: new directories and files.
use astra_storage.Base.{ℕ, String, not, ◌||◌, ◌==◌, Option, some, none, or_keep, [], ◌++◌}
use astra_storage.Base.Int.{ℤ, pos, ltb_ℤ}
use astra_storage.Base.Map.{Map}
use astra_storage.Base.Text.{is_blank}
use astra_storage.Metadata.Inode.{
  InodeId, InodeMetadata, inode_type_file, inode_type_directory, inode_status_active,
}
use astra_storage.Metadata.Object.{
  FileId, FileMetadata, ReplicaPolicy, unset_checksum, file_status_pending, fixed_chunk_size_bytes,
  default_replica_count, minimum_readable_replica_count,
}
use astra_storage.Store.State.{MemoryState, Result, invalid_argument, fail_if}
use astra_storage.Store.Requests.{inode_by_id}
use astra_storage.Store.Select.{join_path}
use astra_storage.Store.Inode.{create_inode, get_inode}
use astra_storage.Store.File.{create_file}
use astra_storage.Service.Body.{
  Body, ◌>>=◌, ◌>>◌, gives, reads, refuse_if, calls, Answer, use_case, invalidate, file_model,
  directory_model, request_time,
}

pub record CreateDirectoryRequest : Type 0 where
  pub inode_id : InodeId
  pub parent_id : InodeId
  pub name : String
  pub permissions : ℕ
  pub owner : String
  pub group : String
  pub created_at : ℕ

-- The checks are made one after the other; each refuses with the same kind of error.
abbrev pub validate_create_directory_request : CreateDirectoryRequest → Result (Unit {0})
validate_create_directory_request req =
    fail_if (req.inode_id == "" || req.parent_id == "" || is_blank req.name) invalid_argument

abbrev pub new_directory : CreateDirectoryRequest → String → ℕ → InodeMetadata
new_directory req parent_path now = record {
  id = req.inode_id;
  parent_id = req.parent_id;
  file_id = "";
  path = join_path parent_path req.name;
  name = req.name;
  type = inode_type_directory;
  status = inode_status_active;
  size = pos 0;
  permissions = req.permissions;
  owner = req.owner;
  group = req.group;
  link_count = pos 1;
  generation = pos 1;
  created_at = now;
  updated_at = now;
  accessed_at = none;
}

-- The parent of something new, which must be a directory.
unfoldable pub parent_directory : InodeId → Body InodeMetadata
parent_directory id = do
  parent ← reads (λ s. get_inode s (inode_by_id id))
  refuse_if (not (parent.type == inode_type_directory)) invalid_argument
  gives parent

unfoldable pub directory_body : CreateDirectoryRequest → ℕ → Body InodeMetadata
directory_body req now = do
  parent ← parent_directory req.parent_id
  calls create_inode (some (new_directory req parent.path (request_time now req.created_at)))

unfoldable pub create_directory : CreateDirectoryRequest → ℕ → MemoryState → Answer InodeMetadata
create_directory req now =
    use_case (validate_create_directory_request req) (directory_body req now)
      (λ created. invalidate directory_model created.parent_id)

pub record CreateFileRequest : Type 0 where
  pub inode_id : InodeId
  pub file_id : FileId
  pub parent_id : InodeId
  pub name : String
  pub size : ℤ
  pub content_type : String
  pub storage_class : String
  pub user_metadata : Map String
  pub tags : Map String
  pub replica_policy : Option ReplicaPolicy
  pub created_at : ℕ

abbrev pub validate_create_file_request : CreateFileRequest → Result (Unit {0})
validate_create_file_request req =
    fail_if
      (req.inode_id == ""
        || req.file_id == ""
        || req.parent_id == ""
        || is_blank req.name
        || ltb_ℤ req.size (pos 0))
      invalid_argument

abbrev pub new_file_inode : CreateFileRequest → String → ℕ → InodeMetadata
new_file_inode req parent_path now = record {
  id = req.inode_id;
  parent_id = req.parent_id;
  file_id = req.file_id;
  path = join_path parent_path req.name;
  name = req.name;
  type = inode_type_file;
  status = inode_status_active;
  size = req.size;
  permissions = 0;
  owner = "";
  group = "";
  link_count = pos 1;
  generation = pos 1;
  created_at = now;
  updated_at = now;
  accessed_at = none;
}

abbrev pub default_replica_policy : ReplicaPolicy
default_replica_policy = record {
  desired_replica_count = default_replica_count;
  minimum_replica_count = minimum_readable_replica_count;
  current_replica_count = pos 0;
}

abbrev pub new_file : CreateFileRequest → String → ℕ → FileMetadata
new_file req parent_path now = record {
  id = req.file_id;
  namespace = "";
  inode_id = req.inode_id;
  parent_inode_id = req.parent_id;
  path = join_path parent_path req.name;
  name = req.name;
  size = req.size;
  stored_size = pos 0;
  chunk_size = fixed_chunk_size_bytes;
  version = pos 0;
  status = file_status_pending;
  content_type = req.content_type;
  storage_class = req.storage_class;
  primary_node_id = "";
  secondary_node_ids = [];
  latest_upload_session_id = "";
  checksum = unset_checksum;
  replica_policy = or_keep req.replica_policy default_replica_policy;
  user_metadata = req.user_metadata;
  tags = req.tags;
  node_placements = [];
  created_at = now;
  updated_at = now;
  completed_at = none;
}

unfoldable pub file_body : CreateFileRequest → ℕ → Body FileMetadata
file_body req now = do
  parent ← parent_directory req.parent_id
  inode ←
      calls create_inode (some (new_file_inode req parent.path (request_time now req.created_at)))
  calls create_file (some (new_file req parent.path (request_time now req.created_at)))

unfoldable pub create_file_with_inode : CreateFileRequest → ℕ → MemoryState → Answer FileMetadata
create_file_with_inode req now =
    use_case (validate_create_file_request req) (file_body req now) (λ created.
      invalidate file_model created.id ++ invalidate directory_model created.parent_inode_id)
