-- ===== src/Store/Requests.antt =====
-- internal/mds/store/store.go: the selectors, filters and patches of the repository's operations.
-- An empty text in a selector or filter means "any". The pointer fields of a patch are options.
use astra_storage.Base.{ℕ, String, Bool, List, Option, none}
use astra_storage.Base.Int.{ℤ}
use astra_storage.Base.Map.{Map}
use astra_storage.Metadata.Inode.{InodeId, InodeType, InodeStatus}
use astra_storage.Metadata.Object.{
  FileId, UploadSessionId, ChunkId, NodeId, FileStatus, UploadStatus, Checksum, ReplicaPolicy,
  NodePlacement,
}
use astra_storage.Metadata.Chunk.{ChunkStatus}
use astra_storage.Metadata.Replica.{ReplicaSet}
use astra_storage.Metadata.Plan.{ReplicaPlanType, ReplicaPlanState}

pub record FileSelector : Type 0 where
  pub id : FileId
  pub inode_id : InodeId
  pub parent_inode_id : InodeId
  pub namespace : String
  pub path : String
  pub name : String
  pub version : Option ℤ

pub record FileFilter : Type 0 where
  pub namespace : String
  pub parent_inode_id : InodeId
  pub path_prefix : String
  pub status : List FileStatus
  pub node_id : NodeId
  pub limit : ℤ
  pub offset : ℤ

pub record InodeSelector : Type 0 where
  pub id : InodeId
  pub parent_id : InodeId
  pub namespace : String
  pub path : String
  pub name : String
  pub type : Option InodeType

pub record ListOptions : Type 0 where
  pub recursive : Bool
  pub limit : ℤ
  pub offset : ℤ

pub record InodePatch : Type 0 where
  pub selector : InodeSelector
  pub path : Option String
  pub name : Option String
  pub parent_id : Option InodeId
  pub status : Option InodeStatus
  pub size : Option ℤ
  pub permissions : Option ℕ
  pub owner : Option String
  pub group : Option String
  pub link_count : Option ℤ
  pub generation : Option ℤ
  pub accessed_at : Option ℕ
  pub updated_at : ℕ

pub record MoveInodeOperation : Type 0 where
  pub selector : InodeSelector
  pub target_parent_id : InodeId
  pub target_parent_path : String
  pub new_name : String
  pub expected_type : Option InodeType
  pub updated_at : ℕ

pub record RenameInodeOperation : Type 0 where
  pub selector : InodeSelector
  pub new_name : String
  pub expected_type : Option InodeType
  pub updated_at : ℕ

pub record UpdateSubtreePathsOperation : Type 0 where
  pub namespace : String
  pub root_id : InodeId
  pub old_prefix : String
  pub new_prefix : String
  pub updated_at : ℕ

pub record FilePatch : Type 0 where
  pub selector : FileSelector
  pub parent_inode_id : Option InodeId
  pub path : Option String
  pub name : Option String
  pub size : Option ℤ
  pub stored_size : Option ℤ
  pub chunk_size : Option ℤ
  pub version : Option ℤ
  pub status : Option FileStatus
  pub primary_node_id : Option NodeId
  pub secondary_node_ids : Option (List NodeId)
  pub latest_upload_session_id : Option UploadSessionId
  pub checksum : Option Checksum
  pub replica_policy : Option ReplicaPolicy
  pub user_metadata : Option (Map String)
  pub tags : Option (Map String)
  pub completed_at : Option ℕ
  pub updated_at : ℕ

pub record FilePlacementPatch : Type 0 where
  pub selector : FileSelector
  pub upserts : Map NodePlacement
  pub remove_node_ids : List NodeId
  pub expected_status : List FileStatus
  pub updated_at : ℕ

pub record ChunkSelector : Type 0 where
  pub id : ChunkId
  pub file_id : FileId
  pub index : Option ℤ

pub record ChunkStatusPatch : Type 0 where
  pub selector : ChunkSelector
  pub status : ChunkStatus
  pub checksum : Option Checksum
  pub last_error_code : String
  pub verified_at : Option ℕ
  pub updated_at : ℕ

pub record ChunkReplicaPatch : Type 0 where
  pub selector : ChunkSelector
  pub upserts : ReplicaSet
  pub remove_node_ids : List NodeId
  pub replica_count : Option ℤ
  pub replica_policy : Option ReplicaPolicy
  pub updated_at : ℕ

pub record ReplicaPlanFilter : Type 0 where
  pub types : List ReplicaPlanType
  pub states : List ReplicaPlanState
  pub chunk_id : ChunkId
  pub file_id : FileId
  pub source_node_id : NodeId
  pub target_node_id : NodeId
  pub limit : ℤ
  pub offset : ℤ

pub record ReplicaPlanPatch : Type 0 where
  pub id : String
  pub state : Option ReplicaPlanState
  pub last_error_code : Option String
  pub last_error_message : Option String
  pub retry_count : Option ℤ
  pub next_retry_at : Option ℕ
  pub completed_at : Option ℕ
  pub updated_at : ℕ

pub record UploadProgressPatch : Type 0 where
  pub session_id : UploadSessionId
  pub status : UploadStatus
  pub confirmed_offset : ℤ
  pub next_offset : ℤ
  pub last_persisted_chunk_id : ChunkId
  pub expected_checksum : Option Checksum
  pub verified_checksum : Option Checksum
  pub clear_expected_checksum : Bool
  pub clear_verified_checksum : Bool
  pub transport_attributes : Option (Map String)
  pub updated_at : ℕ

pub record UploadFailureRecord : Type 0 where
  pub session_id : UploadSessionId
  pub file_id : FileId
  pub chunk_id : ChunkId
  pub failed_offset : ℤ
  pub expected_checksum : Option Checksum
  pub actual_checksum : Option Checksum
  pub error_code : String
  pub error_message : String
  pub retryable : Bool
  pub attempt : ℤ
  pub max_attempts : ℤ
  pub occurred_at : ℕ
  pub next_retry_at : Option ℕ

pub record NodeFilter : Type 0 where
  pub ids : List NodeId
  pub healthy_only : Bool
  pub zone : String
  pub rack : String
  pub labels : Map String
  pub limit : ℤ
  pub offset : ℤ

pub record NodeHeartbeatPatch : Type 0 where
  pub node_id : NodeId
  pub healthy : Bool
  pub capacity : ℤ
  pub used : ℤ
  pub last_seen_at : ℕ

-- The selectors that name one record.
abbrev pub inode_by_id : InodeId → InodeSelector
inode_by_id id = record {
  id = id;
  parent_id = "";
  namespace = "";
  path = "";
  name = "";
  type = none;
}

abbrev pub file_by_id : FileId → FileSelector
file_by_id id = record {
  id = id;
  inode_id = "";
  parent_inode_id = "";
  namespace = "";
  path = "";
  name = "";
  version = none;
}

abbrev pub file_by_inode : InodeId → FileSelector
file_by_inode id = record (file_by_id "") { inode_id = id }

abbrev pub chunk_by_id : String → ChunkSelector
chunk_by_id id = record { id = id; file_id = ""; index = none }
