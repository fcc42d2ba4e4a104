-- ===== src/Metadata/Object.antt =====
-- internal/mds/metadata/object.go, with the placement of internal/mds/metadata/replica.go
use astra_storage.Base.{ℕ, String, List, Option, Bool, false, none}
use astra_storage.Base.Int.{ℤ, pos}
use astra_storage.Base.Map.{Map}
use astra_storage.Metadata.Inode.{InodeId}

abbrev pub default_replica_count : ℤ
default_replica_count = pos 3

abbrev pub minimum_readable_replica_count : ℤ
minimum_readable_replica_count = pos 1

-- 4 MiB
abbrev pub fixed_chunk_size_bytes : ℤ
fixed_chunk_size_bytes = pos 4194304

abbrev pub FileId : Type 0
FileId = String

abbrev pub UploadSessionId : Type 0
UploadSessionId = String

abbrev pub ChunkId : Type 0
ChunkId = String

abbrev pub NodeId : Type 0
NodeId = String

abbrev pub FileStatus : Type 0
FileStatus = String

abbrev pub file_status_pending : FileStatus
file_status_pending = "pending"

abbrev pub file_status_uploading : FileStatus
file_status_uploading = "uploading"

abbrev pub file_status_verifying : FileStatus
file_status_verifying = "verifying"

abbrev pub file_status_available : FileStatus
file_status_available = "available"

abbrev pub file_status_deleting : FileStatus
file_status_deleting = "deleting"

abbrev pub file_status_deleted : FileStatus
file_status_deleted = "deleted"

abbrev pub file_status_failed : FileStatus
file_status_failed = "failed"

abbrev pub UploadStatus : Type 0
UploadStatus = String

abbrev pub upload_status_pending : UploadStatus
upload_status_pending = "pending"

abbrev pub upload_status_active : UploadStatus
upload_status_active = "active"

abbrev pub upload_status_verifying : UploadStatus
upload_status_verifying = "verifying"

abbrev pub upload_status_expired : UploadStatus
upload_status_expired = "expired"

abbrev pub upload_status_retrying : UploadStatus
upload_status_retrying = "retrying"

abbrev pub upload_status_completed : UploadStatus
upload_status_completed = "completed"

abbrev pub upload_status_failed : UploadStatus
upload_status_failed = "failed"

pub record Checksum : Type 0 where
  pub algorithm : String
  pub value : String
  pub verified : Bool
  pub verified_at : Option ℕ

abbrev pub unset_checksum : Checksum
unset_checksum = record { algorithm = ""; value = ""; verified = false; verified_at = none }

pub record RetryState : Type 0 where
  pub attempt : ℤ
  pub max_attempts : ℤ
  pub retryable : Bool
  pub last_error_code : String
  pub last_error_message : String
  pub last_failed_offset : ℤ
  pub last_failed_chunk : ChunkId
  pub last_failure_at : Option ℕ
  pub next_retry_at : Option ℕ

abbrev pub new_retry_state : RetryState
new_retry_state = record {
  attempt = pos 0;
  max_attempts = pos 0;
  retryable = false;
  last_error_code = "";
  last_error_message = "";
  last_failed_offset = pos 0;
  last_failed_chunk = "";
  last_failure_at = none;
  next_retry_at = none;
}

pub record ReplicaPolicy : Type 0 where
  pub desired_replica_count : ℤ
  pub minimum_replica_count : ℤ
  pub current_replica_count : ℤ

pub record UploadSession : Type 0 where
  pub id : UploadSessionId
  pub file_id : FileId
  pub upload_key : String
  pub status : UploadStatus
  pub expected_size : ℤ
  pub chunk_size : ℤ
  pub confirmed_offset : ℤ
  pub next_offset : ℤ
  pub last_persisted_chunk : ChunkId
  pub expected_checksum : Option Checksum
  pub verified_checksum : Option Checksum
  pub retry : RetryState
  pub created_at : ℕ
  pub updated_at : ℕ
  pub expires_at : Option ℕ
  pub completed_at : Option ℕ
  pub client_metadata : Map String
  pub transport_attributes : Map String

pub record NodeInfo : Type 0 where
  pub id : NodeId
  pub address : String
  pub rack : String
  pub zone : String
  pub region : String
  pub labels : Map String
  pub capacity : ℤ
  pub used : ℤ
  pub healthy : Bool
  pub last_seen_at : Option ℕ
  pub updated_at : ℕ

pub record NodePlacement : Type 0 where
  pub node : NodeInfo
  pub replica_role : String
  pub replica_state : String
  pub is_primary : Bool
  pub chunk_ids : List ChunkId
  pub stored_size : ℤ
  pub checksum_state : String
  pub last_sync_at : Option ℕ

pub record FileMetadata : Type 0 where
  pub id : FileId
  pub namespace : String
  pub inode_id : InodeId
  pub parent_inode_id : InodeId
  pub path : String
  pub name : String
  pub size : ℤ
  pub stored_size : ℤ
  pub chunk_size : ℤ
  pub version : ℤ
  pub status : FileStatus
  pub content_type : String
  pub storage_class : String
  pub primary_node_id : NodeId
  pub secondary_node_ids : List NodeId
  pub latest_upload_session_id : UploadSessionId
  pub checksum : Checksum
  pub replica_policy : ReplicaPolicy
  pub user_metadata : Map String
  pub tags : Map String
  pub node_placements : Map NodePlacement
  pub created_at : ℕ
  pub updated_at : ℕ
  pub completed_at : Option ℕ
