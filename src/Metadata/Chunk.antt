-- ===== src/Metadata/Chunk.antt =====
-- internal/mds/metadata/chunk.go
use astra_storage.Base.{ℕ, String, Option}
use astra_storage.Base.Int.{ℤ}
use astra_storage.Metadata.Object.{FileId, ChunkId, Checksum, ReplicaPolicy}
use astra_storage.Metadata.Replica.{ReplicaSet}

abbrev pub ChunkStatus : Type 0
ChunkStatus = String

abbrev pub chunk_status_persisted : ChunkStatus
chunk_status_persisted = "persisted"

abbrev pub chunk_status_verifying : ChunkStatus
chunk_status_verifying = "verifying"

abbrev pub chunk_status_available : ChunkStatus
chunk_status_available = "available"

abbrev pub chunk_status_corrupted : ChunkStatus
chunk_status_corrupted = "corrupted"

abbrev pub chunk_status_failed : ChunkStatus
chunk_status_failed = "failed"

pub record ChunkMetadata : Type 0 where
  pub id : ChunkId
  pub file_id : FileId
  pub index : ℤ
  pub offset : ℤ
  pub size : ℤ
  pub status : ChunkStatus
  pub version : ℤ
  pub checksum : Checksum
  pub replica_policy : ReplicaPolicy
  pub replica_count : ℤ
  pub replicas : ReplicaSet
  pub created_at : ℕ
  pub updated_at : ℕ
  pub verified_at : Option ℕ
  pub last_error_code : String
