-- ===== src/Metadata/Replica.antt =====
-- internal/mds/metadata/replica.go
use astra_storage.Base.{ℕ, String, Option}
use astra_storage.Base.Int.{ℤ}
use astra_storage.Base.Map.{Map}
use astra_storage.Metadata.Object.{FileId, ChunkId, NodeId, Checksum}

abbrev pub ReplicaRole : Type 0
ReplicaRole = String

abbrev pub replica_role_primary : ReplicaRole
replica_role_primary = "primary"

abbrev pub replica_role_secondary : ReplicaRole
replica_role_secondary = "secondary"

abbrev pub replica_role_witness : ReplicaRole
replica_role_witness = "witness"

abbrev pub ReplicaState : Type 0
ReplicaState = String

abbrev pub replica_state_pending : ReplicaState
replica_state_pending = "pending"

abbrev pub replica_state_writing : ReplicaState
replica_state_writing = "writing"

abbrev pub replica_state_ready : ReplicaState
replica_state_ready = "ready"

pub record ReplicaMetadata : Type 0 where
  pub id : String
  pub file_id : FileId
  pub chunk_id : ChunkId
  pub node_id : NodeId
  pub role : ReplicaRole
  pub state : ReplicaState
  pub checksum : Checksum
  pub stored_size : ℤ
  pub created_at : ℕ
  pub updated_at : ℕ
  pub verified_at : Option ℕ

abbrev pub ReplicaSet : Type 0
ReplicaSet = Map ReplicaMetadata
