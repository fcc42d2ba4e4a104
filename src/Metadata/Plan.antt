-- ===== src/Metadata/Plan.antt =====
-- internal/mds/metadata/replica_plan.go
use astra_storage.Base.{ℕ, String, Option}
use astra_storage.Base.Int.{ℤ}
use astra_storage.Metadata.Object.{FileId, ChunkId, NodeId}

abbrev pub ReplicaPlanType : Type 0
ReplicaPlanType = String

abbrev pub replica_plan_type_failover : ReplicaPlanType
replica_plan_type_failover = "failover"

abbrev pub replica_plan_type_rebalance : ReplicaPlanType
replica_plan_type_rebalance = "rebalance"

abbrev pub ReplicaPlanState : Type 0
ReplicaPlanState = String

abbrev pub replica_plan_state_planned : ReplicaPlanState
replica_plan_state_planned = "planned"

abbrev pub replica_plan_state_materialized : ReplicaPlanState
replica_plan_state_materialized = "materialized"

abbrev pub replica_plan_state_copy_ready : ReplicaPlanState
replica_plan_state_copy_ready = "copy_ready"

abbrev pub replica_plan_state_cleanup_ready : ReplicaPlanState
replica_plan_state_cleanup_ready = "cleanup_pending"

abbrev pub replica_plan_state_done : ReplicaPlanState
replica_plan_state_done = "done"

abbrev pub replica_plan_state_failed : ReplicaPlanState
replica_plan_state_failed = "failed"

pub record ReplicaPlan : Type 0 where
  pub id : String
  pub type : ReplicaPlanType
  pub chunk_id : ChunkId
  pub file_id : FileId
  pub source_node_id : NodeId
  pub target_node_id : NodeId
  pub required_bytes : ℤ
  pub state : ReplicaPlanState
  pub priority : ℤ
  pub last_error_code : String
  pub last_error_message : String
  pub retry_count : ℤ
  pub next_retry_at : Option ℕ
  pub created_at : ℕ
  pub updated_at : ℕ
  pub completed_at : Option ℕ
