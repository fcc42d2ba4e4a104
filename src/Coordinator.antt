-- ===== src/Coordinator.antt =====
-- internal/mds/coordinator: the planners that keep enough copies of each chunk. This file has what
-- failover.go and rebalance.go write alike: the replica that a plan adds, and its withdrawal.
-- A planner's calls of the repository run without another caller between them.
pub mod Cleanup
pub mod Failover
pub mod Place
pub mod Rebalance
pub mod Repairer
pub mod Supervisor
pub mod Tests
use astra_storage.Base.{
  ℕ, zero, suc, ◌+◌, ◌*◌, ◌/◌, ◌%◌, String, Bool, true, false, List, [], ◌∷◌, Option, none, some,
  map, if◌then◌else◌, ltb, leb, eq_ℕ,
}
use astra_storage.Base.Int.{ℤ, pos, negsuc, pos_part, neg_part, sub_ℕ, wrap64, leb_ℤ}
use astra_storage.Base.Map.{Map, lookup, insert, insert_all, size}
use astra_storage.Base.Text.{◌++◌}
use astra_storage.Metadata.Object.{
  NodeId, NodeInfo, ReplicaPolicy, unset_checksum, default_replica_count,
}
use astra_storage.Metadata.Chunk.{ChunkMetadata}
use astra_storage.Metadata.Replica.{
  ReplicaMetadata, ReplicaRole, replica_role_primary, replica_role_secondary, replica_state_pending,
}
use astra_storage.Metadata.Plan.{
  ReplicaPlan, ReplicaPlanState, ReplicaPlanType, replica_plan_state_planned,
  replica_plan_state_materialized, replica_plan_state_copy_ready, replica_plan_state_cleanup_ready,
}
pub use astra_storage.Store.Requests.{chunk_by_id}
use astra_storage.Store.State.{MemoryState, Outcome, Result, ok, err, StoreError}
use astra_storage.Store.Requests.{ChunkReplicaPatch, ChunkSelector, ReplicaPlanFilter}
use astra_storage.Store.Chunk.{update_chunk_replicas}
use astra_storage.Store.Plan.{create_replica_plan, delete_replica_plan}
use astra_storage.Store.Tx.{in_tx, on_tx}

-- `publish` is an error of the message queue; `rollback` comes with that of the withdrawal.
pub data PlannerError : Type 0 where
  store : StoreError → PlannerError
  publish : PlannerError
  rollback : StoreError → PlannerError

pub data Planned (A : Type 0) : Type 0 where
  done : A → Planned A
  failed : PlannerError → Planned A

-- The publisher of tasks, if one is set. It says whether the queue took the plan's task.
abbrev pub TaskProducer : Type 0
TaskProducer = Option (ReplicaPlan → Bool)

abbrev pub active_replica_plan_states : List ReplicaPlanState
active_replica_plan_states =
    replica_plan_state_planned ∷ replica_plan_state_materialized ∷ replica_plan_state_copy_ready
    ∷ replica_plan_state_cleanup_ready ∷ []

abbrev pub active_plans_of : List ReplicaPlanType → String → ReplicaPlanFilter
active_plans_of types chunk_id = record {
  types = types;
  states = active_replica_plan_states;
  chunk_id = chunk_id;
  file_id = "";
  source_node_id = "";
  target_node_id = "";
  limit = pos 0;
  offset = pos 0;
}

-- `nodeIndex[node.ID] = node` for each node.
unfoldable pub node_index : List NodeInfo → Map NodeInfo
node_index nodes = insert_all (map (λ (n : NodeInfo). (n.id, n)) nodes) []

digit : ℕ → String
digit n =
    if eq_ℕ n 0
    then "0"
    else if eq_ℕ n 1
    then "1"
    else if eq_ℕ n 2
    then "2"
    else if eq_ℕ n 3
    then "3"
    else if eq_ℕ n 4
    then "4"
    else if eq_ℕ n 5
    then "5"
    else if eq_ℕ n 6
    then "6"
    else if eq_ℕ n 7
    then "7"
    else if eq_ℕ n 8
    then "8"
    else "9"

-- The decimal text; twenty digits are enough for 64 bits.
decimal : ℕ → ℕ → String
unfolding digit
decimal zero n = ""
decimal (suc fuel) n =
    let rest = decimal fuel (n / 10) in (if ltb n 10 then "" else rest) ++ digit (n % 10)

-- Sprintf's %d
unfoldable pub format_int : ℤ → String
unfolding decimal
format_int (pos n) = decimal 20 n
format_int (negsuc n) = "-" ++ decimal 20 (suc n)

-- time.Time.UnixNano of a time in nanoseconds since the year 1.
unfoldable pub unix_nano : ℕ → ℤ
unix_nano now = wrap64 (sub_ℕ now 62135596800000000000)

abbrev pub with_current : ReplicaPolicy → ℕ → ReplicaPolicy
with_current policy count = record policy { current_replica_count = pos count }

abbrev pub default_desired : ReplicaPolicy → ReplicaPolicy
default_desired policy =
    if leb_ℤ policy.desired_replica_count (pos 0)
    then record policy { desired_replica_count = default_replica_count }
    else policy

abbrev pub pending_replica : ChunkMetadata → NodeId → ReplicaRole → ℕ → ReplicaMetadata
pending_replica chunk target role now = record {
  id = chunk.id ++ "-" ++ target;
  file_id = chunk.file_id;
  chunk_id = chunk.id;
  node_id = target;
  role = role;
  state = replica_state_pending;
  checksum = unset_checksum;
  stored_size = pos 0;
  created_at = now;
  updated_at = now;
  verified_at = none;
}

-- The patch that adds the pending replica to the copies that the planner has read.
abbrev pub add_replica : ChunkMetadata → NodeId → ReplicaRole → ℕ → ChunkReplicaPatch
add_replica chunk target role now = record {
  selector = chunk_by_id chunk.id;
  upserts = (target, pending_replica chunk target role now) ∷ [];
  remove_node_ids = [];
  replica_count = some (pos (suc (size chunk.replicas)));
  replica_policy =
      some (with_current (default_desired chunk.replica_policy) (suc (size chunk.replicas)));
  updated_at = now;
}

abbrev pub withdraw_replica : ChunkMetadata → NodeId → ℕ → ChunkReplicaPatch
withdraw_replica chunk target now = record {
  selector = chunk_by_id chunk.id;
  upserts = [];
  remove_node_ids = target ∷ [];
  replica_count = some (pos (size chunk.replicas));
  replica_policy = some (with_current chunk.replica_policy (size chunk.replicas));
  updated_at = now;
}

-- The second call of a callback, if the first succeeds.
abbrev pub then_call : Outcome (Unit {0}) → (MemoryState → Outcome (Unit {0})) → Outcome (Unit {0})
then_call (s, err e) f = (s, err e)
then_call (s, ok a) f = f s

abbrev pub placing : ReplicaPlan → ChunkReplicaPatch → MemoryState → Outcome (Unit {0})
placing plan patch s =
    then_call (create_replica_plan s (some plan)) (λ t. update_chunk_replicas t patch)

abbrev pub withdrawing : String → ChunkReplicaPatch → MemoryState → Outcome (Unit {0})
withdrawing plan_id patch s =
    then_call (update_chunk_replicas s patch) (λ t. delete_replica_plan t plan_id)

unfoldable pub materialize_pending_replica :
    MemoryState → ReplicaPlan → ChunkMetadata → ReplicaRole → ℕ → Outcome (Unit {0})
materialize_pending_replica s plan chunk role now =
    in_tx (on_tx (placing plan (add_replica chunk plan.target_node_id role now))) s

unfoldable pub rollback_pending_replica :
    MemoryState → String → ChunkMetadata → NodeId → ℕ → Outcome (Unit {0})
rollback_pending_replica s plan_id chunk target now =
    in_tx (on_tx (withdrawing plan_id (withdraw_replica chunk target now))) s
