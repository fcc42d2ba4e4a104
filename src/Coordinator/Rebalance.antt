-- ===== src/Coordinator/Rebalance.antt =====
-- internal/mds/coordinator/rebalance.go: replicas move from full nodes to empty ones.
-- The usage ratio of a node is a float64: the tests of the ratio against the watermarks are fields of
-- the planner. The timer loop `Run` is left out; `now` is the time of the run.
pub mod Selects
pub mod Moves
pub mod Tests
use astra_storage.Base.{
  ℕ, String, Bool, true, false, not, ◌||◌, List, [], ◌∷◌, Option, none, some, if◌then◌else◌,
}
use astra_storage.Base.Int.{ℤ, pos, eq_ℤ, leb_ℤ, sub64}
use astra_storage.Base.Text.{◌++◌}
use astra_storage.Metadata.Object.{NodeId, NodeInfo, default_replica_count}
use astra_storage.Metadata.Chunk.{ChunkMetadata}
use astra_storage.Metadata.Replica.{replica_role_secondary}
use astra_storage.Metadata.Plan.{
  ReplicaPlan, replica_plan_type_failover, replica_plan_type_rebalance,
  replica_plan_state_materialized,
}
use astra_storage.Store.State.{MemoryState, Outcome, Result, ok, err}
use astra_storage.Store.Requests.{NodeFilter}
use astra_storage.Store.Node.{list_nodes}
use astra_storage.Store.Chunk.{list_chunks_by_node}
use astra_storage.Store.Plan.{list_replica_plans}
use astra_storage.Allocator.{
  PlacementRequest, select_placement_targets, required_placement_bytes,
  count_effective_ready_replicas, build_replica_exclusion_set,
}
use astra_storage.Coordinator.{
  PlannerError, store, TaskProducer, active_plans_of, node_index, format_int, unix_nano,
  materialize_pending_replica, rollback_pending_replica,
}
use astra_storage.Coordinator.Failover.{all_nodes}

-- `above_high` and `below_low` are the tests `ratio >= highWatermark` and `ratio <= lowWatermark`.
pub record RebalancePlanner : Type 0 where
  pub above_high : NodeInfo → Bool
  pub below_low : NodeInfo → Bool
  pub max_plans_per_run : ℤ
  pub task_producer : TaskProducer

pub record RebalanceMove : Type 0 where
  pub chunk : ChunkMetadata
  pub source : NodeInfo
  pub target : NodeInfo

-- The overfull and the underfull nodes, each in order.
unfoldable pub classify_node_pressure :
    RebalancePlanner → List NodeInfo → List NodeInfo × List NodeInfo
classify_node_pressure r [] = ([], [])
classify_node_pressure r (n ∷ ns) =
    let rest = classify_node_pressure r ns in
    if r.above_high n
    then (n ∷ rest.0, rest.1)
    else if r.below_low n
    then (rest.0, n ∷ rest.1)
    else rest

abbrev pub desired_or_default : ChunkMetadata → ℤ
desired_or_default chunk =
    if leb_ℤ chunk.replica_policy.desired_replica_count (pos 0)
    then default_replica_count
    else chunk.replica_policy.desired_replica_count

abbrev pub is_moving : MemoryState → ChunkMetadata → Bool
is_moving s chunk =
    elim (list_replica_plans s
      (active_plans_of (replica_plan_type_failover ∷ replica_plan_type_rebalance ∷ []) chunk.id)) [
        | [] ↦ false
        | _ ∷ _ ↦ true
      ]

abbrev pub is_short : MemoryState → ChunkMetadata → Bool
is_short s chunk = not (
    leb_ℤ (desired_or_default chunk)
      (pos (count_effective_ready_replicas chunk.replicas (node_index (list_nodes s all_nodes)))))

abbrev pub rebalance_request : ChunkMetadata → List NodeInfo → PlacementRequest
rebalance_request chunk targets = record {
  candidates = targets;
  excluded = build_replica_exclusion_set chunk.replicas;
  required_bytes = required_placement_bytes chunk;
  count = pos 1;
}

select_among : MemoryState → NodeInfo → List NodeInfo → List ChunkMetadata → Option RebalanceMove
select_among s source targets [] = none
select_among s source targets (chunk ∷ chunks) =
    let rest = select_among s source targets chunks in
    if is_moving s chunk || is_short s chunk
    then rest
    else elim (select_placement_targets (rebalance_request chunk targets)) [
      | [] ↦ rest
      | target ∷ _ ↦ some (record { chunk = chunk; source = source; target = target })
    ]

unfoldable pub select_replica_to_move :
    MemoryState → NodeInfo → List NodeInfo → Option RebalanceMove
unfolding select_among
select_replica_to_move s source targets =
    select_among s source targets (list_chunks_by_node s source.id)

unfoldable pub rebalance_plan : RebalanceMove → ℕ → ReplicaPlan
rebalance_plan move now = record {
  id = "rebalance-" ++ move.chunk.id ++ "-" ++ move.target.id ++ "-" ++ format_int (unix_nano now);
  type = replica_plan_type_rebalance;
  chunk_id = move.chunk.id;
  file_id = move.chunk.file_id;
  source_node_id = move.source.id;
  target_node_id = move.target.id;
  required_bytes = required_placement_bytes move.chunk;
  state = replica_plan_state_materialized;
  priority = pos 0;
  last_error_code = "";
  last_error_message = "";
  retry_count = pos 0;
  next_retry_at = none;
  created_at = now;
  updated_at = now;
  completed_at = none;
}

-- The tables, with the error if there is one.
abbrev pub MoveOutcome : Type 0
MoveOutcome = MemoryState × Option PlannerError

abbrev pub move_outcome : Outcome (Unit {0}) → MoveOutcome
move_outcome (s, ok a) = (s, none)
move_outcome (s, err e) = (s, some (store e))

-- A task that the queue refuses is withdrawn, and that error is not reported.
abbrev pub publish_move :
    RebalancePlanner → MemoryState → RebalanceMove → ReplicaPlan → ℕ → MoveOutcome
publish_move r s move plan now = elim r.task_producer [
  | none ↦ (s, none)
  | some send ↦
      if send plan
      then (s, none)
      else move_outcome (rollback_pending_replica s plan.id move.chunk move.target.id now)
]

abbrev pub after_move :
    RebalancePlanner → Outcome (Unit {0}) → RebalanceMove → ReplicaPlan → ℕ → MoveOutcome
after_move r (s, err e) move plan now = (s, some (store e))
after_move r (s, ok a) move plan now = publish_move r s move plan now

unfoldable pub plan_replica_move : RebalancePlanner → MemoryState → RebalanceMove → ℕ → MoveOutcome
plan_replica_move r s move now =
    let plan = rebalance_plan move now in
    after_move r (materialize_pending_replica s plan move.chunk replica_role_secondary now) move
      plan now

-- The loop over the overfull nodes.
move_all : RebalancePlanner → List NodeInfo → ℕ → List NodeInfo → MemoryState → ℤ → MoveOutcome
move_all r underfull now [] s remaining = (s, none)
move_all r underfull now (source ∷ sources) s remaining =
    if eq_ℤ remaining (pos 0) then (s, none) else elim (select_replica_to_move s source underfull) [
      | none ↦ move_all r underfull now sources s remaining
      | some move ↦ elim (plan_replica_move r s move now).1 [
        | some e ↦ ((plan_replica_move r s move now).0, some e)
        | none ↦
            move_all r underfull now sources (plan_replica_move r s move now).0
              (sub64 remaining (pos 1))
      ]
    ]

abbrev pub healthy_nodes : NodeFilter
healthy_nodes = record all_nodes { healthy_only = true }

unfoldable pub rebalance_once : RebalancePlanner → MemoryState → ℕ → MoveOutcome
unfolding move_all
rebalance_once r s now =
    let (overfull, underfull) = classify_node_pressure r (list_nodes s healthy_nodes) in
    move_all r underfull now overfull s r.max_plans_per_run
