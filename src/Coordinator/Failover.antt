-- ===== src/Coordinator/Failover.antt =====
-- internal/mds/coordinator/failover.go: new copies of the chunks on nodes that are gone.
-- The timer loop `Run` is left out: it calls `plan_once` at each tick. `now` is the time of the run.
pub mod Cases
pub mod Once
pub mod Withdraws
pub mod Tests
use astra_storage.Base.{
  ℕ, ◌-◌, ◌^◌, ◌||◌, String, Bool, true, false, not, List, [], ◌∷◌, Option, none, some,
  if◌then◌else◌,
}
use astra_storage.Base.Int.{ℤ, pos, negsuc, sub_ℕ, eq_ℤ, ltb_ℤ, leb_ℤ, add64, sub64}
use astra_storage.Base.Text.{◌++◌}
use astra_storage.Metadata.Object.{FileMetadata, NodeId, NodeInfo, default_replica_count}
use astra_storage.Metadata.Chunk.{ChunkMetadata}
use astra_storage.Metadata.Replica.{ReplicaRole, replica_role_primary, replica_role_secondary}
use astra_storage.Metadata.Plan.{
  ReplicaPlan, replica_plan_type_failover, replica_plan_state_materialized,
}
use astra_storage.Store.State.{MemoryState, Result, ok, err}
use astra_storage.Store.Requests.{NodeFilter, file_by_id}
use astra_storage.Store.File.{get_file}
use astra_storage.Store.Node.{list_nodes}
use astra_storage.Store.Chunk.{list_chunks_by_node}
use astra_storage.Store.Plan.{list_replica_plans}
use astra_storage.Allocator.{
  PlacementRequest, select_placement_targets, required_placement_bytes,
  count_effective_ready_replicas, build_replica_exclusion_set,
}
use astra_storage.Coordinator.{
  PlannerError, store, publish, rollback, Planned, done, failed, TaskProducer, active_plans_of,
  node_index, format_int, unix_nano, materialize_pending_replica, rollback_pending_replica,
}

pub record FailoverPlanner : Type 0 where
  pub node_timeout : ℤ
  pub max_plans_per_run : ℤ
  pub task_producer : TaskProducer

abbrev pub new_failover_planner : ℤ → ℤ → TaskProducer → FailoverPlanner
new_failover_planner node_timeout max_plans_per_run task_producer = record {
  node_timeout = node_timeout;
  max_plans_per_run = if leb_ℤ max_plans_per_run (pos 0) then pos 32 else max_plans_per_run;
  task_producer = task_producer;
}

-- `now.Sub(seen)`, which stops at the ends of an int64.
unfoldable pub elapsed : ℕ → ℕ → ℤ
elapsed now seen =
    let d = sub_ℕ now seen in
    if ltb_ℤ d (negsuc (2 ^ 63 - 1))
    then negsuc (2 ^ 63 - 1)
    else if ltb_ℤ (pos (2 ^ 63 - 1)) d
    then pos (2 ^ 63 - 1)
    else d

unfoldable pub is_node_unavailable : FailoverPlanner → NodeInfo → ℕ → Bool
is_node_unavailable f n now =
    if not n.healthy
    then true
    else if leb_ℤ f.node_timeout (pos 0)
    then false
    else elim n.last_seen_at [ none ↦ true | some seen ↦ ltb_ℤ f.node_timeout (elapsed now seen) ]

abbrev pub all_nodes : NodeFilter
all_nodes = record {
  ids = [];
  healthy_only = false;
  zone = "";
  rack = "";
  labels = [];
  limit = pos 0;
  offset = pos 0;
}

keep_unavailable : FailoverPlanner → ℕ → List NodeInfo → List NodeInfo
keep_unavailable f now [] = []
keep_unavailable f now (n ∷ ns) =
    let rest = keep_unavailable f now ns in if is_node_unavailable f n now then n ∷ rest else rest

unfoldable pub list_unavailable_nodes : FailoverPlanner → MemoryState → ℕ → List NodeInfo
unfolding keep_unavailable
list_unavailable_nodes f s now = keep_unavailable f now (list_nodes s all_nodes)

-- The number that the chunk asks for, else the file, else the default.
abbrev pub desired_replica_count : ChunkMetadata → FileMetadata → ℤ
desired_replica_count chunk file =
    if not (leb_ℤ chunk.replica_policy.desired_replica_count (pos 0))
    then chunk.replica_policy.desired_replica_count
    else if not (leb_ℤ file.replica_policy.desired_replica_count (pos 0))
    then file.replica_policy.desired_replica_count
    else default_replica_count

abbrev pub enough_replicas : MemoryState → ChunkMetadata → FileMetadata → Bool
enough_replicas s chunk file =
    leb_ℤ (desired_replica_count chunk file)
      (pos (count_effective_ready_replicas chunk.replicas (node_index (list_nodes s all_nodes))))

abbrev pub is_planned : MemoryState → ChunkMetadata → Bool
is_planned s chunk =
    elim (list_replica_plans s (active_plans_of (replica_plan_type_failover ∷ []) chunk.id)) [
      | [] ↦ false
      | _ ∷ _ ↦ true
    ]

abbrev pub failover_request : MemoryState → ChunkMetadata → PlacementRequest
failover_request s chunk = record {
  candidates = list_nodes s all_nodes;
  excluded = build_replica_exclusion_set chunk.replicas;
  required_bytes = required_placement_bytes chunk;
  count = pos 1;
}

unfoldable pub failover_plan : ChunkMetadata → NodeId → NodeId → ℕ → ReplicaPlan
failover_plan chunk failed_node target now = record {
  id = "failover-" ++ chunk.id ++ "-" ++ target ++ "-" ++ format_int (unix_nano now);
  type = replica_plan_type_failover;
  chunk_id = chunk.id;
  file_id = chunk.file_id;
  source_node_id = failed_node;
  target_node_id = target;
  required_bytes = required_placement_bytes chunk;
  state = replica_plan_state_materialized;
  priority = pos 0;
  last_error_code = "";
  last_error_message = "";
  retry_count = pos 0;
  next_retry_at = none;
  created_at = now;
  updated_at = now;
  completed_at = none;
}

-- The first replica of a chunk is its primary.
abbrev pub new_role : ChunkMetadata → ReplicaRole
new_role chunk = elim chunk.replicas [ [] ↦ replica_role_primary | _ ∷ _ ↦ replica_role_secondary ]

-- What follows a task that the queue has refused.
abbrev pub withdrawn : MemoryState × Result (Unit {0}) → MemoryState × Planned Bool
withdrawn (s, ok a) = (s, failed publish)
withdrawn (s, err e) = (s, failed (rollback e))

abbrev pub publish_plan :
    FailoverPlanner → MemoryState → ReplicaPlan → ChunkMetadata → ℕ → MemoryState × Planned Bool
publish_plan f s plan chunk now = elim f.task_producer [
  | none ↦ (s, done true)
  | some send ↦
      if send plan
      then (s, done true)
      else withdrawn (rollback_pending_replica s plan.id chunk plan.target_node_id now)
]

abbrev pub after_materialize :
    FailoverPlanner
    → MemoryState × Result (Unit {0})
    → ReplicaPlan
    → ChunkMetadata
    → ℕ
    → MemoryState × Planned Bool
after_materialize f (s, err e) plan chunk now = (s, failed (store e))
after_materialize f (s, ok a) plan chunk now = publish_plan f s plan chunk now

abbrev pub place_on_first :
    FailoverPlanner
    → MemoryState
    → ChunkMetadata
    → NodeId
    → ℕ
    → List NodeInfo
    → MemoryState × Planned Bool
place_on_first f s chunk failed_node now [] = (s, done false)
place_on_first f s chunk failed_node now (target ∷ _) =
    let plan = failover_plan chunk failed_node target.id now in
    after_materialize f (materialize_pending_replica s plan chunk (new_role chunk) now) plan chunk
      now

unfoldable pub plan_chunk_failover :
    FailoverPlanner → MemoryState → ChunkMetadata → NodeId → ℕ → MemoryState × Planned Bool
plan_chunk_failover f s chunk failed_node now = elim (get_file s (file_by_id chunk.file_id)) [
  | err e ↦ (s, failed (store e))
  | ok file ↦
      if enough_replicas s chunk file || is_planned s chunk
      then (s, done false)
      else place_on_first f s chunk failed_node now
          (select_placement_targets (failover_request s chunk))
]

-- The tables, the number of new plans, and the error that stopped the loop.
abbrev pub RunOutcome : Type 0
RunOutcome = MemoryState × ℤ × Option PlannerError

plan_chunks : FailoverPlanner → NodeId → ℕ → List ChunkMetadata → MemoryState → ℤ → ℤ → RunOutcome
plan_chunks f node now [] s remaining planned = (s, planned, none)
plan_chunks f node now (c ∷ cs) s remaining planned =
    if eq_ℤ remaining (pos 0)
    then (s, planned, none)
    else elim (plan_chunk_failover f s c node now).1 [
      | failed e ↦ ((plan_chunk_failover f s c node now).0, planned, some e)
      | done new ↦
          plan_chunks f node now cs (plan_chunk_failover f s c node now).0
            (if new then sub64 remaining (pos 1) else remaining)
            (if new then add64 planned (pos 1) else planned)
    ]

unfoldable pub plan_node_failover : FailoverPlanner → MemoryState → NodeInfo → ℕ → ℤ → RunOutcome
unfolding plan_chunks
plan_node_failover f s node now remaining =
    plan_chunks f node.id now (list_chunks_by_node s node.id) s remaining (pos 0)

plan_nodes :
    FailoverPlanner → ℕ → List NodeInfo → MemoryState → ℤ → MemoryState × Option PlannerError
plan_nodes f now [] s remaining = (s, none)
plan_nodes f now (n ∷ ns) s remaining =
    if eq_ℤ remaining (pos 0) then (s, none) else elim (plan_node_failover f s n now remaining).2 [
      | some e ↦ ((plan_node_failover f s n now remaining).0, some e)
      | none ↦
          plan_nodes f now ns (plan_node_failover f s n now remaining).0
            (sub64 remaining (plan_node_failover f s n now remaining).1)
    ]

unfoldable pub plan_once : FailoverPlanner → MemoryState → ℕ → MemoryState × Option PlannerError
unfolding plan_nodes
plan_once f s now = plan_nodes f now (list_unavailable_nodes f s now) s f.max_plans_per_run
