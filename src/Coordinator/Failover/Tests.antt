-- ===== src/Coordinator/Failover/Tests.antt =====
-- A failover with two nodes that may take the copy, with and without a queue that refuses it.
use astra_storage.Base.{String, [], ◌∷◌, none, some, true, false, ◌≡◌, ◌≢◌, refl, arith, eq_iff}
use astra_storage.Base.Int.{pos, wrap64}
use astra_storage.Base.Map.{
  Map, lookup, insert, erase, insert_all, erase_all, any_value, values_where, IsMap,
}
use astra_storage.Base.Text.{is_blank}
use astra_storage.Base.Slice.{sort_slice, apply_list_window}
use astra_storage.Metadata.Object.{NodeInfo}
use astra_storage.Metadata.Chunk.{ChunkMetadata}
use astra_storage.Store.State.{MemoryState}
use astra_storage.Store.Select.{find_file, find_chunk}
use astra_storage.Store.File.{get_file}
use astra_storage.Store.Node.{list_nodes}
use astra_storage.Store.Plan.{
  create_replica_plan, list_replica_plans, delete_replica_plan, is_terminal,
}
use astra_storage.Store.Chunk.{update_chunk_replicas}
use astra_storage.Store.Tx.{in_tx, commit_tx}
use astra_storage.Allocator.{
  select_placement_targets, accepts, filter, goes_before, build_replica_exclusion_set,
  required_placement_bytes, max_ready_stored_size, count_effective_ready_replicas, is_effective,
}
use astra_storage.Allocator.Best.{IsEligible}
use astra_storage.Coordinator.{
  done, TaskProducer, node_index, format_int, unix_nano, materialize_pending_replica,
  rollback_pending_replica, pending_replica,
}
use astra_storage.Coordinator.Place.{Restores}
use astra_storage.Coordinator.Failover.{
  FailoverPlanner, new_failover_planner, plan_chunk_failover, failover_plan, failover_request,
  new_role,
}
use astra_storage.Coordinator.Failover.Once.{plan_chunk_failover-once}
use astra_storage.Coordinator.Failover.Withdraws.{
  AllInt64, plan_chunk_failover-Restores, plan_chunk_failover-target,
}
use astra_storage.Store.Fixtures.{chunk, node, with_note}

abbrev first : ChunkMetadata
first = chunk "c0" (pos 0) (pos 0) (pos 4194304)

abbrev nodes : Map NodeInfo
nodes =
    ("n1", record (node "n1" (pos 9000000) (pos 4194304)) { healthy = false })
    ∷ ("n2", node "n2" (pos 9000000) (pos 4000000))
    ∷ ("n3", node "n3" (pos 9000000) (pos 1000000))
    ∷ []

abbrev cluster : MemoryState
cluster = record with_note { chunks = ("c0", first) ∷ []; nodes = nodes }

abbrev planner : TaskProducer → FailoverPlanner
planner producer = new_failover_planner (pos 0) (pos 0) producer

stored : lookup "c0" cluster.chunks ≡ some first
unfolding lookup
stored = refl

nodes-IsMap : IsMap cluster.nodes
unfolding lookup
nodes-IsMap = (refl, (refl, (refl, tt)))

nodes-AllInt64 : AllInt64 cluster.nodes
unfolding lookup
nodes-AllInt64 k n e = ground (arith, eq_iff "n1" k, eq_iff "n2" k, eq_iff "n3" k)

planned : (plan_chunk_failover (planner none) cluster first "n1" 9).1 ≡ done true
unfolding plan_chunk_failover get_file find_file lookup list_nodes values_where sort_slice
    apply_list_window count_effective_ready_replicas is_effective node_index insert_all insert
    list_replica_plans select_placement_targets accepts is_blank wrap64 filter goes_before
    build_replica_exclusion_set required_placement_bytes max_ready_stored_size failover_plan
    format_int unix_nano materialize_pending_replica in_tx commit_tx create_replica_plan any_value
    is_terminal update_chunk_replicas find_chunk erase_all
planned = refl

plan_chunk_failover-once_example :
    plan_chunk_failover
      (planner none)
      (plan_chunk_failover (planner none) cluster first "n1" 9).0
      first
      "n1"
      10
    ≡ ((plan_chunk_failover (planner none) cluster first "n1" 9).0, done false)
plan_chunk_failover-once_example =
    plan_chunk_failover-once (planner none) (planner none) cluster first first "n1" "n1" 9 10 stored
      planned refl refl

abbrev refusing : TaskProducer
refusing = some (λ p. false)

refused : (plan_chunk_failover (planner refusing) cluster first "n1" 9).1 ≢ done true
unfolding plan_chunk_failover get_file find_file lookup list_nodes values_where sort_slice
    apply_list_window count_effective_ready_replicas is_effective node_index insert_all insert
    list_replica_plans select_placement_targets accepts is_blank wrap64 filter goes_before
    build_replica_exclusion_set required_placement_bytes max_ready_stored_size failover_plan
    format_int unix_nano materialize_pending_replica in_tx commit_tx create_replica_plan any_value
    is_terminal update_chunk_replicas find_chunk erase_all rollback_pending_replica
    delete_replica_plan erase
refused h = cc

plan_chunk_failover-Restores_example :
    Restores cluster (plan_chunk_failover (planner refusing) cluster first "n1" 9).0 first
plan_chunk_failover-Restores_example =
    plan_chunk_failover-Restores (planner refusing) cluster first "n1" 9 stored nodes-IsMap
      nodes-AllInt64 refused

plan_chunk_failover-target_example :
    (target : NodeInfo) × (k : String) × (lookup k cluster.nodes ≡ some target)
    × IsEligible (failover_request cluster first) target
    × (lookup target.id first.replicas ≡ none)
    × (c : ChunkMetadata) × (lookup "c0"
          (plan_chunk_failover (planner none) cluster first "n1" 9).0.chunks
        ≡ some c)
    × (lookup target.id c.replicas ≡ some (pending_replica first target.id (new_role first) 9))
plan_chunk_failover-target_example =
    plan_chunk_failover-target (planner none) cluster first "n1" 9 stored nodes-IsMap nodes-AllInt64
      planned
