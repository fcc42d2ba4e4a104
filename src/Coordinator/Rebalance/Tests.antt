-- ===== src/Coordinator/Rebalance/Tests.antt =====
-- A move from a full node to an empty one.
use astra_storage.Base.{◌≡◌, refl, inl, inr, false, [], ◌∷◌, none, some, arith, subst, sym}
use astra_storage.Base.Int.{pos, wrap64, IsInt64, ltb_ℤ}
use astra_storage.Base.Map.{lookup, insert, insert_all, values_where, IsMap}
use astra_storage.Base.Text.{is_blank}
use astra_storage.Base.Slice.{sort_slice, apply_list_window}
use astra_storage.Base.Slice.Sorted.{Mem}
use astra_storage.Metadata.Object.{NodeInfo}
use astra_storage.Metadata.Chunk.{ChunkMetadata}
use astra_storage.Store.State.{MemoryState}
use astra_storage.Store.Node.{list_nodes}
use astra_storage.Store.Chunk.{list_chunks_by_node}
use astra_storage.Store.Plan.{list_replica_plans}
use astra_storage.Allocator.{
  select_placement_targets, accepts, filter, goes_before, build_replica_exclusion_set,
  required_placement_bytes, max_ready_stored_size, count_effective_ready_replicas, is_effective,
}
use astra_storage.Coordinator.{node_index}
use astra_storage.Coordinator.Rebalance.{
  RebalancePlanner, RebalanceMove, select_replica_to_move, select_among, plan_replica_move,
}
use astra_storage.Coordinator.Rebalance.Selects.{IsSafe, select_replica_to_move-IsSafe}
use astra_storage.Coordinator.Rebalance.Moves.{Ends, plan_replica_move_keeps}
use astra_storage.Store.Fixtures.{chunk, node, three_copies, with_note}

-- One copy is enough for this chunk.
abbrev single : ChunkMetadata
single = record (chunk "c0" (pos 0) (pos 0) (pos 4194304)) {
  replica_policy = record three_copies { desired_replica_count = pos 1 };
}

abbrev full : NodeInfo
full = node "n1" (pos 5000000) (pos 4900000)

abbrev empty : NodeInfo
empty = node "n2" (pos 9000000) (pos 0)

abbrev cluster : MemoryState
cluster = record with_note {
  chunks = ("c0", single) ∷ [];
  nodes = ("n1", full) ∷ ("n2", empty) ∷ [];
}

abbrev move : RebalanceMove
move = record { chunk = single; source = full; target = empty }

selected : select_replica_to_move cluster full (empty ∷ []) ≡ some move
unfolding select_replica_to_move select_among list_chunks_by_node list_nodes lookup values_where
    sort_slice apply_list_window list_replica_plans count_effective_ready_replicas is_effective
    node_index insert_all insert select_placement_targets accepts is_blank wrap64 filter goes_before
    build_replica_exclusion_set required_placement_bytes max_ready_stored_size
selected = refl

chunks-IsMap : IsMap cluster.chunks
unfolding lookup
chunks-IsMap = (refl, tt)

targets-IsInt64 : (n : NodeInfo) → Mem n (empty ∷ []) → IsInt64 n.capacity
targets-IsInt64 n (inl e) = subst (λ (x : NodeInfo). IsInt64 x.capacity) (sym e) (omega arith)
targets-IsInt64 n (inr h) = elim h [ ]

select_replica_to_move-IsSafe_example : IsSafe cluster full (empty ∷ []) move
select_replica_to_move-IsSafe_example =
    select_replica_to_move-IsSafe cluster full (empty ∷ []) move chunks-IsMap targets-IsInt64
      selected

-- The queue takes nothing.
abbrev planner : RebalancePlanner
planner = record {
  above_high = λ n. ltb_ℤ (pos 4500000) n.used;
  below_low = λ n. ltb_ℤ n.used (pos 1000);
  max_plans_per_run = pos 32;
  task_producer = some (λ p. false);
}

stored : lookup "c0" cluster.chunks ≡ some single
unfolding lookup
stored = refl

not_held : lookup "n2" single.replicas ≡ none
unfolding lookup
not_held = refl

plan_replica_move_keeps_example :
    Ends planner cluster move 9 stored not_held (plan_replica_move planner cluster move 9)
plan_replica_move_keeps_example = plan_replica_move_keeps planner cluster move 9 stored not_held
