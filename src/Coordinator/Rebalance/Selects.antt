-- ===== src/Coordinator/Rebalance/Selects.antt =====
-- `selectReplicaToMove` of internal/mds/coordinator/rebalance.go: the move that it offers.
use astra_storage.Base.{
  String, ◌≡◌, refl, subst, inl, inr, Bool, true, false, ◌||◌, List, [], ◌∷◌, Option, none, some,
  is_some, arith, Bool-cases,
}
use astra_storage.Base.Int.{pos, IsInt64, ◌≤ℤ◌}
use astra_storage.Base.Map.{lookup, IsMap}
use astra_storage.Base.Map.Loops.{same_some}
use astra_storage.Base.Slice.Sorted.{Mem}
use astra_storage.Metadata.Object.{NodeInfo}
use astra_storage.Metadata.Chunk.{ChunkMetadata}
use astra_storage.Store.State.{MemoryState}
use astra_storage.Store.Node.{list_nodes}
use astra_storage.Store.Chunk.{list_chunks_by_node}
use astra_storage.Store.Chunk.Laws.{list_chunks_by_node-stored}
use astra_storage.Allocator.{select_placement_targets, count_effective_ready_replicas}
use astra_storage.Allocator.Best.{
  IsEligible, select_placement_targets-Mem, select_placement_targets-IsEligible,
  select_placement_targets-new,
}
use astra_storage.Coordinator.{node_index}
use astra_storage.Coordinator.Failover.{all_nodes}
use astra_storage.Coordinator.Rebalance.{
  RebalanceMove, select_replica_to_move, select_among, is_moving, is_short, rebalance_request,
  desired_or_default,
}

-- The chunk is stored with a replica on the source and as many working copies as it asks for; the
-- target is one of those given, may take the replica, and holds none of the chunk.
pub record IsSafe (s : MemoryState) (source : NodeInfo) (targets : List NodeInfo)
    (move : RebalanceMove) : Type 0 where
  pub key : String
  pub stored : lookup key s.chunks ≡ some move.chunk
  pub from_source : move.source ≡ source
  pub on_source : is_some (lookup source.id move.chunk.replicas) ≡ true
  pub copies :
      desired_or_default move.chunk
      ≤ℤ pos
          (count_effective_ready_replicas move.chunk.replicas (node_index (list_nodes s all_nodes)))
  pub given : Mem move.target targets
  pub eligible : IsEligible (rebalance_request move.chunk targets) move.target
  pub not_held : lookup move.target.id move.chunk.replicas ≡ none

module _ (s : MemoryState) (source : NodeInfo) (targets : List NodeInfo) where
  -- What the loop has checked of the move that it returns.
  Picked : RebalanceMove → List ChunkMetadata → Type 0
  Picked move chunks =
      Mem move.chunk chunks
      × (move.source ≡ source)
      × (is_short s move.chunk ≡ false)
      × Mem move.target (select_placement_targets (rebalance_request move.chunk targets))

  later-Picked :
      (chunk : ChunkMetadata) (chunks : List ChunkMetadata) (move : RebalanceMove)
      → Picked move chunks
      → Picked move (chunk ∷ chunks)
  unfolding Picked
  later-Picked chunk chunks move (m, e, f, g) = (inr m, e, f, g)

  here-Picked :
      (chunk : ChunkMetadata) (chunks : List ChunkMetadata) (move : RebalanceMove)
      → is_short s chunk ≡ false
      → (ts : List NodeInfo) → select_placement_targets (rebalance_request chunk targets) ≡ ts
      → (Picked move chunks → Picked move (chunk ∷ chunks))
      → (rest : Option RebalanceMove) → (rest ≡ some move → Picked move chunks)
      → elim ts as (λ _. Option RebalanceMove) [
        | [] ↦ rest
        | target ∷ _ ↦ some (record { chunk = chunk; source = source; target = target })
      ]
        ≡ some move
      → Picked move (chunk ∷ chunks)
  unfolding Picked
  here-Picked chunk chunks move short [] e weaken rest ih h = weaken (ih h)
  here-Picked chunk chunks move short (target ∷ others) e weaken rest ih h =
      subst (λ y. Picked y (chunk ∷ chunks)) (same_some h) (inl refl, refl, short, rw e (inl refl))

  select_among-Picked :
      (chunks : List ChunkMetadata) (move : RebalanceMove)
      → select_among s source targets chunks ≡ some move
      → Picked move chunks
  unfolding select_among
  select_among-Picked [] move h = cc
  select_among-Picked (chunk ∷ chunks) move h =
      elim (Bool-cases (is_moving s chunk || is_short s chunk)) [
        | inl t ↦ later-Picked chunk chunks move (select_among-Picked chunks move (rw t at h))
        | inr t ↦
            here-Picked chunk chunks move (or_false (is_moving s chunk) t)
              (select_placement_targets (rebalance_request chunk targets)) refl
              (later-Picked chunk chunks move) (select_among s source targets chunks)
              (select_among-Picked chunks move) (rw t at h)
      ]
    where
      or_false : (a : Bool) {b : Bool} → (a || b) ≡ false → b ≡ false
      or_false true e = cc
      or_false false e = e

  short-copies :
      (chunk : ChunkMetadata)
      → is_short s chunk ≡ false
      → desired_or_default chunk
        ≤ℤ pos (count_effective_ready_replicas chunk.replicas (node_index (list_nodes s all_nodes)))
  short-copies chunk h = ground arith

  -- A move that is offered is safe, if the chunk table is a map and the capacities of the given nodes
  -- are int64: its chunk is stored with a replica on the source and as many working copies as it asks
  -- for, and its target is a given node that is eligible and holds no replica of the chunk.
  pub select_replica_to_move-IsSafe :
      (move : RebalanceMove)
      → IsMap s.chunks
      → ((n : NodeInfo) → Mem n targets → IsInt64 n.capacity)
      → select_replica_to_move s source targets ≡ some move
      → IsSafe s source targets move
  unfolding select_replica_to_move Picked
  select_replica_to_move-IsSafe move i w h =
      let (m, from, short, offered) =
        select_among-Picked (list_chunks_by_node s source.id) move h in
      let (k, e, held) = list_chunks_by_node-stored s source.id move.chunk i m in
      let given' : Mem move.target targets =
        select_placement_targets-Mem (rebalance_request move.chunk targets) move.target offered in
      record {
        key = k;
        stored = e;
        from_source = from;
        on_source = held;
        copies = short-copies move.chunk short;
        given = given';
        eligible =
            (select_placement_targets-IsEligible (rebalance_request move.chunk targets) move.target
              (w move.target given') offered).1;
        not_held =
            select_placement_targets-new (rebalance_request move.chunk targets) move.chunk
              move.target (w move.target given') refl offered;
      }
