-- ===== src/Coordinator/Failover/Withdraws.antt =====
-- `planChunkFailover` of internal/mds/coordinator/failover.go: what it leaves without a plan, and the
-- target of a plan.
use astra_storage.Base.{ℕ, String, ◌≡◌, ◌≢◌, refl, ap, inl, Bool, true, List, ◌∷◌, none, some}
use astra_storage.Base.Int.{IsInt64}
use astra_storage.Base.Map.{Map, lookup, IsMap}
use astra_storage.Base.Slice.Sorted.{Mem}
use astra_storage.Metadata.Object.{NodeId, NodeInfo}
use astra_storage.Metadata.Chunk.{ChunkMetadata}
use astra_storage.Store.State.{MemoryState, ok}
use astra_storage.Store.Node.Laws.{list_nodes-stored}
use astra_storage.Allocator.{select_placement_targets}
use astra_storage.Allocator.Best.{
  IsEligible, select_placement_targets-Mem, select_placement_targets-IsEligible,
  select_placement_targets-new,
}
use astra_storage.Coordinator.{Planned, done, materialize_pending_replica, pending_replica}
use astra_storage.Coordinator.Place.{
  Restores, materialize-pending, rollback_pending_replica-Restores,
}
use astra_storage.Coordinator.Failover.{
  FailoverPlanner, plan_chunk_failover, failover_plan, failover_request, new_role, all_nodes,
}
use astra_storage.Coordinator.Failover.Cases.{idle, placed, withdrew, plan_chunk_failover-Ends}

-- Every stored node's capacity is an int64.
abbrev pub AllInt64 : Map NodeInfo → Type 0
AllInt64 m = (k : String) (n : NodeInfo) → lookup k m ≡ some n → IsInt64 n.capacity

module _ (s : MemoryState) (chunk : ChunkMetadata) (target : NodeInfo) (others : List NodeInfo)
    (i : IsMap s.nodes) (w : AllInt64 s.nodes)
    (e : select_placement_targets (failover_request s chunk) ≡ target ∷ others) where
  offered : Mem target (select_placement_targets (failover_request s chunk))
  offered = rw e (inl refl)

  target-IsInt64 : IsInt64 target.capacity
  target-IsInt64 =
      let (k, found) =
        list_nodes-stored s all_nodes target i
          (select_placement_targets-Mem (failover_request s chunk) target offered) in
      w k target found

  pub target_is_new : lookup target.id chunk.replicas ≡ none
  target_is_new =
      select_placement_targets-new (failover_request s chunk) chunk target target-IsInt64 refl
        offered

-- A call for a stored chunk that does not report a new plan, whether it ends in an error or not,
-- leaves the plans and the other chunks as they were, and the chunk with the same replicas and the
-- same desired number of them, if the node table is a map and its capacities are int64.
pub plan_chunk_failover-Restores :
    (f : FailoverPlanner) (s : MemoryState) (chunk : ChunkMetadata) (node : NodeId) (now : ℕ)
    → lookup chunk.id s.chunks ≡ some chunk
    → IsMap s.nodes
    → AllInt64 s.nodes
    → (plan_chunk_failover f s chunk node now).1 ≢ done true
    → Restores s (plan_chunk_failover f s chunk node now).0 chunk
plan_chunk_failover-Restores f s chunk node now stored i w not_done =
    elim (plan_chunk_failover-Ends f s chunk node now) [
      | idle same _ ↦ rw same (record {
        same_plans = λ k. refl;
        other_chunks = λ k d. refl;
        same_replicas = (chunk, stored, (λ n. refl), refl);
      })
      | placed file target others g e fine run ↦
          absurd (not_done (ap (λ (r : MemoryState × Planned Bool). r.1) run))
      | withdrew target others e fine back _ ↦
          rw back
            (rollback_pending_replica-Restores s (failover_plan chunk node target.id now) chunk
              (new_role chunk) now (of_chunk target) stored
              (at_target target (target_is_new s chunk target others i w e)) fine).1
    ]
  where
    of_chunk : (target : NodeInfo) → (failover_plan chunk node target.id now).chunk_id ≡ chunk.id
    of_chunk target = unfold failover_plan in refl

    at_target :
        (target : NodeInfo)
        → lookup target.id chunk.replicas ≡ none
        → lookup (failover_plan chunk node target.id now).target_node_id chunk.replicas ≡ none
    at_target target h = unfold failover_plan in h

-- A call that reports a new plan for a stored chunk has put a pending replica of the chunk on a stored
-- node that is eligible and held no replica of it, if the node table is a map and its capacities are
-- int64.
pub plan_chunk_failover-target :
    (f : FailoverPlanner) (s : MemoryState) (chunk : ChunkMetadata) (node : NodeId) (now : ℕ)
    → lookup chunk.id s.chunks ≡ some chunk
    → IsMap s.nodes
    → AllInt64 s.nodes
    → (plan_chunk_failover f s chunk node now).1 ≡ done true
    → (target : NodeInfo) × (k : String) × (lookup k s.nodes ≡ some target)
      × IsEligible (failover_request s chunk) target
      × (lookup target.id chunk.replicas ≡ none)
      × (c : ChunkMetadata) × (lookup chunk.id (plan_chunk_failover f s chunk node now).0.chunks
          ≡ some c)
      × (lookup target.id c.replicas ≡ some (pending_replica chunk target.id (new_role chunk) now))
plan_chunk_failover-target f s chunk node now stored i w planned =
    elim (plan_chunk_failover-Ends f s chunk node now) [
      | idle same not_done ↦ absurd (not_done planned)
      | withdrew target others e fine back not_done ↦ absurd (not_done planned)
      | placed file target others g e fine run ↦
          let (k, found) = list_nodes-stored s all_nodes target i (
            select_placement_targets-Mem (failover_request s chunk) target
              (offered s chunk target others i w e)) in
          let (c, at, pending) = placed-pending target fine in
          rw run (
            target,
            k,
            found,
            (select_placement_targets-IsEligible (failover_request s chunk) target
                (w k target found) (offered s chunk target others i w e)).1,
            target_is_new s chunk target others i w e,
            c,
            at,
            pending,
          )
    ]
  where
    placed-pending :
        (target : NodeInfo)
        → (materialize_pending_replica s
            (failover_plan chunk node target.id now)
            chunk
            (new_role chunk)
            now).1
          ≡ ok tt
        → (c : ChunkMetadata) × (lookup chunk.id
              (materialize_pending_replica s
                (failover_plan chunk node target.id now)
                chunk
                (new_role chunk)
                now).0.chunks
            ≡ some c)
          × (lookup target.id c.replicas
              ≡ some (pending_replica chunk target.id (new_role chunk) now))
    placed-pending target fine =
        materialize-pending s (failover_plan chunk node target.id now) chunk (new_role chunk) now
          target.id (unfold failover_plan in refl) (unfold failover_plan in refl) stored fine
