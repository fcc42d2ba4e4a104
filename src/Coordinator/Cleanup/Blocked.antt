-- ===== src/Coordinator/Cleanup/Blocked.antt =====
-- A run of `CleanupOnce`, internal/mds/coordinator/cleanup.go, that meets an error; and the end of a
-- failover plan.
use astra_storage.Base.{
  ℕ, ◌≡◌, ◌≢◌, refl, sym, ◌∙◌, true, false, ◌==◌, List, ◌∷◌, none, some, eq_iff, test-of-ne,
}
use astra_storage.Base.Int.{pos}
use astra_storage.Base.Map.Laws.{lookup-insert_self, lookup-erase}
use astra_storage.Metadata.Object.{NodeId}
use astra_storage.Base.Map.{lookup, size}
use astra_storage.Metadata.Chunk.{ChunkMetadata}
use astra_storage.Metadata.Replica.{ReplicaMetadata}
use astra_storage.Metadata.Plan.{ReplicaPlan, replica_plan_type_failover, replica_plan_state_done}
use astra_storage.Store.State.{MemoryState, ok, err, StoreError}
use astra_storage.Store.Chunk.{get_chunk, without_replica, with_chunk}
use astra_storage.Store.Chunk.Laws.{get_chunk-at, remove_chunk_replica-at}
use astra_storage.Store.Plan.{list_replica_plans, patch_plan, with_plan}
use astra_storage.Store.Plan.Laws.{update_replica_plan-at}
use astra_storage.Store.Tx.{in_tx, on_tx}
use astra_storage.Store.Tx.Atomic.{committed}
use astra_storage.Coordinator.{chunk_by_id}
use astra_storage.Coordinator.Cleanup.{
  CleanupController, store, open_plans, finalize_completed_plan, cleanup_once, retiring, plan_done,
  is_ready, purge_lost_replica_metadata, finalize_all,
}

-- A run whose first listed plan names a chunk that cannot be read ends there with that error: the
-- tables are unchanged, whatever the other plans are.
pub cleanup_once_blocked :
    (c : CleanupController) (s : MemoryState) (now : ℕ) (p : ReplicaPlan) (ps : List ReplicaPlan)
    (e : StoreError)
    → list_replica_plans s (open_plans c) ≡ p ∷ ps
    → get_chunk s (chunk_by_id p.chunk_id) ≡ err e
    → cleanup_once c s now ≡ (s, some (store e))
unfolding cleanup_once finalize_completed_plan finalize_all
cleanup_once_blocked c s now p ps e listed gone =
    let one : finalize_completed_plan c s p now ≡ (s, some (store e)) =
      rw (gone, finalize_completed_plan) refl in
    rw (listed, one, finalize_all, one) refl

-- The tables after the end of such a plan.
purge_run :
    (c : CleanupController) (s : MemoryState) (plan stored : ReplicaPlan) (now : ℕ)
    (chunk : ChunkMetadata) (r : ReplicaMetadata)
    → c.task_producer ≡ none
    → plan.type ≡ replica_plan_type_failover
    → (plan.chunk_id == "") ≡ false
    → lookup plan.chunk_id s.chunks ≡ some chunk
    → is_ready (lookup plan.target_node_id chunk.replicas) ≡ true
    → lookup plan.source_node_id chunk.replicas ≡ some r
    → lookup plan.id s.replica_plans ≡ some stored
    → finalize_completed_plan c s plan now ≡ (
      with_plan
          (with_chunk s plan.chunk_id (without_replica plan.source_node_id now chunk))
          plan.id
          (patch_plan (plan_done plan now) stored),
      none,
    )
unfolding finalize_completed_plan
purge_run c s plan stored now chunk r p t n e ready old open' =
    let read : get_chunk s (chunk_by_id plan.chunk_id) ≡ ok chunk =
      get_chunk-at s (chunk_by_id plan.chunk_id) plan.chunk_id chunk refl n e in
    let after : MemoryState =
      with_plan (with_chunk s plan.chunk_id (without_replica plan.source_node_id now chunk)) plan.id
        (patch_plan (plan_done plan now) stored) in
    let all : retiring plan now s ≡ (after, ok tt) =
      rw
        (remove_chunk_replica-at s (chunk_by_id plan.chunk_id) plan.source_node_id now plan.chunk_id
          chunk r refl n e old)
        (update_replica_plan-at
          (with_chunk s plan.chunk_id (without_replica plan.source_node_id now chunk))
          (plan_done plan now) stored open') in
    let run : in_tx (on_tx (retiring plan now)) s ≡ (after, ok tt) =
      committed (retiring plan now) s after all in
    let purged : purge_lost_replica_metadata s plan now ≡ (after, none) =
      unfold purge_lost_replica_metadata in rw run refl in
    let failover : (plan.type == replica_plan_type_failover) ≡ true =
      (eq_iff plan.type replica_plan_type_failover).1 t in
    rw (read, finalize_completed_plan, ready, p, failover, purged) refl

-- Where a stored failover plan's copy is ready, the source still has a replica and no queue is set,
-- the call succeeds: the source has no replica of the chunk, the other nodes keep theirs, and they
-- are counted; the plan is done at the time of the call, and otherwise as it was stored.
pub finalize_completed_plan_purges :
    (c : CleanupController) (s : MemoryState) (plan stored : ReplicaPlan) (now : ℕ)
    (chunk : ChunkMetadata) (r : ReplicaMetadata)
    → c.task_producer ≡ none
    → plan.type ≡ replica_plan_type_failover
    → (plan.chunk_id == "") ≡ false
    → lookup plan.chunk_id s.chunks ≡ some chunk
    → is_ready (lookup plan.target_node_id chunk.replicas) ≡ true
    → lookup plan.source_node_id chunk.replicas ≡ some r
    → lookup plan.id s.replica_plans ≡ some stored
    → ((finalize_completed_plan c s plan now).1 ≡ none)
      × ((after : ChunkMetadata) × (lookup plan.chunk_id
              (finalize_completed_plan c s plan now).0.chunks
            ≡ some after)
          × (lookup plan.source_node_id after.replicas ≡ none)
          × ((n : NodeId)
              → n ≢ plan.source_node_id
              → lookup n after.replicas ≡ lookup n chunk.replicas)
          × (after.replica_count ≡ pos (size after.replicas)))
      × (lookup plan.id (finalize_completed_plan c s plan now).0.replica_plans
          ≡ some (record stored {
            state = replica_plan_state_done;
            completed_at = some now;
            updated_at = now;
          }))
finalize_completed_plan_purges c s plan stored now chunk r p t n e ready old open' =
    rw (purge_run c s plan stored now chunk r p t n e ready old open') (
      refl,
      (
        without_replica plan.source_node_id now chunk,
        lookup-insert_self plan.chunk_id _ s.chunks,
        lookup-erase plan.source_node_id plan.source_node_id chunk.replicas
            ∙ rw ((eq_iff plan.source_node_id plan.source_node_id).1 refl) refl,
        (λ m d.
            lookup-erase plan.source_node_id m chunk.replicas
            ∙ rw (test-of-ne plan.source_node_id m (λ h. d (sym h))) refl),
        refl,
      ),
      lookup-insert_self plan.id _ s.replica_plans,
    )
