-- ===== src/Coordinator/Cleanup/Keeps.antt =====
-- `finalizeCompletedPlan` of internal/mds/coordinator/cleanup.go and the replicas of the chunks.
use astra_storage.Base.{
  ℕ, String, ◌≡◌, ◌≢◌, refl, sym, ap, ◌∙◌, subst, ◌⊎◌, inl, inr, Bool, true, false, arith, ◌==◌,
  Option, none, some, Bool-cases, Option-cases, eq_iff, test-of-ne,
}
use astra_storage.Base.Text.{◌++◌}
use astra_storage.Base.Map.{Map, lookup, IsMap}
use astra_storage.Base.Map.Laws.{lookup-insert, lookup-erase, same_value}
use astra_storage.Metadata.Object.{NodeId}
use astra_storage.Metadata.Chunk.{ChunkMetadata}
use astra_storage.Metadata.Replica.{ReplicaMetadata, replica_state_ready}
use astra_storage.Metadata.Plan.{
  ReplicaPlan, replica_plan_type_failover, replica_plan_type_rebalance,
  replica_plan_state_cleanup_ready,
}
use astra_storage.Store.State.{MemoryState, Outcome, ok, err, Result-cases}
use astra_storage.Store.Select.{find_chunk, find_chunk-some}
use astra_storage.Store.Chunk.{get_chunk, remove_chunk_replica, without_replica}
use astra_storage.Store.Chunk.Laws.{remove_chunk_replica-cases}
use astra_storage.Store.Node.{get_node}
use astra_storage.Store.Plan.{update_replica_plan}
use astra_storage.Store.Plan.Laws.{update_replica_plan-chunks}
use astra_storage.Store.Tx.{in_tx, on_tx}
use astra_storage.Store.Tx.Atomic.{in_tx_atomic}
use astra_storage.Coordinator.{then_call, chunk_by_id}
use astra_storage.Coordinator.Cleanup.{
  CleanupController, CleanupOutcome, CleanupError, publish, store_outcome, retiring, plan_done,
  purge_lost_replica_metadata, delete_source_replica, is_success, fail_or_retry_plan, plan_failed,
  or_retry, plan_cleanup_ready, clean_up, is_ready, hand_over, finalize_completed_plan,
}

-- Every chunk is still stored, and unchanged but for the plan's, which has the same replicas on all
-- nodes but the plan's source.
pub Keeps : ReplicaPlan → Map ChunkMetadata → Map ChunkMetadata → Type 0
Keeps plan m m' =
    (k : String) (c : ChunkMetadata)
    → lookup k m ≡ some c
    → (c' : ChunkMetadata) × (lookup k m' ≡ some c')
      × ((c' ≡ c)
          ⊎ ((k ≡ plan.chunk_id)
              × ((n : NodeId)
                  → n ≢ plan.source_node_id
                  → lookup n c'.replicas ≡ lookup n c.replicas)))

Keeps-refl : (plan : ReplicaPlan) (m : Map ChunkMetadata) → Keeps plan m m
unfolding Keeps
Keeps-refl plan m k c e = (c, e, inl refl)

-- A chunk that is found by an id stands under it.
key_found :
    (m : Map ChunkMetadata) (id : String) {k : String} {c : ChunkMetadata}
    → (id == "") ≡ false
    → find_chunk m (chunk_by_id id) ≡ some (k, c)
    → k ≡ id
unfolding find_chunk
key_found m id n h = ground arith

remove_chunk_replica-Keeps :
    (s : MemoryState) (plan : ReplicaPlan) (now : ℕ)
    → IsMap s.chunks
    → (plan.chunk_id == "") ≡ false
    → Keeps plan s.chunks
        (remove_chunk_replica s (chunk_by_id plan.chunk_id) plan.source_node_id now).0.chunks
unfolding Keeps
remove_chunk_replica-Keeps s plan now i nonempty k c e =
    elim (remove_chunk_replica-cases s (chunk_by_id plan.chunk_id) plan.source_node_id now) [
      | inl same ↦ rw same (c, e, inl refl)
      | inr (j, b, found, run) ↦ rw run (elim (Bool-cases (j == k)) [
        | inl t ↦
            let at : j ≡ k = (eq_iff j k).0 t in
            let same : b ≡ c =
              same_value
                (subst (λ x. lookup x s.chunks ≡ some b) at
                  (find_chunk-some s.chunks (chunk_by_id plan.chunk_id) i found))
                e in
            (
              without_replica plan.source_node_id now b,
              lookup-insert j k _ s.chunks ∙ rw t refl,
              inr (
                sym at ∙ key_found s.chunks plan.chunk_id nonempty found,
                λ n d.
                    lookup-erase plan.source_node_id n b.replicas
                    ∙ rw (test-of-ne plan.source_node_id n (λ h. d (sym h)))
                        (ap (λ (x : ChunkMetadata). lookup n x.replicas) same),
              ),
            )
        | inr t ↦ (c, lookup-insert j k _ s.chunks ∙ rw t e, inl refl)
      ])
    ]

-- The source's replica goes in a transaction, with the plan's end, or nothing changes.
retire-Keeps :
    (s : MemoryState) (plan : ReplicaPlan) (now : ℕ)
    → IsMap s.chunks
    → (plan.chunk_id == "") ≡ false
    → Keeps plan s.chunks (in_tx (on_tx (retiring plan now)) s).0.chunks
retire-Keeps s plan now i nonempty = elim (in_tx_atomic (retiring plan now) s) [
  | inr (e, bad, run) ↦ rw run (Keeps-refl plan s.chunks)
  | inl (good, run) ↦ rw (run, retired-chunks) (remove_chunk_replica-Keeps s plan now i nonempty)
]
  where
    then-chunks :
        (o : Outcome (Unit {0}))
        → (then_call o (λ t. update_replica_plan t (plan_done plan now))).0.chunks ≡ o.0.chunks
    then-chunks (t, ok a) = update_replica_plan-chunks t (plan_done plan now)
    then-chunks (t, err e) = refl

    retired-chunks :
        (retiring plan now s).0.chunks
        ≡ (remove_chunk_replica s (chunk_by_id plan.chunk_id) plan.source_node_id now).0.chunks
    retired-chunks =
        then-chunks (remove_chunk_replica s (chunk_by_id plan.chunk_id) plan.source_node_id now)

store_outcome-tables : (o : Outcome (Unit {0})) → (store_outcome o).0 ≡ o.0
store_outcome-tables (s, ok a) = refl
store_outcome-tables (s, err e) = refl

module _ (c : CleanupController) (s : MemoryState) (plan : ReplicaPlan) (now : ℕ)
    (i : IsMap s.chunks) (nonempty : (plan.chunk_id == "") ≡ false) where
  transacted-Keeps :
      Keeps plan s.chunks (store_outcome (in_tx (on_tx (retiring plan now)) s)).0.chunks
  transacted-Keeps =
      rw (store_outcome-tables (in_tx (on_tx (retiring plan now)) s))
        (retire-Keeps s plan now i nonempty)

  delete_source_replica-Keeps : Keeps plan s.chunks (delete_source_replica c s plan now).0.chunks
  unfolding delete_source_replica Keeps
  delete_source_replica-Keeps = elim (Result-cases (get_node s plan.source_node_id)) [
    | inr (e, h) ↦ rw (h, delete_source_replica) (Keeps-refl plan s.chunks)
    | inl (node, h) ↦
        elim (Option-cases (c.send_delete (node.address ++ "/chunks/" ++ plan.chunk_id))) [
          | inl a ↦ rw (h, delete_source_replica, a) (Keeps-refl plan s.chunks)
          | inr (code, a) ↦ elim (Bool-cases (is_success code)) [
            | inl t ↦ rw (h, delete_source_replica, a, t) transacted-Keeps
            | inr t ↦ rw (h, delete_source_replica, a, t) (Keeps-refl plan s.chunks)
          ]
        ]
  ]

  or_retry-Keeps :
      (o : CleanupOutcome)
      → Keeps plan s.chunks o.0.chunks
      → Keeps plan s.chunks (or_retry c plan now o).0.chunks
  unfolding fail_or_retry_plan
  or_retry-Keeps (t, none) k = k
  or_retry-Keeps (t, some e) k =
      rw
        (
          store_outcome-tables (update_replica_plan t (plan_failed c plan e now)),
          update_replica_plan-chunks t (plan_failed c plan e now),
        )
        k

  clean_up-Keeps :
      (e : Option CleanupError) → Keeps plan s.chunks (clean_up c s plan now (s, e)).0.chunks
  unfolding purge_lost_replica_metadata
  clean_up-Keeps e = elim (Bool-cases (plan.type == replica_plan_type_failover)) [
    | inl t ↦ rw t transacted-Keeps
    | inr t ↦ elim (Bool-cases (plan.type == replica_plan_type_rebalance)) [
      | inl u ↦
          rw (t, u)
            (or_retry-Keeps (delete_source_replica c s plan now) delete_source_replica-Keeps)
      | inr u ↦ rw (t, u) (Keeps-refl plan s.chunks)
    ]
  ]

  hand_over-same : (send : ReplicaPlan → Bool) → (hand_over c s plan now send).0.chunks ≡ s.chunks
  unfolding fail_or_retry_plan
  hand_over-same send = elim (Bool-cases (plan.state == replica_plan_state_cleanup_ready)) [
    | inl t ↦ rw t refl
    | inr t ↦ elim (Bool-cases (send plan)) [
      | inl u ↦
          rw (t, u, store_outcome-tables (update_replica_plan s (plan_cleanup_ready plan now)))
            (update_replica_plan-chunks s (plan_cleanup_ready plan now))
      | inr u ↦
          rw (t, u, store_outcome-tables (update_replica_plan s (plan_failed c plan publish now)))
            (update_replica_plan-chunks s (plan_failed c plan publish now))
    ]
  ]

  -- The copy that the plan was for is there.
  abbrev pub CopyIsReady : Type 0
  CopyIsReady =
      (chunk : ChunkMetadata) × (r : ReplicaMetadata) × (get_chunk s (chunk_by_id plan.chunk_id)
        ≡ ok chunk)
      × (lookup plan.target_node_id chunk.replicas ≡ some r)
      × (r.state ≡ replica_state_ready)

  ready-replica :
      (o : Option ReplicaMetadata)
      → is_ready o ≡ true
      → (r : ReplicaMetadata) × (o ≡ some r) × (r.state ≡ replica_state_ready)
  ready-replica none h = cc
  ready-replica (some r) h = (r, refl, (eq_iff r.state replica_state_ready).0 h)

  -- The end of a plan removes no chunk and changes none but the plan's, which loses no replica but the
  -- source's; and the chunks change only where the plan's target has a ready replica of that chunk. The
  -- chunk table is a map, and the plan names its chunk by an id that is not empty.
  pub finalize_completed_plan-Keeps :
      Keeps plan s.chunks (finalize_completed_plan c s plan now).0.chunks
      × (((finalize_completed_plan c s plan now).0.chunks ≡ s.chunks) ⊎ CopyIsReady)
  unfolding finalize_completed_plan Keeps
  finalize_completed_plan-Keeps = elim (Result-cases (get_chunk s (chunk_by_id plan.chunk_id))) [
    | inr (e, h) ↦ rw (h, finalize_completed_plan) (Keeps-refl plan s.chunks, inl refl)
    | inl (chunk, h) ↦ elim (Bool-cases (is_ready (lookup plan.target_node_id chunk.replicas))) [
      | inr t ↦ rw (h, finalize_completed_plan, t) (Keeps-refl plan s.chunks, inl refl)
      | inl t ↦
          let (r, e, ready) = ready-replica (lookup plan.target_node_id chunk.replicas) t in
          elim (Option-cases c.task_producer) [
            | inl p ↦ (
              rw (h, finalize_completed_plan, t, p) (clean_up-Keeps none),
              inr (chunk, r, h, e, ready),
            )
            | inr (send, p) ↦
                rw (h, finalize_completed_plan, t, p, hand_over-same send)
                  (Keeps-refl plan s.chunks, inl refl)
          ]
    ]
  ]
