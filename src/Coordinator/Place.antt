-- ===== src/Coordinator/Place.antt =====
-- The replica that a planner of internal/mds/coordinator adds, and its withdrawal: what they leave.
use astra_storage.Base.{
  ℕ, String, ◌≡◌, ◌≢◌, refl, sym, ap, ◌∙◌, ◌⊎◌, inl, inr, false, ◌==◌, none, some, test-of-ne,
}
use astra_storage.Base.Map.{lookup, erase, insert_all, erase_all}
use astra_storage.Base.Map.Laws.{lookup-insert, lookup-insert_self, erase-insert}
use astra_storage.Metadata.Object.{NodeId}
use astra_storage.Metadata.Chunk.{ChunkMetadata}
use astra_storage.Metadata.Replica.{ReplicaRole}
use astra_storage.Metadata.Plan.{ReplicaPlan}
use astra_storage.Store.State.{MemoryState, Outcome, ok, err, StoreError, Result-cases, err-ne-ok}
use astra_storage.Store.Requests.{ChunkReplicaPatch}
use astra_storage.Store.Chunk.{update_chunk_replicas, with_chunk, patch_replicas}
use astra_storage.Store.Plan.{create_replica_plan, with_plan}
use astra_storage.Store.Chunk.Laws.{update_chunk_replicas-at}
use astra_storage.Store.Plan.Laws.{create_replica_plan-ok, delete_replica_plan-at}
use astra_storage.Store.Tx.Atomic.{in_tx_atomic}
use astra_storage.Coordinator.{
  add_replica, withdraw_replica, then_call, placing, withdrawing, pending_replica,
  materialize_pending_replica, rollback_pending_replica,
}

then_call-err :
    (o : Outcome (Unit {0})) (f : MemoryState → Outcome (Unit {0})) {e : StoreError}
    → o.1 ≡ err e
    → (then_call o f).1 ≡ err e
then_call-err (s, err e) f h = h
then_call-err (s, ok a) f h = absurd (err-ne-ok (sym h))

-- A placement that fails leaves the tables alone.
pub materialize-err :
    (s : MemoryState) (plan : ReplicaPlan) (chunk : ChunkMetadata) (role : ReplicaRole) (now : ℕ)
    {e : StoreError}
    → (materialize_pending_replica s plan chunk role now).1 ≡ err e
    → (materialize_pending_replica s plan chunk role now).0 ≡ s
unfolding materialize_pending_replica
materialize-err s plan chunk role now h =
    elim (in_tx_atomic (placing plan (add_replica chunk plan.target_node_id role now)) s) [
      | inl (good, run) ↦ absurd (err-ne-ok (sym h ∙ ap (λ (o : Outcome (Unit {0})). o.1) run))
      | inr (e', bad, run) ↦ ap (λ (o : Outcome (Unit {0})). o.0) run
    ]

module _ (s : MemoryState) (plan : ReplicaPlan) (chunk : ChunkMetadata) (role : ReplicaRole)
    (now : ℕ) (of_chunk : plan.chunk_id ≡ chunk.id)
    (stored : lookup chunk.id s.chunks ≡ some chunk) where
  -- The tables with the plan and the pending replica.
  abbrev pub placed : MemoryState
  placed =
      with_chunk (with_plan s plan.id plan) chunk.id
        (patch_replicas (add_replica chunk plan.target_node_id role now) chunk)

  abbrev patch : ChunkReplicaPatch
  patch = add_replica chunk plan.target_node_id role now

  pub materialize-cases :
      (((chunk.id == "") ≡ false)
        × (lookup plan.id s.replica_plans ≡ none)
        × (materialize_pending_replica s plan chunk role now ≡ (placed, ok tt)))
      ⊎ ((e : StoreError) × (materialize_pending_replica s plan chunk role now ≡ (s, err e)))
  unfolding materialize_pending_replica
  materialize-cases = elim (Result-cases (create_replica_plan s (some plan)).1) [
    | inl (tt, h) ↦
        let (named, fresh, made) = create_replica_plan-ok s plan h in
        let nonempty : (chunk.id == "") ≡ false = rw (← of_chunk) named in
        let all : placing plan patch s ≡ (placed, ok tt) = rw made (
          update_chunk_replicas-at (with_plan s plan.id plan) patch chunk.id chunk refl nonempty
            stored) in
        elim (in_tx_atomic (placing plan patch) s) [
          | inl (_, run) ↦ inl (nonempty, fresh, rw all at run)
          | inr (e, bad, run) ↦ inr (e, run)
        ]
    | inr (e, h) ↦ elim (in_tx_atomic (placing plan patch) s) [
      | inl (good, run) ↦ absurd (
          err-ne-ok (
            sym (
              then_call-err (create_replica_plan s (some plan)) (λ t. update_chunk_replicas t patch)
                h)
            ∙ good))
      | inr (e', bad, run) ↦ inr (e', run)
    ]
  ]

  abbrev pub back : ChunkReplicaPatch
  back = withdraw_replica chunk plan.target_node_id now

  abbrev pub restored : MemoryState
  restored =
      let t : MemoryState = with_chunk placed chunk.id (
        patch_replicas back
          (patch_replicas (add_replica chunk plan.target_node_id role now) chunk)) in
      record t { replica_plans = erase plan.id t.replica_plans }

  pub rollback_lem :
      (chunk.id == "") ≡ false
      → rollback_pending_replica placed plan.id chunk plan.target_node_id now ≡ (restored, ok tt)
  unfolding rollback_pending_replica
  rollback_lem nonempty =
      let all : withdrawing plan.id back placed ≡ (restored, ok tt) =
        rw
          (update_chunk_replicas-at placed back chunk.id (patch_replicas patch chunk) refl nonempty
            (lookup-insert_self chunk.id (patch_replicas patch chunk) s.chunks))
          (delete_replica_plan-at _ plan.id plan
            (lookup-insert_self plan.id plan s.replica_plans)) in
      elim (in_tx_atomic (withdrawing plan.id back) placed) [
        | inl (_, run) ↦ rw all at run
        | inr (e, bad, run) ↦
            absurd (err-ne-ok (sym bad ∙ ap (λ (o : Outcome (Unit {0})). o.1) all))
      ]

-- After a placement the stored chunk has the pending replica on the target.
pub materialize-pending :
    (s : MemoryState) (plan : ReplicaPlan) (chunk : ChunkMetadata) (role : ReplicaRole) (now : ℕ)
    (target : NodeId)
    → plan.chunk_id ≡ chunk.id
    → plan.target_node_id ≡ target
    → lookup chunk.id s.chunks ≡ some chunk
    → (materialize_pending_replica s plan chunk role now).1 ≡ ok tt
    → (c : ChunkMetadata) × (lookup chunk.id
          (materialize_pending_replica s plan chunk role now).0.chunks
        ≡ some c)
      × (lookup target c.replicas ≡ some (pending_replica chunk target role now))
unfolding insert_all erase_all
materialize-pending s plan chunk role now target of_chunk at stored h =
    elim (materialize-cases s plan chunk role now of_chunk stored) [
      | inr (e, run) ↦ absurd (err-ne-ok (sym (ap (λ (o : Outcome (Unit {0})). o.1) run) ∙ h))
      | inl (nonempty, fresh, run) ↦
          rw (run, at)
            (
              patch_replicas (add_replica chunk target role now) chunk,
              lookup-insert_self chunk.id _ s.chunks,
              lookup-insert_self target (pending_replica chunk target role now) chunk.replicas,
            )
    ]

-- After a placement the plan is stored, and the files are as before.
pub materialize-plan :
    (s : MemoryState) (plan : ReplicaPlan) (chunk : ChunkMetadata) (role : ReplicaRole) (now : ℕ)
    → plan.chunk_id ≡ chunk.id
    → lookup chunk.id s.chunks ≡ some chunk
    → (materialize_pending_replica s plan chunk role now).1 ≡ ok tt
    → (lookup plan.id (materialize_pending_replica s plan chunk role now).0.replica_plans
        ≡ some plan)
      × ((materialize_pending_replica s plan chunk role now).0.files ≡ s.files)
materialize-plan s plan chunk role now of_chunk stored h =
    elim (materialize-cases s plan chunk role now of_chunk stored) [
      | inr (e, run) ↦ absurd (err-ne-ok (sym (ap (λ (o : Outcome (Unit {0})). o.1) run) ∙ h))
      | inl (nonempty, fresh, run) ↦ rw run (lookup-insert_self plan.id plan s.replica_plans, refl)
    ]

-- The plans are as before, and the chunks but for `chunk`, which has the same replicas and wants
-- the same number of them.
pub record Restores (s t : MemoryState) (chunk : ChunkMetadata) : Type 0 where
  pub same_plans : (k : String) → lookup k t.replica_plans ≡ lookup k s.replica_plans
  pub other_chunks : (k : String) → k ≢ chunk.id → lookup k t.chunks ≡ lookup k s.chunks
  pub same_replicas :
      (c : ChunkMetadata) × (lookup chunk.id t.chunks ≡ some c)
      × ((n : NodeId) → lookup n c.replicas ≡ lookup n chunk.replicas)
      × (c.replica_policy.desired_replica_count ≡ chunk.replica_policy.desired_replica_count)

-- A withdrawal after a placement that succeeded succeeds and takes it back: the plans and the other
-- chunks are as they were, and the chunk has the same replicas and desired number of them, if the plan
-- is for the stored chunk and its target held no replica of it.
pub rollback_pending_replica-Restores :
    (s : MemoryState) (plan : ReplicaPlan) (chunk : ChunkMetadata) (role : ReplicaRole) (now : ℕ)
    → plan.chunk_id ≡ chunk.id
    → lookup chunk.id s.chunks ≡ some chunk
    → lookup plan.target_node_id chunk.replicas ≡ none
    → (materialize_pending_replica s plan chunk role now).1 ≡ ok tt
    → ((rollback_pending_replica
          (materialize_pending_replica s plan chunk role now).0
          plan.id
          chunk
          plan.target_node_id
          now).1
        ≡ ok tt)
      × Restores s
          (rollback_pending_replica
            (materialize_pending_replica s plan chunk role now).0
            plan.id
            chunk
            plan.target_node_id
            now).0
          chunk
unfolding insert_all erase_all
rollback_pending_replica-Restores s plan chunk role now of_chunk stored free h =
    elim (materialize-cases s plan chunk role now of_chunk stored) [
      | inr (e, run) ↦ absurd (err-ne-ok (sym (ap (λ (o : Outcome (Unit {0})). o.1) run) ∙ h))
      | inl (nonempty, fresh, run) ↦
          rw (run, rollback_lem s plan chunk role now of_chunk stored nonempty)
            (
              refl,
              record {
                same_plans = λ k. erase-insert k plan.id plan s.replica_plans fresh;
                other_chunks = λ k d.
                    let other : (chunk.id == k) ≡ false = test-of-ne chunk.id k (λ e. d (sym e)) in
                    lookup-insert chunk.id k _ _
                    ∙ rw other (lookup-insert chunk.id k _ s.chunks ∙ rw other refl);
                same_replicas = (
                  patch_replicas (back s plan chunk role now of_chunk stored)
                      (patch_replicas (patch s plan chunk role now of_chunk stored) chunk),
                  lookup-insert_self chunk.id _ _,
                  (λ n.
                      erase-insert n plan.target_node_id
                        (pending_replica chunk plan.target_node_id role now) chunk.replicas free),
                  refl,
                );
              },
            )
    ]
