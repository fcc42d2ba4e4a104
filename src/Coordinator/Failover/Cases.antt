-- ===== src/Coordinator/Failover/Cases.antt =====
-- How a call of `planChunkFailover`, internal/mds/coordinator/failover.go, can end.
use astra_storage.Base.{
  ℕ, ◌≡◌, ◌≢◌, refl, sym, ap, ◌∙◌, ◌⊎◌, inl, inr, ◌||◌, Bool, true, false, List, [], ◌∷◌,
  Bool-cases, Option-cases,
}
use astra_storage.Metadata.Object.{FileMetadata, NodeId, NodeInfo}
use astra_storage.Metadata.Chunk.{ChunkMetadata}
use astra_storage.Metadata.Plan.{ReplicaPlan}
use astra_storage.Store.State.{MemoryState, Outcome, Result, ok, err, StoreError, Result-cases}
use astra_storage.Store.File.{get_file}
use astra_storage.Allocator.{select_placement_targets}
use astra_storage.Coordinator.{
  PlannerError, store, Planned, done, failed, materialize_pending_replica, rollback_pending_replica,
}
use astra_storage.Coordinator.Place.{materialize-err}
use astra_storage.Coordinator.Failover.{
  FailoverPlanner, plan_chunk_failover, place_on_first, after_materialize, publish_plan, withdrawn,
  failover_plan, failover_request, new_role, enough_replicas, is_planned,
}
use astra_storage.Store.Requests.{file_by_id}

pub failed-ne-done : {e : PlannerError} {b : Bool} → failed e ≡ done b → ⊥
failed-ne-done h = cc

false-ne-true : ◌≢◌ {A = Planned Bool} (done false) (done true)
false-ne-true h = cc

withdrawn-cases :
    (o : MemoryState × Result (Unit {0})) → ((withdrawn o).0 ≡ o.0) × ((withdrawn o).1 ≢ done true)
withdrawn-cases (s, ok a) = (refl, λ h. failed-ne-done h)
withdrawn-cases (s, err e) = (refl, λ h. failed-ne-done h)

publish_plan-cases :
    (f : FailoverPlanner) (s : MemoryState) (plan : ReplicaPlan) (chunk : ChunkMetadata) (now : ℕ)
    → (publish_plan f s plan chunk now ≡ (s, done true))
      ⊎ (((publish_plan f s plan chunk now).0
            ≡ (rollback_pending_replica s plan.id chunk plan.target_node_id now).0)
          × ((publish_plan f s plan chunk now).1 ≢ done true))
publish_plan-cases f s plan chunk now = elim (Option-cases f.task_producer) [
  | inl e ↦ inl (rw e refl)
  | inr (send, e) ↦ elim (Bool-cases (send plan)) [
    | inl t ↦ inl (rw (e, t) refl)
    | inr t ↦
        rw (e, t)
          (inr (withdrawn-cases (rollback_pending_replica s plan.id chunk plan.target_node_id now)))
  ]
]

-- The call changes nothing and plans nothing; or it has placed a replica on the target that the
-- allocator offers first; or it has placed one there and withdrawn it.
pub data Ends (f : FailoverPlanner) (s : MemoryState) (chunk : ChunkMetadata) (node : NodeId)
    (now : ℕ) (r : MemoryState × Planned Bool) : Type 0 where
  idle : r.0 ≡ s → r.1 ≢ done true → Ends f s chunk node now r
  placed :
      (file : FileMetadata) (target : NodeInfo) (others : List NodeInfo)
      → get_file s (file_by_id chunk.file_id) ≡ ok file
      → select_placement_targets (failover_request s chunk) ≡ target ∷ others
      → (materialize_pending_replica s
          (failover_plan chunk node target.id now)
          chunk
          (new_role chunk)
          now).1
        ≡ ok tt
      → r ≡ (
        (materialize_pending_replica s
            (failover_plan chunk node target.id now)
            chunk
            (new_role chunk)
            now).0,
        done true,
      )
      → Ends f s chunk node now r
  withdrew :
      (target : NodeInfo) (others : List NodeInfo)
      → select_placement_targets (failover_request s chunk) ≡ target ∷ others
      → (materialize_pending_replica s
          (failover_plan chunk node target.id now)
          chunk
          (new_role chunk)
          now).1
        ≡ ok tt
      → r.0
        ≡ (rollback_pending_replica
            (materialize_pending_replica s
              (failover_plan chunk node target.id now)
              chunk
              (new_role chunk)
              now).0
            (failover_plan chunk node target.id now).id
            chunk
            (failover_plan chunk node target.id now).target_node_id
            now).0
      → r.1 ≢ done true
      → Ends f s chunk node now r

pub outcome-cases :
    (o : Outcome (Unit {0})) → (o ≡ (o.0, ok tt)) ⊎ ((e : StoreError) × (o ≡ (o.0, err e)))
outcome-cases (s, ok tt) = inl refl
outcome-cases (s, err e) = inr (e, refl)

module _ (f : FailoverPlanner) (s : MemoryState) (chunk : ChunkMetadata) (node : NodeId)
    (now : ℕ) where
  place_on_first-Ends :
      (file : FileMetadata) (ts : List NodeInfo)
      → get_file s (file_by_id chunk.file_id) ≡ ok file
      → select_placement_targets (failover_request s chunk) ≡ ts
      → Ends f s chunk node now (place_on_first f s chunk node now ts)
  place_on_first-Ends file [] g e = idle refl false-ne-true
  place_on_first-Ends file (target ∷ others) g e =
      let plan : ReplicaPlan = failover_plan chunk node target.id now in
      let o : Outcome (Unit {0}) = materialize_pending_replica s plan chunk (new_role chunk) now in
      elim (outcome-cases o) [
        | inr (x, h) ↦
            let run : after_materialize f o plan chunk now ≡ (o.0, failed (store x)) = rw h refl in
            idle
              (ap (λ (r : MemoryState × Planned Bool). r.0) run
                ∙ materialize-err s plan chunk (new_role chunk) now
                    (ap (λ (y : Outcome (Unit {0})). y.1) h))
              (λ q. failed-ne-done (sym (ap (λ (r : MemoryState × Planned Bool). r.1) run) ∙ q))
        | inl h ↦
            let run : after_materialize f o plan chunk now ≡ publish_plan f o.0 plan chunk now =
              rw h refl in
            let fine : o.1 ≡ ok tt = ap (λ (y : Outcome (Unit {0})). y.1) h in
            elim (publish_plan-cases f o.0 plan chunk now) [
              | inl sent ↦ placed file target others g e fine (run ∙ sent)
              | inr (back, no') ↦
                  withdrew target others e fine
                    (ap (λ (r : MemoryState × Planned Bool). r.0) run ∙ back)
                    (λ q. no' (sym (ap (λ (r : MemoryState × Planned Bool). r.1) run) ∙ q))
            ]
      ]

  pub plan_chunk_failover-Ends : Ends f s chunk node now (plan_chunk_failover f s chunk node now)
  unfolding plan_chunk_failover
  plan_chunk_failover-Ends = elim (Result-cases (get_file s (file_by_id chunk.file_id))) [
    | inr (x, h) ↦ rw (h, plan_chunk_failover) (idle refl (λ q. failed-ne-done q))
    | inl (file, h) ↦ elim (Bool-cases (enough_replicas s chunk file || is_planned s chunk)) [
      | inl t ↦ rw (h, plan_chunk_failover, t) (idle refl false-ne-true)
      | inr t ↦
          rw (h, plan_chunk_failover, t)
            (place_on_first-Ends file (select_placement_targets (failover_request s chunk)) h refl)
    ]
  ]
