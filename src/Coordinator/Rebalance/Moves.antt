-- ===== src/Coordinator/Rebalance/Moves.antt =====
-- `planReplicaMove` of internal/mds/coordinator/rebalance.go: the plan that it leaves, or none.
use astra_storage.Base.{
  ℕ, ◌≡◌, refl, true, false, ap, ◌⊎◌, inl, inr, none, some, Bool-cases, Option-cases,
}
use astra_storage.Base.Map.{lookup}
use astra_storage.Metadata.Chunk.{ChunkMetadata}
use astra_storage.Metadata.Plan.{ReplicaPlan}
use astra_storage.Metadata.Replica.{replica_role_secondary}
use astra_storage.Store.State.{MemoryState, Outcome, ok, err}
use astra_storage.Coordinator.{
  materialize_pending_replica, rollback_pending_replica, pending_replica, PlannerError, store,
  TaskProducer,
}
use astra_storage.Coordinator.Place.{
  Restores, rollback_pending_replica-Restores, materialize-err, materialize-plan,
  materialize-pending,
}
use astra_storage.Coordinator.Failover.Cases.{outcome-cases}
use astra_storage.Coordinator.Rebalance.{
  RebalancePlanner, RebalanceMove, rebalance_plan, plan_replica_move, publish_move, move_outcome,
  MoveOutcome,
}

-- The plan is stored, and the stored chunk has the pending replica on the target.
pub record IsPlanned (t : MemoryState) (move : RebalanceMove) (now : ℕ) : Type 0 where
  pub plan_stored :
      lookup (rebalance_plan move now).id t.replica_plans ≡ some (rebalance_plan move now)
  pub replica_stored :
      (c : ChunkMetadata) × (lookup move.chunk.id t.chunks ≡ some c)
      × (lookup move.target.id c.replicas
          ≡ some (pending_replica move.chunk move.target.id replica_role_secondary now))

-- The queue has taken the plan's task, or no queue is set.
abbrev pub Took : TaskProducer → ReplicaPlan → Type 0
Took none plan = Unit
Took (some send) plan = send plan ≡ true

-- A queue is set, and has refused the plan's task.
abbrev pub Refused : TaskProducer → ReplicaPlan → Type 0
Refused none plan = ⊥
Refused (some send) plan = send plan ≡ false

move_outcome-ok : (o : Outcome (Unit {0})) → o.1 ≡ ok tt → (move_outcome o).1 ≡ none
move_outcome-ok (s, ok a) h = refl
move_outcome-ok (s, err e) h = cc

move_outcome-tables : (o : Outcome (Unit {0})) → (move_outcome o).0 ≡ o.0
move_outcome-tables (s, ok a) = refl
move_outcome-tables (s, err e) = refl

module _ (r : RebalancePlanner) (s : MemoryState) (move : RebalanceMove) (now : ℕ)
    (stored : lookup move.chunk.id s.chunks ≡ some move.chunk)
    (not_held : lookup move.target.id move.chunk.replicas ≡ none) where
  -- What a call may leave, tables and error: the plan, which the queue took; the old tables, with the
  -- plan withdrawn since the queue refused it; or the old tables and an error.
  abbrev pub Ends : MoveOutcome → Type 0
  Ends o =
      (IsPlanned o.0 move now × (o.1 ≡ none) × Took r.task_producer (rebalance_plan move now))
      ⊎ ((Restores s o.0 move.chunk
            × (o.1 ≡ none)
            × Refused r.task_producer (rebalance_plan move now))
          ⊎ (Restores s o.0 move.chunk × (e : PlannerError) × (o.1 ≡ some e)))

  made : Outcome (Unit {0})
  made =
      materialize_pending_replica s (rebalance_plan move now) move.chunk replica_role_secondary now

  made-IsPlanned : made.1 ≡ ok tt → IsPlanned made.0 move now
  unfolding made rebalance_plan
  made-IsPlanned h = record {
    plan_stored =
        (materialize-plan s (rebalance_plan move now) move.chunk replica_role_secondary now refl
          stored h).0;
    replica_stored =
        materialize-pending s (rebalance_plan move now) move.chunk replica_role_secondary now
          move.target.id refl refl stored h;
  }

  abbrev withdrawal : Outcome (Unit {0})
  withdrawal =
      rollback_pending_replica made.0 (rebalance_plan move now).id move.chunk move.target.id now

  withdrawn-Restores : made.1 ≡ ok tt → (withdrawal.1 ≡ ok tt) × Restores s withdrawal.0 move.chunk
  unfolding made rebalance_plan
  withdrawn-Restores h =
      rollback_pending_replica-Restores s (rebalance_plan move now) move.chunk
        replica_role_secondary now refl stored not_held h

  publish_move-Ends :
      made.1 ≡ ok tt → Ends (publish_move r made.0 move (rebalance_plan move now) now)
  unfolding made
  publish_move-Ends h = elim (Option-cases r.task_producer) [
    | inl p ↦ rw p (inl (made-IsPlanned h, refl, tt))
    | inr (send, p) ↦ elim (Bool-cases (send (rebalance_plan move now))) [
      | inl t ↦ rw (p, t) (inl (made-IsPlanned h, refl, refl))
      | inr t ↦
          let (good, back) = withdrawn-Restores h in
          rw (p, t, move_outcome-tables withdrawal, move_outcome-ok withdrawal good)
            (inr (inl (back, refl, refl)))
    ]
  ]

  -- A move of a stored chunk to a node without a replica of it ends in one of three ways: without an
  -- error, the queue, if one is set, has taken the task, and the plan and the pending replica are
  -- stored; without an error, the queue has refused it; or with an error. In the last two the plans
  -- and the other chunks are as they were, and the chunk has the same replicas.
  pub plan_replica_move_keeps : Ends (plan_replica_move r s move now)
  unfolding plan_replica_move made
  plan_replica_move_keeps = elim (outcome-cases made) [
    | inl h ↦
        let run : plan_replica_move r s move now
            ≡ publish_move r made.0 move (rebalance_plan move now) now =
          rw (h, plan_replica_move) refl in
        rw run (publish_move-Ends (ap (λ (o : Outcome (Unit {0})). o.1) h))
    | inr (e, h) ↦
        let same : made.0 ≡ s =
          materialize-err s (rebalance_plan move now) move.chunk replica_role_secondary now
            (ap (λ (o : Outcome (Unit {0})). o.1) h) in
        let run : plan_replica_move r s move now ≡ (s, some (store e)) =
          rw (h, plan_replica_move, same) refl in
        rw run (
          inr (
            inr (
              record {
                same_plans = λ k. refl;
                other_chunks = λ k d. refl;
                same_replicas = (move.chunk, stored, (λ n. refl), refl);
              },
              store e,
              refl,
            )))
  ]
