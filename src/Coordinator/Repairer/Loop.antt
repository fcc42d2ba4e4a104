-- ===== src/Coordinator/Repairer/Loop.antt =====
-- internal/mds/coordinator/repairer.go: the run over all chunks, and the calls of the queue's consumer.
-- The timer loop `Run` and the metrics of a run are left out; `now` is the time of the run.
use astra_storage.Base.{
  ℕ, suc, ◌+◌, String, Bool, ◌||◌, ◌==◌, List, [], ◌∷◌, Option, none, some, if◌then◌else◌, inl, inr,
  eq_ℕ,
}
use astra_storage.Base.Int.{ℤ, pos, pos_part, ltb_ℤ, leb_ℤ, eq_ℤ, sub64}
use astra_storage.Base.Map.{Map}
use astra_storage.Base.Text.{◌++◌}
use astra_storage.Metadata.Object.{ChunkId, FileId, NodeId, FileMetadata}
use astra_storage.Metadata.Chunk.{ChunkMetadata}
use astra_storage.Metadata.Plan.{ReplicaPlan, replica_plan_state_cleanup_ready}
use astra_storage.Store.State.{Outcome, ok, err}
use astra_storage.Store.Requests.{FileFilter, ReplicaPlanPatch, chunk_by_id}
use astra_storage.Store.File.{list_files}
use astra_storage.Store.Chunk.{get_chunk, list_chunks_by_file}
use astra_storage.Store.Node.{list_nodes}
use astra_storage.Store.Plan.{get_replica_plan, update_replica_plan}
use astra_storage.Coordinator.Failover.{all_nodes}
use astra_storage.Coordinator.Repairer.{select_due_targets, defer_targets}
use astra_storage.Coordinator.Repairer.Source.{select_repair_targets, select_replica_copy_source}
use astra_storage.Coordinator.Repairer.Copy.{
  ReplicaRepairTask, PendingReplicaRepairer, ReplicateChunkRequest, ReplicateChunkResponse,
  RepairError, store, copied_none, publish, RepairOutcome, no_outcome, RepairState, Repaired,
  AskedCopy, execute_replica_copy,
}

-- A negative number is refused, and 0 is the default.
abbrev pub new_pending_replica_repairer :
    (String → ReplicateChunkRequest → Option (ℕ × Option ReplicateChunkResponse))
    → Option (ReplicaRepairTask → Bool)
    → ℤ
    → ℤ
    → ℤ
    → Option PendingReplicaRepairer
new_pending_replica_repairer post publish_repair interval retry_backoff max_replicas_per_run =
    if ltb_ℤ interval (pos 0) || ltb_ℤ retry_backoff (pos 0) || ltb_ℤ max_replicas_per_run (pos 0)
    then none
    else some (record {
      post = post;
      publish_repair = publish_repair;
      retry_backoff = if leb_ℤ retry_backoff (pos 0) then 30000000000 else pos_part retry_backoff;
      max_replicas_per_run =
          if leb_ℤ max_replicas_per_run (pos 0) then pos 32 else max_replicas_per_run;
    })

-- internal/mds/mq/events.go
abbrev pub new_replica_repair_task : ChunkId → FileId → NodeId → NodeId → ReplicaRepairTask
new_replica_repair_task chunk_id file_id source target = record {
  plan_id = "repair-" ++ chunk_id ++ "-" ++ target;
  file_id = file_id;
  chunk_id = chunk_id;
  source_node_id = source;
  target_node_id = target;
}

-- The variables of a run: what is left of the limit, the sums, and the first error.
pub record RunState : Type 0 where
  pub repair : RepairState
  pub remaining : ℤ
  pub total : RepairOutcome
  pub first_error : Option RepairError

module _ (r : PendingReplicaRepairer) (now : ℕ) where
  abbrev pub published : NodeId → ChunkId → RepairState → RepairState
  published id chunk_id (s, m, l) = (s, defer_targets m r.retry_backoff chunk_id (id ∷ []) now, l)

  -- The queue has taken the task.
  abbrev pub queued : NodeId → ChunkId → RepairState → RepairState
  queued id chunk_id (s, m, l) =
      published id chunk_id (s, m, record { chunk_id = chunk_id; node_id = id } ∷ l)

  -- The tasks are published one by one, up to the first that the queue does not take.
  unfoldable pub publish_targets :
      (ReplicaRepairTask → Bool)
      → ChunkMetadata
      → NodeId
      → RepairState
      → RepairOutcome
      → List NodeId
      → Repaired
  publish_targets takes chunk source t o [] = (t, o, none)
  publish_targets takes chunk source t o (id ∷ ids) =
      let rest =
        publish_targets takes chunk source (queued id chunk.id t)
          (record o { attempted = suc o.attempted }) ids in
      if takes (new_replica_repair_task chunk.id chunk.file_id source id) then rest else (
        published id chunk.id t,
        record o { failed = suc o.failed; deferred = suc o.deferred },
        some publish,
      )

  -- The targets are published where a queue is set, and copied where none is.
  unfoldable pub copy_or_publish :
      Option (ReplicaRepairTask → Bool)
      → RepairState
      → ChunkMetadata
      → NodeId
      → List NodeId
      → Repaired
  copy_or_publish none t chunk source ids = execute_replica_copy r chunk now t source ids
  copy_or_publish (some takes) t chunk source ids =
      publish_targets takes chunk source t no_outcome ids

  unfoldable pub repair_targets : RepairState → ChunkMetadata → NodeId → List NodeId → Repaired
  repair_targets t chunk source [] = (t, no_outcome, none)
  repair_targets t chunk source (id ∷ ids) =
      copy_or_publish r.publish_repair t chunk source (id ∷ ids)

  -- Where no target is pending, none is due.
  unfoldable pub repair_chunk : RepairState → ChunkMetadata → ℤ → Repaired
  repair_chunk t chunk remaining =
      if (select_repair_targets chunk.replicas).0 == "" || leb_ℤ remaining (pos 0)
      then (t, no_outcome, none)
      else repair_targets t chunk (select_repair_targets chunk.replicas).0
          (select_due_targets t.1 chunk.id (select_repair_targets chunk.replicas).1 remaining now)

  abbrev pub sum_of : RepairOutcome → RepairOutcome → RepairOutcome
  sum_of a b = record {
    attempted = a.attempted + b.attempted;
    succeeded = a.succeeded + b.succeeded;
    failed = a.failed + b.failed;
    deferred = a.deferred + b.deferred;
  }

  abbrev pub or_first : Option RepairError → Option RepairError → Option RepairError
  or_first none e = e
  or_first (some why) e = some why

  abbrev pub after_chunk : RunState → Repaired → RunState
  after_chunk v (t, o, e) = record {
    repair = t;
    remaining = sub64 v.remaining (pos o.attempted);
    total = sum_of v.total o;
    first_error = or_first v.first_error e;
  }

  unfoldable pub repair_chunks : RunState → List ChunkMetadata → RunState
  repair_chunks v [] = v
  repair_chunks v (c ∷ cs) =
      let rest = repair_chunks (after_chunk v (repair_chunk v.repair c v.remaining)) cs in
      if eq_ℤ v.remaining (pos 0) then v else rest

  unfoldable pub repair_files : RunState → List FileMetadata → RunState
  repair_files v [] = v
  repair_files v (f ∷ fs) =
      let rest = repair_files (repair_chunks v (list_chunks_by_file v.repair.0 f.id)) fs in
      if eq_ℤ v.remaining (pos 0) then v else rest

  abbrev pub every_file : FileFilter
  every_file = record {
    namespace = "";
    parent_inode_id = "";
    path_prefix = "";
    status = [];
    node_id = "";
    limit = pos 0;
    offset = pos 0;
  }

  unfoldable pub repair_once : RepairState → RunState
  repair_once t =
      repair_files
        (record {
          repair = t;
          remaining = r.max_replicas_per_run;
          total = no_outcome;
          first_error = none;
        })
        (list_files t.0 every_file)

  -- The task of a repair that comes back from the queue.
  unfoldable pub execute_replica_repair :
      RepairState → ReplicaRepairTask → RepairState × Option RepairError
  execute_replica_repair t task = elim (get_chunk t.0 (chunk_by_id task.chunk_id)) [
    | err e ↦ (t, some (store e))
    | ok chunk ↦
        let (after, o, why) =
          execute_replica_copy r chunk now t task.source_node_id (task.target_node_id ∷ []) in
        (after, why)
  ]

  abbrev pub cleanup_ready : ReplicaPlan → ReplicaPlanPatch
  cleanup_ready plan = record {
    id = plan.id;
    state = some replica_plan_state_cleanup_ready;
    last_error_code = none;
    last_error_message = none;
    retry_count = none;
    next_retry_at = none;
    completed_at = none;
    updated_at = now;
  }

  abbrev pub plan_written :
      Map ℕ → List AskedCopy → Outcome (Unit {0}) → RepairState × Option RepairError
  plan_written m l (s, ok a) = ((s, m, l), none)
  plan_written m l (s, err e) = ((s, m, l), some (store e))

  -- The plan is ready for the cleanup if its one target has a copy.
  abbrev pub after_copy : ReplicaPlan → Repaired → RepairState × Option RepairError
  after_copy plan (t, o, some why) = (t, some why)
  after_copy plan ((s, m, l), o, none) =
      if eq_ℕ o.succeeded 0
      then ((s, m, l), some copied_none)
      else plan_written m l (update_replica_plan s (cleanup_ready plan))

  abbrev pub copy_plan :
      RepairState → ReplicaPlan → ChunkMetadata → RepairState × Option RepairError
  copy_plan t plan chunk = elim (select_replica_copy_source plan chunk (list_nodes t.0 all_nodes)) [
    | inl why ↦ (t, some why)
    | inr source ↦
        after_copy plan (execute_replica_copy r chunk now t source (plan.target_node_id ∷ []))
  ]

  unfoldable pub execute_replica_plan_copy : RepairState → String → RepairState × Option RepairError
  execute_replica_plan_copy t plan_id = elim (get_replica_plan t.0 plan_id) [
    | err e ↦ (t, some (store e))
    | ok plan ↦ elim (get_chunk t.0 (chunk_by_id plan.chunk_id)) [
      | err e ↦ (t, some (store e))
      | ok chunk ↦ copy_plan t plan chunk
    ]
  ]
