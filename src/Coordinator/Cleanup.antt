-- ===== src/Coordinator/Cleanup.antt =====
-- internal/mds/coordinator/cleanup.go: the end of a plan, when its copy is there. The replica on the
-- source is given up. The timer loop `Run` is left out; `now` is the time of the run.
pub mod Keeps
pub mod Blocked
pub mod Tests
use astra_storage.Base.{
  ℕ, ◌+◌, ◌-◌, String, Bool, true, false, ◌==◌, ◌||◌, not, List, [], ◌∷◌, Option, none, some,
  if◌then◌else◌, eq_ℕ,
}
use astra_storage.Base.Int.{ℤ, pos, pos_part, neg_part, leb_ℤ, add64}
use astra_storage.Base.Map.{lookup}
use astra_storage.Base.Text.{◌++◌}
use astra_storage.Metadata.Chunk.{ChunkMetadata}
use astra_storage.Metadata.Replica.{ReplicaMetadata, replica_state_ready}
use astra_storage.Metadata.Plan.{
  ReplicaPlan, ReplicaPlanState, replica_plan_type_failover, replica_plan_type_rebalance,
  replica_plan_state_materialized, replica_plan_state_copy_ready, replica_plan_state_cleanup_ready,
  replica_plan_state_done,
}
use astra_storage.Store.State.{MemoryState, Outcome, Result, ok, err, StoreError}
use astra_storage.Store.Requests.{ReplicaPlanFilter, ReplicaPlanPatch}
use astra_storage.Store.Chunk.{get_chunk, remove_chunk_replica}
use astra_storage.Store.Node.{get_node}
use astra_storage.Store.Plan.{get_replica_plan, list_replica_plans, update_replica_plan}
use astra_storage.Store.Tx.{in_tx, on_tx}
use astra_storage.Coordinator.{TaskProducer, chunk_by_id, then_call}

-- `request` is a request that could not be made or got no answer.
pub data CleanupError : Type 0 where
  store : StoreError → CleanupError
  publish request unsupported : CleanupError
  status : ℕ → CleanupError

-- `send_delete` is the HTTP client: the status code of the answer to a DELETE of the address, if
-- there is one. `error_text` is the text of an error, since errors are told apart by kind only.
pub record CleanupController : Type 0 where
  pub send_delete : String → Option ℕ
  pub error_text : CleanupError → String
  pub retry_backoff : ℤ
  pub max_plans_per_run : ℤ
  pub task_producer : TaskProducer

abbrev pub new_cleanup_controller :
    (String → Option ℕ) → (CleanupError → String) → ℤ → ℤ → TaskProducer → CleanupController
new_cleanup_controller send_delete error_text retry_backoff max_plans_per_run task_producer =
    record {
      send_delete = send_delete;
      error_text = error_text;
      retry_backoff = if leb_ℤ retry_backoff (pos 0) then pos 60000000000 else retry_backoff;
      max_plans_per_run = if leb_ℤ max_plans_per_run (pos 0) then pos 32 else max_plans_per_run;
      task_producer = task_producer;
    }

-- The tables, with the error if there is one.
abbrev pub CleanupOutcome : Type 0
CleanupOutcome = MemoryState × Option CleanupError

abbrev pub store_outcome : Outcome (Unit {0}) → CleanupOutcome
store_outcome (s, ok a) = (s, none)
store_outcome (s, err e) = (s, some (store e))

abbrev pub plan_done : ReplicaPlan → ℕ → ReplicaPlanPatch
plan_done plan now = record {
  id = plan.id;
  state = some replica_plan_state_done;
  last_error_code = none;
  last_error_message = none;
  retry_count = none;
  next_retry_at = none;
  completed_at = some now;
  updated_at = now;
}

abbrev pub retiring : ReplicaPlan → ℕ → MemoryState → Outcome (Unit {0})
retiring plan now s =
    then_call (remove_chunk_replica s (chunk_by_id plan.chunk_id) plan.source_node_id now)
      (λ t. update_replica_plan t (plan_done plan now))

unfoldable pub purge_lost_replica_metadata : MemoryState → ReplicaPlan → ℕ → CleanupOutcome
purge_lost_replica_metadata s plan now = store_outcome (in_tx (on_tx (retiring plan now)) s)

abbrev pub is_success : ℕ → Bool
is_success code = eq_ℕ code 204 || eq_ℕ code 200

unfoldable pub delete_source_replica :
    CleanupController → MemoryState → ReplicaPlan → ℕ → CleanupOutcome
delete_source_replica c s plan now = elim (get_node s plan.source_node_id) [
  | err e ↦ (s, some (store e))
  | ok source ↦ elim (c.send_delete (source.address ++ "/chunks/" ++ plan.chunk_id)) [
    | none ↦ (s, some request)
    | some code ↦
        if is_success code
        then store_outcome (in_tx (on_tx (retiring plan now)) s)
        else (s, some (status code))
  ]
]

abbrev pub plan_failed : CleanupController → ReplicaPlan → CleanupError → ℕ → ReplicaPlanPatch
plan_failed c plan e now = record {
  id = plan.id;
  state = none;
  last_error_code = some "cleanup_failed";
  last_error_message = some (c.error_text e);
  retry_count = some (add64 plan.retry_count (pos 1));
  next_retry_at = some (now + pos_part c.retry_backoff - neg_part c.retry_backoff);
  completed_at = none;
  updated_at = now;
}

unfoldable pub fail_or_retry_plan :
    CleanupController → MemoryState → ReplicaPlan → CleanupError → ℕ → CleanupOutcome
fail_or_retry_plan c s plan e now = store_outcome (update_replica_plan s (plan_failed c plan e now))

abbrev pub or_retry : CleanupController → ReplicaPlan → ℕ → CleanupOutcome → CleanupOutcome
or_retry c plan now (s, none) = (s, none)
or_retry c plan now (s, some e) = fail_or_retry_plan c s plan e now

abbrev pub plan_cleanup_ready : ReplicaPlan → ℕ → ReplicaPlanPatch
plan_cleanup_ready plan now = record {
  id = plan.id;
  state = some replica_plan_state_cleanup_ready;
  last_error_code = none;
  last_error_message = none;
  retry_count = none;
  next_retry_at = none;
  completed_at = none;
  updated_at = now;
}

-- The switch over the plan's type; the last argument is its default case.
abbrev pub clean_up :
    CleanupController → MemoryState → ReplicaPlan → ℕ → CleanupOutcome → CleanupOutcome
clean_up c s plan now other =
    if plan.type == replica_plan_type_failover
    then purge_lost_replica_metadata s plan now
    else if plan.type == replica_plan_type_rebalance
    then or_retry c plan now (delete_source_replica c s plan now)
    else other

abbrev pub is_ready : Option ReplicaMetadata → Bool
is_ready none = false
is_ready (some r) = r.state == replica_state_ready

abbrev pub hand_over :
    CleanupController → MemoryState → ReplicaPlan → ℕ → (ReplicaPlan → Bool) → CleanupOutcome
hand_over c s plan now send =
    if plan.state == replica_plan_state_cleanup_ready
    then (s, none)
    else if send plan
    then store_outcome (update_replica_plan s (plan_cleanup_ready plan now))
    else fail_or_retry_plan c s plan publish now

unfoldable pub finalize_completed_plan :
    CleanupController → MemoryState → ReplicaPlan → ℕ → CleanupOutcome
finalize_completed_plan c s plan now = elim (get_chunk s (chunk_by_id plan.chunk_id)) [
  | err e ↦ (s, some (store e))
  | ok chunk ↦
      if is_ready (lookup plan.target_node_id chunk.replicas)
      then (elim c.task_producer [
        | none ↦ clean_up c s plan now (s, none)
        | some send ↦ hand_over c s plan now send
      ])
      else (s, none)
]

abbrev pub open_plans : CleanupController → ReplicaPlanFilter
open_plans c = record {
  types = replica_plan_type_failover ∷ replica_plan_type_rebalance ∷ [];
  states =
      replica_plan_state_materialized ∷ replica_plan_state_copy_ready
      ∷ replica_plan_state_cleanup_ready ∷ [];
  chunk_id = "";
  file_id = "";
  source_node_id = "";
  target_node_id = "";
  limit = c.max_plans_per_run;
  offset = pos 0;
}

finalize_all : CleanupController → ℕ → List ReplicaPlan → MemoryState → CleanupOutcome
finalize_all c now [] s = (s, none)
finalize_all c now (p ∷ ps) s = elim (finalize_completed_plan c s p now).1 [
  | some e ↦ ((finalize_completed_plan c s p now).0, some e)
  | none ↦ finalize_all c now ps (finalize_completed_plan c s p now).0
]

unfoldable pub cleanup_once : CleanupController → MemoryState → ℕ → CleanupOutcome
unfolding finalize_all
cleanup_once c s now = finalize_all c now (list_replica_plans s (open_plans c)) s

unfoldable pub execute_cleanup : CleanupController → MemoryState → String → ℕ → CleanupOutcome
execute_cleanup c s plan_id now = elim (get_replica_plan s plan_id) [
  | err e ↦ (s, some (store e))
  | ok plan ↦ clean_up c s plan now (s, some unsupported)
]
