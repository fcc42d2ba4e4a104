-- ===== src/Store/Plan.antt =====
-- internal/mds/store/memory_plan.go: the replica plans.
pub mod Laws
pub mod Tests
use astra_storage.Base.{
  String, Bool, true, false, not, ◌&&◌, ◌||◌, ◌==◌, List, Option, none, some, is_some, or_keep,
  or_keep?, if◌then◌else◌, ltb, eq_ℕ,
}
use astra_storage.Base.Int.{pos, ltb_ℤ}
use astra_storage.Base.Map.{lookup, insert, erase, any_value, values_where}
use astra_storage.Base.Text.{is_blank}
use astra_storage.Base.Slice.{sort_slice, apply_list_window, text_lt}
use astra_storage.Metadata.Plan.{
  ReplicaPlan, ReplicaPlanState, replica_plan_state_done, replica_plan_state_failed,
}
use astra_storage.Store.State.{
  MemoryState, Outcome, Result, ok, err, not_found, already_exists, invalid_argument, ◌>>=◌, ◌>>◌,
  fail_if, commit,
}
use astra_storage.Store.Requests.{ReplicaPlanFilter, ReplicaPlanPatch}
use astra_storage.Store.Select.{or_error}
use astra_storage.Store.File.{skips, skips_list}

abbrev pub with_plan : MemoryState → String → ReplicaPlan → MemoryState
with_plan s key p = record s { replica_plans = insert key p s.replica_plans }

unfoldable pub is_terminal : ReplicaPlanState → Bool
is_terminal state = state == replica_plan_state_done || state == replica_plan_state_failed

-- An unfinished plan of the same type for the same chunk and target.
abbrev pub same_job : ReplicaPlan → ReplicaPlan → Bool
same_job p e = e.type == p.type && e.chunk_id == p.chunk_id && e.target_node_id == p.target_node_id

abbrev pub blocks : ReplicaPlan → ReplicaPlan → Bool
blocks p e = same_job p e && not (is_terminal e.state)

unfoldable pub create_replica_plan : MemoryState → Option ReplicaPlan → Outcome (Unit {0})
create_replica_plan s none = (s, err invalid_argument)
create_replica_plan s (some p) = commit s do
  fail_if (is_blank p.id) invalid_argument
  fail_if (p.type == "") invalid_argument
  fail_if (p.chunk_id == "" || p.file_id == "") invalid_argument
  fail_if (p.source_node_id == "" || p.target_node_id == "") invalid_argument
  fail_if (p.source_node_id == p.target_node_id) invalid_argument
  fail_if (ltb_ℤ p.required_bytes (pos 0)) invalid_argument
  fail_if (p.state == "") invalid_argument
  fail_if (is_some (lookup p.id s.replica_plans)) already_exists
  fail_if (any_value (blocks p) s.replica_plans) already_exists
  ok (with_plan s p.id p, tt)

pub get_replica_plan : MemoryState → String → Result ReplicaPlan
get_replica_plan s id = or_error (lookup id s.replica_plans)

abbrev pub plan_passes : ReplicaPlanFilter → ReplicaPlan → Bool
plan_passes q p = not (
    skips_list q.types p.type
    || skips_list q.states p.state
    || skips q.chunk_id (p.chunk_id == q.chunk_id)
    || skips q.file_id (p.file_id == q.file_id)
    || skips q.source_node_id (p.source_node_id == q.source_node_id)
    || skips q.target_node_id (p.target_node_id == q.target_node_id))

abbrev pub created_before : ReplicaPlan → ReplicaPlan → Bool
created_before a b =
    if not (eq_ℕ a.created_at b.created_at)
    then ltb a.created_at b.created_at
    else text_lt a.id b.id

unfoldable pub list_replica_plans : MemoryState → ReplicaPlanFilter → List ReplicaPlan
list_replica_plans s q =
    apply_list_window (sort_slice created_before (values_where (plan_passes q) s.replica_plans))
      q.limit q.offset

abbrev pub patch_plan : ReplicaPlanPatch → ReplicaPlan → ReplicaPlan
patch_plan q p = record p {
  state = or_keep q.state p.state;
  last_error_code = or_keep q.last_error_code p.last_error_code;
  last_error_message = or_keep q.last_error_message p.last_error_message;
  retry_count = or_keep q.retry_count p.retry_count;
  next_retry_at = or_keep? q.next_retry_at p.next_retry_at;
  completed_at = or_keep? q.completed_at p.completed_at;
  updated_at = q.updated_at;
}

pub update_replica_plan : MemoryState → ReplicaPlanPatch → Outcome (Unit {0})
update_replica_plan s q =
    commit s
      do p ← or_error (lookup q.id s.replica_plans); ok (with_plan s q.id (patch_plan q p), tt)

unfoldable pub delete_replica_plan : MemoryState → String → Outcome (Unit {0})
delete_replica_plan s id = commit s do
  fail_if (not (is_some (lookup id s.replica_plans))) not_found
  ok (record s { replica_plans = erase id s.replica_plans }, tt)
