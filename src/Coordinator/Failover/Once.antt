-- ===== src/Coordinator/Failover/Once.antt =====
-- `planChunkFailover` of internal/mds/coordinator/failover.go, called again after it planned a copy.
use astra_storage.Base.{
  ℕ, ◌≡◌, refl, ◌∙◌, inl, inr, ◌||◌, true, false, [], ◌∷◌, some, arith, eq_refl, Bool-cases,
}
use astra_storage.Base.Map.{lookup}
use astra_storage.Metadata.Object.{NodeId, FileMetadata}
use astra_storage.Metadata.Chunk.{ChunkMetadata}
use astra_storage.Metadata.Plan.{ReplicaPlan, replica_plan_type_failover}
use astra_storage.Store.State.{MemoryState, ok}
use astra_storage.Store.File.{get_file}
use astra_storage.Store.File.Laws.{get_file-same}
use astra_storage.Coordinator.Place.{materialize-plan}
use astra_storage.Store.Plan.Laws.{list_replica_plans-nonempty}
use astra_storage.Coordinator.{done, active_plans_of, materialize_pending_replica}
use astra_storage.Coordinator.Failover.{
  FailoverPlanner, plan_chunk_failover, failover_plan, new_role, is_planned, enough_replicas,
}
use astra_storage.Store.Requests.{file_by_id}
use astra_storage.Coordinator.Failover.Cases.{idle, placed, withdrew, plan_chunk_failover-Ends}

-- An active plan that is stored makes the chunk planned.
stored_plan-is_planned :
    (s : MemoryState) (chunk : ChunkMetadata) (node target : NodeId) (now : ℕ)
    → lookup (failover_plan chunk node target now).id s.replica_plans
      ≡ some (failover_plan chunk node target now)
    → is_planned s chunk ≡ true
unfolding failover_plan
stored_plan-is_planned s chunk node target now h =
    let (y, ys, e) =
      list_replica_plans-nonempty s (active_plans_of (replica_plan_type_failover ∷ []) chunk.id)
        (failover_plan chunk node target now).id (failover_plan chunk node target now) refl refl h
        (ground (arith, eq_refl chunk.id)) in
    rw (e, is_planned) refl

is_planned-skips :
    (f : FailoverPlanner) (s : MemoryState) (chunk : ChunkMetadata) (node : NodeId) (now : ℕ)
    (file : FileMetadata)
    → get_file s (file_by_id chunk.file_id) ≡ ok file
    → is_planned s chunk ≡ true
    → plan_chunk_failover f s chunk node now ≡ (s, done false)
unfolding plan_chunk_failover
is_planned-skips f s chunk node now file g p =
    let skip : (enough_replicas s chunk file || is_planned s chunk) ≡ true =
      elim (Bool-cases (enough_replicas s chunk file)) [ inl e ↦ rw e refl | inr e ↦ rw e p ] in
    rw (g, plan_chunk_failover, skip) refl

-- After a call that planned a copy of a stored chunk, each further call for that chunk and file, by
-- any planner, for any node and at any time, plans nothing and changes nothing.
pub plan_chunk_failover-once :
    (f g : FailoverPlanner) (s : MemoryState) (chunk later : ChunkMetadata) (node other : NodeId)
    (now then' : ℕ)
    → lookup chunk.id s.chunks ≡ some chunk
    → (plan_chunk_failover f s chunk node now).1 ≡ done true
    → later.id ≡ chunk.id
    → later.file_id ≡ chunk.file_id
    → plan_chunk_failover g (plan_chunk_failover f s chunk node now).0 later other then'
      ≡ ((plan_chunk_failover f s chunk node now).0, done false)
plan_chunk_failover-once f g s chunk later node other now then' stored planned same_id same_file =
    elim (plan_chunk_failover-Ends f s chunk node now) [
      | idle same not_done ↦ absurd (not_done planned)
      | withdrew target others e fine back not_done ↦ absurd (not_done planned)
      | placed file target others found e fine run ↦
          let plan : ReplicaPlan = failover_plan chunk node target.id now in
          let (plan_in, same_files) =
            materialize-plan s plan chunk (new_role chunk) now (unfold failover_plan in refl) stored
              fine in
          let t : MemoryState = (materialize_pending_replica s plan chunk (new_role chunk) now).0 in
          let busy : is_planned t later ≡ true =
            rw same_id (stored_plan-is_planned t chunk node target.id now plan_in) in
          let there : get_file t (file_by_id later.file_id) ≡ ok file =
            rw same_file (get_file-same t s (file_by_id chunk.file_id) same_files ∙ found) in
          rw run (is_planned-skips g t later other then' file there busy)
    ]
