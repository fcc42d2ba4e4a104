-- ===== src/Coordinator/Cleanup/Tests.antt =====
-- The end of a failover plan on concrete tables.
use astra_storage.Base.{◌≡◌, ◌≢◌, refl, ◌⊎◌, [], ◌∷◌, none, some}
use astra_storage.Base.Int.{pos}
use astra_storage.Base.Map.{lookup, size, values_where, IsMap}
use astra_storage.Base.Slice.{sort_slice, apply_list_window}
use astra_storage.Metadata.Chunk.{ChunkMetadata}
use astra_storage.Metadata.Plan.{
  ReplicaPlan, replica_plan_state_copy_ready, replica_plan_state_done,
}
use astra_storage.Metadata.Object.{NodeId}
use astra_storage.Store.State.{MemoryState, err, not_found}
use astra_storage.Store.Select.{find_chunk}
use astra_storage.Store.Chunk.{get_chunk}
use astra_storage.Store.Plan.{list_replica_plans}
use astra_storage.Coordinator.{chunk_by_id}
use astra_storage.Coordinator.Cleanup.{
  CleanupController, store, new_cleanup_controller, finalize_completed_plan, cleanup_once,
  open_plans,
}
use astra_storage.Coordinator.Cleanup.Keeps.{Keeps, CopyIsReady, finalize_completed_plan-Keeps}
use astra_storage.Coordinator.Cleanup.Blocked.{cleanup_once_blocked, finalize_completed_plan_purges}
use astra_storage.Store.Fixtures.{chunk, plan, ready_on, with_note}

abbrev copied : ReplicaPlan
copied = record (plan "p1" "n3") { state = replica_plan_state_copy_ready }

abbrev two_copies : ChunkMetadata
two_copies = record (chunk "c0" (pos 0) (pos 0) (pos 4194304)) {
  replicas = ("n1", ready_on "n1") ∷ ("n3", ready_on "n3") ∷ [];
}

abbrev before : MemoryState
before = record with_note { chunks = ("c0", two_copies) ∷ []; replica_plans = ("p1", copied) ∷ [] }

-- The chunk of the plan has been deleted.
abbrev without_chunk : MemoryState
without_chunk = record before { chunks = [] }

abbrev controller : CleanupController
controller = new_cleanup_controller (λ a. some 204) (λ e. "") (pos 0) (pos 0) none

chunks-IsMap : IsMap before.chunks
unfolding lookup
chunks-IsMap = (refl, tt)

finalize_completed_plan-Keeps_example :
    Keeps copied before.chunks (finalize_completed_plan controller before copied 9).0.chunks
    × (((finalize_completed_plan controller before copied 9).0.chunks ≡ before.chunks)
        ⊎ CopyIsReady controller before copied 9 chunks-IsMap refl)
finalize_completed_plan-Keeps_example =
    finalize_completed_plan-Keeps controller before copied 9 chunks-IsMap refl

listed : list_replica_plans without_chunk (open_plans controller) ≡ copied ∷ []
unfolding list_replica_plans values_where sort_slice apply_list_window
listed = refl

gone : get_chunk without_chunk (chunk_by_id "c0") ≡ err not_found
unfolding get_chunk find_chunk lookup
gone = refl

cleanup_once_blocked_example :
    cleanup_once controller without_chunk 9 ≡ (without_chunk, some (store not_found))
cleanup_once_blocked_example =
    cleanup_once_blocked controller without_chunk 9 copied [] not_found listed gone

stored : lookup "c0" before.chunks ≡ some two_copies
unfolding lookup
stored = refl

source : lookup "n1" two_copies.replicas ≡ some (ready_on "n1")
unfolding lookup
source = refl

is_copied : lookup "n3" two_copies.replicas ≡ some (ready_on "n3")
unfolding lookup
is_copied = refl

open_plan : lookup "p1" before.replica_plans ≡ some copied
unfolding lookup
open_plan = refl

finalize_completed_plan_purges_example :
    ((finalize_completed_plan controller before copied 9).1 ≡ none)
    × ((after : ChunkMetadata) × (lookup "c0"
            (finalize_completed_plan controller before copied 9).0.chunks
          ≡ some after)
        × (lookup "n1" after.replicas ≡ none)
        × ((n : NodeId) → n ≢ "n1" → lookup n after.replicas ≡ lookup n two_copies.replicas)
        × (after.replica_count ≡ pos (size after.replicas)))
    × (lookup "p1" (finalize_completed_plan controller before copied 9).0.replica_plans
        ≡ some (record copied {
          state = replica_plan_state_done;
          completed_at = some 9;
          updated_at = 9;
        }))
finalize_completed_plan_purges_example =
    finalize_completed_plan_purges controller before copied copied 9 two_copies (ready_on "n1") refl
      refl refl stored (rw is_copied refl) source open_plan
