-- ===== src/Coordinator/Repairer/CopyTests.antt =====
-- Runs of the copy and of the repair loop of internal/mds/coordinator/repairer.go.
use astra_storage.Base.{◌≡◌, refl, [], ◌∷◌, some, none, String, ℕ}
use astra_storage.Base.Int.{pos, wrap64}
use astra_storage.Base.Map.{Map, lookup, insert, insert_all, erase, erase_all, values_where}
use astra_storage.Base.Slice.{sort_slice, apply_list_window}
use astra_storage.Base.Text.{is_blank, trim_right_slash, trim_space}
use astra_storage.Metadata.Chunk.{ChunkMetadata}
use astra_storage.Metadata.Replica.{ReplicaMetadata, replica_state_ready, replica_state_pending}
use astra_storage.Allocator.{
  select_capacity_aware_nodes, select_placement_targets, accepts, filter, goes_before,
}
use astra_storage.Store.State.{MemoryState}
use astra_storage.Store.Select.{find_chunk}
use astra_storage.Store.File.{list_files}
use astra_storage.Store.Chunk.{update_chunk_replicas, list_chunks_by_file}
use astra_storage.Store.Node.{get_node}
use astra_storage.Store.Fixtures.{chunk, node, ready_on, with_note}
use astra_storage.Coordinator.Repairer.{
  defer_targets, set_attempts, clear_retry, select_due_targets, take_due,
}
use astra_storage.Coordinator.Repairer.Copy.{
  PendingReplicaRepairer, replicate_chunk, gather_targets, left_out, results_by_node, mark_targets,
  mark_skipped, copy_to, copy_selected, copy_from, execute_replica_copy, made_ready,
}
use astra_storage.Coordinator.Repairer.Loop.{
  copy_or_publish, repair_targets, repair_chunk, repair_chunks, repair_files, repair_once,
}
use astra_storage.Coordinator.Repairer.Source.{
  nodes_with, last_primary, repair_source, select_repair_targets,
}
use astra_storage.Coordinator.Repairer.Reports.{IsExplained, execute_replica_copy-IsExplained}

-- A source node that says that n2 has the chunk.
abbrev repairer : PendingReplicaRepairer
repairer = record {
  post = λ address req. some (
    200,
    some (record {
      replicas =
          record { node_id = "n2"; state = replica_state_ready; error = ""; address = "" } ∷ [];
    }),
  );
  publish_repair = none;
  retry_backoff = 30;
  max_replicas_per_run = pos 32;
}

abbrev pending_on : String → ReplicaMetadata
pending_on id = record (ready_on id) { state = replica_state_pending }

abbrev short_chunk : ChunkMetadata
short_chunk = record (chunk "c0" (pos 0) (pos 0) (pos 4194304)) {
  replicas = ("n1", ready_on "n1") ∷ ("n2", pending_on "n2") ∷ ("n3", pending_on "n3") ∷ [];
}

abbrev short : MemoryState
short = record with_note {
  chunks = ("c0", short_chunk) ∷ [];
  nodes =
      ("n1", node "n1" (pos 100) (pos 0))
      ∷ ("n2", node "n2" (pos 100) (pos 0))
      ∷ ("n3", node "n3" (pos 100) (pos 0))
      ∷ [];
}

abbrev no_attempts : Map ℕ
no_attempts = []

abbrev after : MemoryState
after =
    (execute_replica_copy repairer short_chunk 9 (short, no_attempts, []) "n1"
      ("n2" ∷ "n3" ∷ [])).0.0

abbrev chunk_after : ChunkMetadata
chunk_after = record short_chunk {
  replicas =
      ("n1", ready_on "n1")
      ∷ ("n2", made_ready short_chunk 9 "n2")
      ∷ ("n3", record (pending_on "n3") { role = "secondary"; updated_at = 9 })
      ∷ [];
  replica_count = pos 3;
  updated_at = 9;
}

copied : lookup "c0" after.chunks ≡ some chunk_after
unfolding execute_replica_copy copy_from copy_selected copy_to get_node gather_targets
    replicate_chunk results_by_node mark_targets mark_skipped left_out select_capacity_aware_nodes
    select_placement_targets accepts filter goes_before sort_slice wrap64 is_blank trim_space
    trim_right_slash update_chunk_replicas find_chunk insert_all erase_all lookup insert erase
    defer_targets set_attempts clear_retry
copied = refl

-- The run over all chunks does the same: one replica is copied, the other is asked for and deferred.
run_copies : (repair_once repairer 9 (short, no_attempts, [])).repair.0 ≡ after
unfolding repair_once repair_files repair_chunks list_files apply_list_window values_where
    list_chunks_by_file repair_chunk select_repair_targets repair_source last_primary nodes_with
    select_due_targets take_due copy_or_publish repair_targets sort_slice lookup insert
run_copies = refl

ready_after : lookup "n2" chunk_after.replicas ≡ some (made_ready short_chunk 9 "n2")
unfolding lookup
ready_after = refl

execute_replica_copy-IsExplained_example : IsExplained repairer short_chunk 9 short "n1" "c0" "n2"
execute_replica_copy-IsExplained_example =
    execute_replica_copy-IsExplained repairer short_chunk 9 short no_attempts [] "n1"
      ("n2" ∷ "n3" ∷ []) "c0" "n2" refl copied ready_after refl
