-- ===== src/Coordinator/Tests.antt =====
-- A placement and its withdrawal on a concrete chunk.
use astra_storage.Base.{[], ◌∷◌, none, some, ◌≡◌, refl}
use astra_storage.Base.Int.{pos, wrap64}
use astra_storage.Base.Map.{lookup, insert, insert_all, erase_all, any_value}
use astra_storage.Base.Text.{is_blank}
use astra_storage.Metadata.Chunk.{ChunkMetadata}
use astra_storage.Metadata.Replica.{replica_role_secondary}
use astra_storage.Store.State.{MemoryState, ok}
use astra_storage.Store.Select.{find_chunk}
use astra_storage.Store.Plan.{create_replica_plan, is_terminal}
use astra_storage.Store.Chunk.{update_chunk_replicas}
use astra_storage.Store.Tx.{in_tx, commit_tx}
use astra_storage.Store.Fixtures.{chunk, plan, with_note}
use astra_storage.Coordinator.{
  format_int, unix_nano, materialize_pending_replica, rollback_pending_replica,
}
use astra_storage.Coordinator.Place.{Restores, rollback_pending_replica-Restores}

abbrev first : ChunkMetadata
first = chunk "c0" (pos 0) (pos 0) (pos 4194304)

abbrev one_chunk : MemoryState
one_chunk = record with_note { chunks = ("c0", first) ∷ [] }

stamp : format_int (unix_nano 62135596812345678901) ≡ "12345678901"
unfolding format_int unix_nano wrap64
stamp = refl

stored : lookup "c0" one_chunk.chunks ≡ some first
unfolding lookup
stored = refl

free : lookup "n2" first.replicas ≡ none
unfolding lookup
free = refl

placed :
    (materialize_pending_replica one_chunk (plan "p1" "n2") first replica_role_secondary 9).1
    ≡ ok tt
unfolding materialize_pending_replica in_tx commit_tx create_replica_plan is_blank lookup any_value
    is_terminal insert update_chunk_replicas find_chunk insert_all erase_all
placed = refl

rollback_pending_replica-Restores_example :
    ((rollback_pending_replica
        (materialize_pending_replica one_chunk (plan "p1" "n2") first replica_role_secondary 9).0
        "p1"
        first
        "n2"
        9).1
      ≡ ok tt)
    × Restores one_chunk
        (rollback_pending_replica
          (materialize_pending_replica one_chunk (plan "p1" "n2") first replica_role_secondary 9).0
          "p1"
          first
          "n2"
          9).0
        first
rollback_pending_replica-Restores_example =
    rollback_pending_replica-Restores one_chunk (plan "p1" "n2") first replica_role_secondary 9 refl
      stored free placed
