-- ===== src/Store/Chunk/Tests.antt =====
-- Runs of the chunk operations on concrete chunks.
use astra_storage.Base.{[], ◌∷◌, ◌≡◌, refl}
use astra_storage.Base.Int.{pos, wrap64}
use astra_storage.Base.Map.{lookup, insert, any_value}
use astra_storage.Metadata.Chunk.{ChunkMetadata}
use astra_storage.Store.State.{ok, err, already_exists}
use astra_storage.Store.Chunk.{upsert_chunks, check_chunk, collect}
use astra_storage.Store.Chunk.Batch.{IsChunked, latest, or_else}
use astra_storage.Store.Chunk.Laws.{
  upsert, drop_replica, delete, run_chunk_calls, IsChunked-empty, run_chunk_calls-IsChunked,
  upsert_chunks-lookup,
}
use astra_storage.Store.Fixtures.{chunk, chunk_of, with_note}

abbrev first : ChunkMetadata
first = chunk "c0" (pos 0) (pos 0) (pos 4194304)

abbrev second : ChunkMetadata
second = chunk "c1" (pos 1) (pos 4194304) (pos 805696)

abbrev first_again : ChunkMetadata
first_again = chunk "c0" (pos 0) (pos 0) (pos 12)

abbrev impostor : ChunkMetadata
impostor = chunk "c9" (pos 1) (pos 4194304) (pos 12)

same_place_refused :
    upsert_chunks with_note (second ∷ impostor ∷ []) ≡ (with_note, err already_exists)
unfolding upsert_chunks collect check_chunk lookup insert any_value wrap64
same_place_refused = refl

run_chunk_calls-IsChunked_example :
    IsChunked
      (run_chunk_calls with_note (
        upsert (first ∷ second ∷ [])
        ∷ upsert (impostor ∷ [])
        ∷ drop_replica (chunk_of "c0") "n1" 9
        ∷ delete (chunk_of "c1")
        ∷ [])).chunks
run_chunk_calls-IsChunked_example =
    run_chunk_calls-IsChunked with_note
      (upsert (first ∷ second ∷ [])
        ∷ upsert (impostor ∷ [])
        ∷ drop_replica (chunk_of "c0") "n1" 9
        ∷ delete (chunk_of "c1")
        ∷ [])
      IsChunked-empty

accepted : (upsert_chunks with_note (first ∷ second ∷ first_again ∷ [])).1 ≡ ok tt
unfolding upsert_chunks collect check_chunk lookup insert any_value wrap64
accepted = refl

upsert_chunks-lookup_example :
    lookup "c0" (upsert_chunks with_note (first ∷ second ∷ first_again ∷ [])).0.chunks
    ≡ or_else (latest "c0" (first ∷ second ∷ first_again ∷ [])) (lookup "c0" with_note.chunks)
upsert_chunks-lookup_example =
    upsert_chunks-lookup with_note (first ∷ second ∷ first_again ∷ []) "c0" IsChunked-empty accepted
