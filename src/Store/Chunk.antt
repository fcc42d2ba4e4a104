-- ===== src/Store/Chunk.antt =====
-- internal/mds/store/memory_chunk.go: the chunk table and the replica sets of the chunks.
pub mod Laws
pub mod Batch
pub mod Tests
use astra_storage.Base.{
  ℕ, String, Bool, true, false, not, ◌&&◌, ◌||◌, ◌==◌, List, [], ◌∷◌, Option, none, some, is_some,
  or_keep, or_keep?, if◌then◌else◌,
}
use astra_storage.Base.Int.{ℤ, pos, eq_ℤ, ltb_ℤ, mul64}
use astra_storage.Base.Map.{
  Map, lookup, insert, erase, any_value, values_where, insert_all, erase_all, size,
}
use astra_storage.Base.Slice.{sort_slice, text_lt}
use astra_storage.Metadata.Object.{FileId, NodeId, FileMetadata, fixed_chunk_size_bytes}
use astra_storage.Metadata.Chunk.{ChunkMetadata}
use astra_storage.Store.State.{
  MemoryState, Outcome, Result, ok, err, not_found, already_exists, invalid_argument, ◌>>=◌, ◌>>◌,
  fail_if, commit,
}
use astra_storage.Store.Requests.{ChunkSelector, ChunkStatusPatch, ChunkReplicaPatch}
use astra_storage.Store.Select.{find_chunk, or_error}

abbrev pub with_chunk : MemoryState → String → ChunkMetadata → MemoryState
with_chunk s key c = record s { chunks = insert key c s.chunks }

-- The other chunk stands at the same place of the same file.
abbrev pub clashes : ChunkMetadata → ChunkMetadata → Bool
clashes c e =
    not (not (e.file_id == c.file_id) || e.id == c.id)
    && (eq_ℤ e.index c.index || eq_ℤ e.offset c.offset)

unfoldable pub check_chunk :
    Map FileMetadata → Map ChunkMetadata → Map ChunkMetadata → ChunkMetadata → Result (Unit {0})
check_chunk files chunks pending c = do
  fail_if (c.id == "" || c.file_id == "") invalid_argument
  fail_if (not (is_some (lookup c.file_id files))) not_found
  fail_if (ltb_ℤ c.size (pos 0)) invalid_argument
  fail_if (ltb_ℤ fixed_chunk_size_bytes c.size) invalid_argument
  fail_if (not (eq_ℤ c.offset (mul64 c.index fixed_chunk_size_bytes))) invalid_argument
  fail_if (any_value (clashes c) chunks) already_exists
  fail_if (any_value (clashes c) pending) already_exists

-- The loop over the batch, which collects it in `pending`.
unfoldable pub collect :
    Map FileMetadata
    → Map ChunkMetadata
    → Map ChunkMetadata
    → List ChunkMetadata
    → Result (Map ChunkMetadata)
collect files chunks pending [] = ok pending
collect files chunks pending (c ∷ cs) =
    let rest = collect files chunks (insert c.id c pending) cs in
    do check_chunk files chunks pending c; rest

unfoldable pub upsert_chunks : MemoryState → List ChunkMetadata → Outcome (Unit {0})
upsert_chunks s cs = commit s do
  pending ← collect s.files s.chunks [] cs
  ok (record s { chunks = insert_all pending s.chunks }, tt)

unfoldable pub get_chunk : MemoryState → ChunkSelector → Result ChunkMetadata
get_chunk s q = do entry ← or_error (find_chunk s.chunks q); ok entry.1

unfoldable pub list_chunks_by_file : MemoryState → FileId → List ChunkMetadata
list_chunks_by_file s file_id =
    sort_slice (λ a b. ltb_ℤ a.index b.index) (values_where (λ c. c.file_id == file_id) s.chunks)

abbrev pub before_in_file : ChunkMetadata → ChunkMetadata → Bool
before_in_file a b =
    if not (a.file_id == b.file_id) then text_lt a.file_id b.file_id else ltb_ℤ a.index b.index

unfoldable pub list_chunks_by_node : MemoryState → NodeId → List ChunkMetadata
list_chunks_by_node s node_id =
    sort_slice before_in_file (values_where (λ c. is_some (lookup node_id c.replicas)) s.chunks)

abbrev pub patch_status : ChunkStatusPatch → ChunkMetadata → ChunkMetadata
patch_status p c = record c {
  status = p.status;
  last_error_code = p.last_error_code;
  checksum = or_keep p.checksum c.checksum;
  verified_at = or_keep? p.verified_at c.verified_at;
  updated_at = p.updated_at;
}

unfoldable pub update_chunk_status : MemoryState → ChunkStatusPatch → Outcome (Unit {0})
update_chunk_status s p = commit s do
  entry ← or_error (find_chunk s.chunks p.selector)
  ok (with_chunk s entry.0 (patch_status p entry.1), tt)

abbrev pub patch_replicas : ChunkReplicaPatch → ChunkMetadata → ChunkMetadata
patch_replicas p c =
    let replicas = erase_all p.remove_node_ids (insert_all p.upserts c.replicas) in
    record c {
      replicas = replicas;
      replica_count = or_keep p.replica_count (pos (size replicas));
      replica_policy = or_keep p.replica_policy c.replica_policy;
      updated_at = p.updated_at;
    }

unfoldable pub update_chunk_replicas : MemoryState → ChunkReplicaPatch → Outcome (Unit {0})
update_chunk_replicas s p = commit s do
  entry ← or_error (find_chunk s.chunks p.selector)
  ok (with_chunk s entry.0 (patch_replicas p entry.1), tt)

abbrev pub without_replica : NodeId → ℕ → ChunkMetadata → ChunkMetadata
without_replica node_id updated_at c = record c {
  replicas = erase node_id c.replicas;
  replica_count = pos (size (erase node_id c.replicas));
  updated_at = updated_at;
}

unfoldable pub remove_chunk_replica : MemoryState → ChunkSelector → NodeId → ℕ → Outcome (Unit {0})
remove_chunk_replica s q node_id updated_at = commit s do
  entry ← or_error (find_chunk s.chunks q)
  fail_if (not (is_some (lookup node_id entry.1.replicas))) not_found
  ok (with_chunk s entry.0 (without_replica node_id updated_at entry.1), tt)

unfoldable pub delete_chunk : MemoryState → ChunkSelector → Outcome (Unit {0})
delete_chunk s q = commit s do
  entry ← or_error (find_chunk s.chunks q)
  ok (record s { chunks = erase entry.1.id s.chunks }, tt)
