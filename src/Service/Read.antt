-- ===== src/Service/Read.antt =====
-- internal/mds/service_read.go: the plan by which a client reads a file, chunk by chunk.
-- A plan is built from the repository; the read cache before it is in Cache.
pub mod Serves
use astra_storage.Base.{
  ℕ, String, Bool, true, false, not, ◌||◌, ◌==◌, if◌then◌else◌, List, [], ◌∷◌, map, length, ltb,
}
use astra_storage.Base.Int.{ℤ}
use astra_storage.Base.Slice.{sort_slice, text_lt}
use astra_storage.Metadata.Inode.{InodeId}
use astra_storage.Metadata.Object.{FileId, FileMetadata, FileStatus, ChunkId, NodeId, Checksum}
use astra_storage.Metadata.Chunk.{ChunkMetadata, ChunkStatus}
use astra_storage.Metadata.Replica.{
  ReplicaMetadata, ReplicaRole, ReplicaSet, replica_role_primary, replica_role_secondary,
  replica_role_witness, replica_state_ready, replica_state_writing,
}
use astra_storage.Store.State.{MemoryState, Result, ok, not_found, fail_if, ◌>>=◌, ◌>>◌}
use astra_storage.Store.Requests.{file_by_id}
use astra_storage.Store.File.{get_file}
use astra_storage.Store.Chunk.{list_chunks_by_file}
use astra_storage.Service.Upload.{has_more}

pub record DownloadChunkPlan : Type 0 where
  pub chunk_id : ChunkId
  pub index : ℤ
  pub offset : ℤ
  pub size : ℤ
  pub status : ChunkStatus
  pub preferred_node_id : NodeId
  pub candidate_node_ids : List NodeId
  pub checksum : Checksum
  pub replica_count : ℤ

pub record DownloadPlan : Type 0 where
  pub file_id : FileId
  pub inode_id : InodeId
  pub path : String
  pub size : ℤ
  pub stored_size : ℤ
  pub chunk_size : ℤ
  pub file_status : FileStatus
  pub chunk_count : ℕ
  pub chunks : List DownloadChunkPlan

pub record Candidate : Type 0 where
  pub node_id : NodeId
  pub role : ReplicaRole
  pub healthy : Bool

unfoldable pub replica_role_rank : ReplicaRole → ℕ
replica_role_rank role =
    if role == replica_role_primary
    then 0
    else if role == replica_role_secondary
    then 1
    else if role == replica_role_witness
    then 2
    else 3

abbrev pub candidate : NodeId → ReplicaMetadata → Candidate
candidate node_id r = record {
  node_id = node_id;
  role = r.role;
  healthy = r.state == replica_state_ready || r.state == replica_state_writing;
}

unfoldable pub candidates_of : ReplicaSet → List Candidate
candidates_of [] = []
candidates_of ((k, r) ∷ m) = candidate k r ∷ candidates_of m

abbrev pub same_health : Bool → Bool → Bool
same_health true b = b
same_health false b = not b

-- Healthy replicas first, then by role, then by node.
unfoldable pub comes_first : Candidate → Candidate → Bool
comes_first a b =
    if not (same_health a.healthy b.healthy)
    then a.healthy
    else if not (a.role == b.role)
    then ltb (replica_role_rank a.role) (replica_role_rank b.role)
    else text_lt a.node_id b.node_id

abbrev pub node_of : Candidate → NodeId
node_of c = c.node_id

unfoldable pub ordered_replica_candidates : ReplicaSet → List NodeId
ordered_replica_candidates m = map node_of (sort_slice comes_first (candidates_of m))

abbrev pub first_or_none : List NodeId → NodeId
first_or_none [] = ""
first_or_none (n ∷ ns) = n

abbrev pub chunk_plan : ChunkMetadata → DownloadChunkPlan
chunk_plan c = record {
  chunk_id = c.id;
  index = c.index;
  offset = c.offset;
  size = c.size;
  status = c.status;
  preferred_node_id = first_or_none (ordered_replica_candidates c.replicas);
  candidate_node_ids = ordered_replica_candidates c.replicas;
  checksum = c.checksum;
  replica_count = c.replica_count;
}

abbrev pub plan_for : FileMetadata → List ChunkMetadata → DownloadPlan
plan_for file chunks = record {
  file_id = file.id;
  inode_id = file.inode_id;
  path = file.path;
  size = file.size;
  stored_size = file.stored_size;
  chunk_size = file.chunk_size;
  file_status = file.status;
  chunk_count = length chunks;
  chunks = map chunk_plan chunks;
}

unfoldable pub build_download_plan : MemoryState → FileId → Result DownloadPlan
build_download_plan s file_id = do
  file ← get_file s (file_by_id file_id)
  fail_if (not (has_more (list_chunks_by_file s file_id))) not_found
  ok (plan_for file (list_chunks_by_file s file_id))
