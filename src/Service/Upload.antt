-- ===== src/Service/Upload.antt =====
-- internal/mds/service_upload.go: the requests of an upload, and the checks that its steps share.
pub mod Steps
pub mod Finish
pub mod Failure
pub mod Coverage
pub mod Marked
pub mod Verified
pub mod Exclusive
use astra_storage.Base.{
  ℕ, suc, String, Bool, true, false, not, ◌||◌, ◌&&◌, ◌==◌, Option, some, none, is_some, or_keep,
  if◌then◌else◌, List, [], ◌∷◌, ◌++◌,
}
use astra_storage.Base.Int.{ℤ, pos, ltb_ℤ, leb_ℤ, eq_ℤ, add64}
use astra_storage.Base.Map.{Map, insert}
use astra_storage.Metadata.Object.{
  FileId, FileMetadata, FileStatus, UploadSession, UploadSessionId, UploadStatus, ChunkId, NodeId,
  Checksum, ReplicaPolicy, upload_status_completed, upload_status_failed, upload_status_expired,
  fixed_chunk_size_bytes, minimum_readable_replica_count,
}
use astra_storage.Metadata.Chunk.{
  ChunkMetadata, ChunkStatus, chunk_status_corrupted, chunk_status_failed,
}
use astra_storage.Metadata.Replica.{ReplicaMetadata, ReplicaSet, replica_state_ready}
use astra_storage.Store.State.{
  MemoryState, Result, ok, err, invalid_argument, conflict, fail_if, ◌>>=◌, ◌>>◌,
}
use astra_storage.Store.Requests.{FilePatch, file_by_id}
use astra_storage.Store.File.{skips_list}
use astra_storage.Store.Chunk.{list_chunks_by_file}

pub record StartUploadRequest : Type 0 where
  pub session_id : UploadSessionId
  pub file_id : FileId
  pub upload_key : String
  pub expected_size : ℤ
  pub expected_checksum : Option Checksum
  pub client_metadata : Map String
  pub transport_attributes : Map String
  pub expires_at : Option ℕ
  pub created_at : ℕ

pub record CommitChunkRequest : Type 0 where
  pub session_id : UploadSessionId
  pub chunk_id : ChunkId
  pub index : ℤ
  pub offset : ℤ
  pub size : ℤ
  pub status : ChunkStatus
  pub checksum : Option Checksum
  pub replicas : ReplicaSet
  pub replica_policy : Option ReplicaPolicy
  pub committed_at : ℕ

pub record CompleteUploadRequest : Type 0 where
  pub session_id : UploadSessionId
  pub final_checksum : Option Checksum
  pub expected_statuses : List FileStatus
  pub completed_at : ℕ

pub record VerifyUploadRequest : Type 0 where
  pub session_id : UploadSessionId
  pub verified_checksum : Option Checksum
  pub expected_statuses : List FileStatus
  pub verified_at : ℕ

pub record FailUploadVerificationRequest : Type 0 where
  pub session_id : UploadSessionId
  pub chunk_id : ChunkId
  pub actual_checksum : Option Checksum
  pub expected_statuses : List FileStatus
  pub error_code : String
  pub error_message : String
  pub retryable : Bool
  pub attempt : ℤ
  pub max_attempts : ℤ
  pub failed_at : ℕ
  pub next_retry_at : Option ℕ

pub record RetryUploadRequest : Type 0 where
  pub session_id : UploadSessionId
  pub expected_statuses : List FileStatus
  pub retried_at : ℕ

unfoldable pub checksum_ready : Checksum → Bool
checksum_ready c = c.verified && is_some c.verified_at

abbrev pub bad_shape : Option Checksum → Bool
bad_shape none = false
bad_shape (some c) = c.verified && not (is_some c.verified_at)

unfoldable pub is_terminal_upload_status : UploadStatus → Bool
is_terminal_upload_status status =
    status == upload_status_completed
    || status == upload_status_failed
    || status == upload_status_expired

-- An empty list of expected statuses allows every status.
abbrev pub status_refused : List FileStatus → FileStatus → Bool
status_refused = skips_list

-- The loop over the chunks, from the greatest end so far.
unfoldable pub greatest_end : ℤ → List ChunkMetadata → ℤ
greatest_end best [] = best
greatest_end best (c ∷ cs) =
    let end = add64 c.offset c.size in greatest_end (if ltb_ℤ best end then end else best) cs

abbrev pub current_stored_size : MemoryState → FileId → ℤ
current_stored_size s file_id = greatest_end (pos 0) (list_chunks_by_file s file_id)

abbrev pub expected_size_of : FileMetadata → UploadSession → ℤ
expected_size_of file session =
    if ltb_ℤ (pos 0) session.expected_size then session.expected_size else file.size

abbrev pub is_unreadable : ChunkMetadata → Bool
is_unreadable c = c.status == chunk_status_corrupted || c.status == chunk_status_failed

abbrev pub has_more : List ChunkMetadata → Bool
has_more [] = false
has_more (c ∷ cs) = true

-- The loop over the chunks, which ends with the offset behind the last of them.
unfoldable pub check_coverage : ℤ → List ChunkMetadata → Result ℤ
check_coverage next [] = ok next
check_coverage next (c ∷ cs) =
    let rest = check_coverage (add64 next c.size) cs in
    do
      fail_if (not (eq_ℤ c.offset next)) conflict
      fail_if (has_more cs && not (eq_ℤ c.size fixed_chunk_size_bytes)) conflict
      fail_if (is_unreadable c) conflict
      rest

unfoldable pub ensure_file_ready_for_verification :
    MemoryState → FileMetadata → UploadSession → ℤ → Result (Unit {0})
ensure_file_ready_for_verification s file session stored_size = do
  fail_if (not (has_more (list_chunks_by_file s file.id))) conflict
  fail_if (not (eq_ℤ stored_size (expected_size_of file session))) conflict
  covered ← check_coverage (pos 0) (list_chunks_by_file s file.id)
  fail_if (not (eq_ℤ covered (expected_size_of file session))) conflict

unfoldable pub healthy_replica_count : ReplicaSet → ℕ
healthy_replica_count [] = 0
healthy_replica_count ((k, r) ∷ m) =
    let rest = healthy_replica_count m in if r.state == replica_state_ready then suc rest else rest

abbrev pub required_replicas : FileMetadata → ℤ
required_replicas file =
    if ltb_ℤ file.replica_policy.minimum_replica_count (pos 1)
    then minimum_readable_replica_count
    else file.replica_policy.minimum_replica_count

unfoldable pub check_readable : ℤ → List ChunkMetadata → Result (Unit {0})
check_readable required [] = ok tt
check_readable required (c ∷ cs) =
    let rest = check_readable required cs in
    do
      fail_if (not (checksum_ready c.checksum)) conflict
      fail_if (ltb_ℤ (pos (healthy_replica_count c.replicas)) required) conflict
      rest

unfoldable pub ensure_file_ready_for_availability :
    MemoryState → FileMetadata → UploadSession → ℤ → Result (Unit {0})
ensure_file_ready_for_availability s file session stored_size = do
  ensure_file_ready_for_verification s file session stored_size
  check_readable (required_replicas file) (list_chunks_by_file s file.id)

-- A patch of a file's record that changes the time only.
abbrev pub patch_of : FileId → ℕ → FilePatch
patch_of id now = record {
  selector = file_by_id id;
  parent_inode_id = none;
  path = none;
  name = none;
  size = none;
  stored_size = none;
  chunk_size = none;
  version = none;
  status = none;
  primary_node_id = none;
  secondary_node_ids = none;
  latest_upload_session_id = none;
  checksum = none;
  replica_policy = none;
  user_metadata = none;
  tags = none;
  completed_at = none;
  updated_at = now;
}
