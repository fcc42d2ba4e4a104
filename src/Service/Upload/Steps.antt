-- ===== src/Service/Upload/Steps.antt =====
-- internal/mds/service_upload.go: StartUpload and CommitChunk.
use astra_storage.Base.{
  ℕ, String, Bool, true, false, not, ◌||◌, ◌&&◌, ◌==◌, some, none, or_keep, if◌then◌else◌, List, [],
  ◌∷◌,
}
use astra_storage.Base.Int.{ℤ, pos, ltb_ℤ, add64}
use astra_storage.Base.Map.{size}
use astra_storage.Base.Text.{◌++◌}
use astra_storage.Metadata.Object.{
  FileId, FileMetadata, NodeId, UploadSession, ChunkId, file_status_uploading, file_status_deleting,
  file_status_deleted, upload_status_pending, upload_status_active, upload_status_completed,
  fixed_chunk_size_bytes, unset_checksum, new_retry_state,
}
use astra_storage.Metadata.Chunk.{ChunkMetadata, chunk_status_persisted}
use astra_storage.Metadata.Replica.{ReplicaMetadata, ReplicaSet}
use astra_storage.Store.State
use astra_storage.Store.State.{MemoryState, Result, ok, err, invalid_argument, conflict, fail_if}
use astra_storage.Store.Requests.{FilePatch, UploadProgressPatch, file_by_id, chunk_by_id}
use astra_storage.Store.File.{get_file, update_file}
use astra_storage.Store.Chunk.{upsert_chunks, get_chunk}
use astra_storage.Store.Upload.{
  create_upload_session, get_upload_session, list_upload_sessions_by_file, update_upload_progress,
}
use astra_storage.Service.Body.{
  Body, ◌>>=◌, ◌>>◌, gives, reads, checks, refuse_if, calls, Answer, use_case, invalidate,
  file_model, request_time,
}
use astra_storage.Service.Upload.{
  StartUploadRequest, CommitChunkRequest, bad_shape, is_terminal_upload_status, current_stored_size,
  patch_of,
}

abbrev pub validate_start_upload_request : StartUploadRequest → Result (Unit {0})
validate_start_upload_request req =
    fail_if (req.session_id == "" || req.file_id == "" || ltb_ℤ req.expected_size (pos 0))
      invalid_argument

-- The loop ends at the first session that is not over.
unfoldable pub all_terminal : List UploadSession → Bool
all_terminal [] = true
all_terminal (u ∷ us) = if is_terminal_upload_status u.status then all_terminal us else false

abbrev pub ensure_no_active_upload_session : FileId → Body (Unit {0})
ensure_no_active_upload_session file_id =
    reads (λ s. fail_if (not (all_terminal (list_upload_sessions_by_file s file_id ""))) conflict)

abbrev pub new_session : StartUploadRequest → ℕ → UploadSession
new_session req now = record {
  id = req.session_id;
  file_id = req.file_id;
  upload_key = req.upload_key;
  status = upload_status_pending;
  expected_size = req.expected_size;
  chunk_size = fixed_chunk_size_bytes;
  confirmed_offset = pos 0;
  next_offset = pos 0;
  last_persisted_chunk = "";
  expected_checksum = req.expected_checksum;
  verified_checksum = none;
  retry = new_retry_state;
  created_at = now;
  updated_at = now;
  expires_at = req.expires_at;
  completed_at = none;
  client_metadata = req.client_metadata;
  transport_attributes = req.transport_attributes;
}

abbrev pub file_started : FileId → StartUploadRequest → ℕ → FilePatch
file_started file_id req now = record (patch_of file_id now) {
  status = some file_status_uploading;
  size = some req.expected_size;
  latest_upload_session_id = some req.session_id;
}

unfoldable pub start_body : StartUploadRequest → ℕ → Body UploadSession
start_body req now = do
  file ← reads (λ s. get_file s (file_by_id req.file_id))
  refuse_if (file.status == file_status_deleting || file.status == file_status_deleted) conflict
  ensure_no_active_upload_session file.id
  session ← calls create_upload_session (some (new_session req (request_time now req.created_at)))
  calls update_file (file_started file.id req (request_time now req.created_at))
  gives session

unfoldable pub start_upload : StartUploadRequest → ℕ → MemoryState → Answer UploadSession
start_upload req now =
    use_case (validate_start_upload_request req) (start_body req now)
      (λ created. invalidate file_model created.file_id)

abbrev pub validate_commit_chunk_request : CommitChunkRequest → Result (Unit {0})
validate_commit_chunk_request req =
    fail_if
      (req.session_id == ""
        || req.chunk_id == ""
        || ltb_ℤ req.index (pos 0)
        || ltb_ℤ req.offset (pos 0)
        || ltb_ℤ req.size (pos 0)
        || bad_shape req.checksum)
      invalid_argument

-- `if x == "" { x = y }`
abbrev pub or_default : String → String → String
or_default x y = if x == "" then y else x

abbrev pub normalized : FileId → ChunkId → NodeId → ReplicaMetadata → ReplicaMetadata
normalized file_id chunk_id node_id r = record r {
  node_id = or_default r.node_id node_id;
  file_id = or_default r.file_id file_id;
  chunk_id = or_default r.chunk_id chunk_id;
  id = or_default r.id (chunk_id ++ "@" ++ node_id);
}

-- A replica that names another node, file or chunk.
abbrev pub is_misplaced : FileId → ChunkId → NodeId → ReplicaMetadata → Bool
is_misplaced file_id chunk_id node_id r =
    node_id == ""
    || not (or_default r.node_id node_id == node_id)
    || not (or_default r.file_id file_id == file_id)
    || not (or_default r.chunk_id chunk_id == chunk_id)

unfoldable pub normalize_chunk_replicas : ReplicaSet → FileId → ChunkId → Result ReplicaSet
normalize_chunk_replicas [] file_id chunk_id = ok []
normalize_chunk_replicas ((k, r) ∷ m) file_id chunk_id =
    let rest = normalize_chunk_replicas m file_id chunk_id in
    State.◌>>◌ (fail_if (is_misplaced file_id chunk_id k r) invalid_argument)
      (State.◌>>=◌ rest (λ others. ok ((k, normalized file_id chunk_id k r) ∷ others)))

abbrev pub committed_chunk :
    CommitChunkRequest → UploadSession → FileMetadata → ReplicaSet → ℕ → ChunkMetadata
committed_chunk req session file replicas now = record {
  id = req.chunk_id;
  file_id = session.file_id;
  index = req.index;
  offset = req.offset;
  size = req.size;
  status = or_default req.status chunk_status_persisted;
  version = pos 0;
  checksum = or_keep req.checksum unset_checksum;
  replica_policy = or_keep req.replica_policy file.replica_policy;
  replica_count = pos (size replicas);
  replicas = replicas;
  created_at = now;
  updated_at = now;
  verified_at = none;
  last_error_code = "";
}

abbrev pub chunk_end : CommitChunkRequest → ℤ
chunk_end req = add64 req.offset req.size

abbrev pub commit_progress : CommitChunkRequest → UploadSession → ℕ → UploadProgressPatch
commit_progress req session now = record {
  session_id = session.id;
  status = upload_status_active;
  confirmed_offset = chunk_end req;
  next_offset = chunk_end req;
  last_persisted_chunk_id = req.chunk_id;
  expected_checksum = none;
  verified_checksum = none;
  clear_expected_checksum = false;
  clear_verified_checksum = false;
  transport_attributes = none;
  updated_at = now;
}

abbrev pub is_stale : FileMetadata → UploadSession → Bool
is_stale file session =
    not (file.latest_upload_session_id == "") && not (file.latest_upload_session_id == session.id)

unfoldable pub commit_body : CommitChunkRequest → ℕ → Body ChunkMetadata
commit_body req now = do
  session ← reads (λ s. get_upload_session s req.session_id)
  refuse_if (session.status == upload_status_completed) conflict
  file ← reads (λ s. get_file s (file_by_id session.file_id))
  refuse_if (is_stale file session) conflict
  replicas ← checks (normalize_chunk_replicas req.replicas file.id req.chunk_id)
  calls upsert_chunks
      (committed_chunk req session file replicas (request_time now req.committed_at) ∷ [])
  calls update_upload_progress (commit_progress req session (request_time now req.committed_at))
  stored_size ← reads (λ s. ok (current_stored_size s session.file_id))
  calls update_file (record (patch_of file.id (request_time now req.committed_at)) {
    status = some file_status_uploading;
    stored_size = some stored_size;
  })
  reads (λ s. get_chunk s (chunk_by_id req.chunk_id))

unfoldable pub commit_chunk : CommitChunkRequest → ℕ → MemoryState → Answer ChunkMetadata
commit_chunk req now =
    use_case (validate_commit_chunk_request req) (commit_body req now)
      (λ committed. invalidate file_model committed.file_id)
