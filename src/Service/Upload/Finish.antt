-- ===== src/Service/Upload/Finish.antt =====
-- internal/mds/service_upload.go: CompleteUpload and VerifyUpload.
use astra_storage.Base.{
  ℕ, Bool, true, false, not, ◌||◌, ◌==◌, Option, some, none, if◌then◌else◌, List,
}
use astra_storage.Base.Int.{ℤ}
use astra_storage.Metadata.Object.{
  FileId, FileMetadata, FileStatus, UploadSession, Checksum, file_status_verifying,
  file_status_available, upload_status_verifying,
}
use astra_storage.Metadata.Chunk.{
  ChunkMetadata, ChunkStatus, chunk_status_verifying, chunk_status_available,
}
use astra_storage.Store.State.{MemoryState, Result, ok, err, invalid_argument, conflict, fail_if}
use astra_storage.Store.Requests.{
  FilePatch, UploadProgressPatch, ChunkStatusPatch, file_by_id, chunk_by_id,
}
use astra_storage.Store.File.{get_file, update_file}
use astra_storage.Store.Chunk.{update_chunk_status, list_chunks_by_file}
use astra_storage.Store.Upload.{get_upload_session, update_upload_progress, complete_upload_session}
use astra_storage.Service.Body.{
  Body, ◌>>=◌, ◌>>◌, gives, reads, checks, refuse_if, calls, for_each, Answer, use_case, invalidate,
  file_model, request_time,
}
use astra_storage.Service.Upload.{
  CompleteUploadRequest, VerifyUploadRequest, bad_shape, checksum_ready, current_stored_size,
  expected_size_of, status_refused, ensure_file_ready_for_verification,
  ensure_file_ready_for_availability, patch_of,
}

abbrev pub validate_complete_upload_request : CompleteUploadRequest → Result (Unit {0})
validate_complete_upload_request req =
    fail_if (req.session_id == "" || bad_shape req.final_checksum) invalid_argument

-- A checksum is stored as the verified one if it is ready, and as the expected one if not.
abbrev pub if_ready : Bool → Option Checksum → Option Checksum
if_ready wanted none = none
if_ready true (some c) = if checksum_ready c then some c else none
if_ready false (some c) = if checksum_ready c then none else some c

-- The session's offsets stay.
abbrev pub verifying_progress :
    UploadSession → Option Checksum → Option Checksum → ℕ → UploadProgressPatch
verifying_progress session expected verified now = record {
  session_id = session.id;
  status = upload_status_verifying;
  confirmed_offset = session.confirmed_offset;
  next_offset = session.next_offset;
  last_persisted_chunk_id = session.last_persisted_chunk;
  expected_checksum = expected;
  verified_checksum = verified;
  clear_expected_checksum = false;
  clear_verified_checksum = false;
  transport_attributes = none;
  updated_at = now;
}

-- A chunk's own checksum is written again.
abbrev pub with_chunk_status : ChunkStatus → ℕ → ChunkMetadata → ChunkStatusPatch
with_chunk_status status now c = record {
  selector = chunk_by_id c.id;
  status = status;
  checksum = some c.checksum;
  last_error_code = "";
  verified_at = c.checksum.verified_at;
  updated_at = now;
}

unfoldable pub mark_chunks : ChunkStatus → ℕ → List ChunkMetadata → Body (Unit {0})
mark_chunks status now chunks =
    for_each chunks (λ c. calls update_chunk_status (with_chunk_status status now c))

abbrev pub sealed : FileId → FileStatus → ℤ → ℤ → Option Checksum → ℕ → FilePatch
sealed id status size stored_size checksum now = record (patch_of id now) {
  status = some status;
  size = some size;
  stored_size = some stored_size;
  checksum = checksum;
}

unfoldable pub complete_body : CompleteUploadRequest → ℕ → Body FileMetadata
complete_body req now = do
  session ← reads (λ s. get_upload_session s req.session_id)
  file ← reads (λ s. get_file s (file_by_id session.file_id))
  refuse_if (status_refused req.expected_statuses file.status) conflict
  stored_size ← reads (λ s. ok (current_stored_size s file.id))
  reads (λ s. ensure_file_ready_for_verification s file session stored_size)
  calls update_upload_progress (
      verifying_progress session (if_ready false req.final_checksum)
        (if_ready true req.final_checksum) (request_time now req.completed_at))
  chunks ← reads (λ s. ok (list_chunks_by_file s file.id))
  mark_chunks chunk_status_verifying (request_time now req.completed_at) chunks
  calls update_file (
      sealed file.id file_status_verifying (expected_size_of file session) stored_size
        (if_ready true req.final_checksum) (request_time now req.completed_at))
  reads (λ s. get_file s (file_by_id file.id))

unfoldable pub complete_upload : CompleteUploadRequest → ℕ → MemoryState → Answer FileMetadata
complete_upload req now =
    use_case (validate_complete_upload_request req) (complete_body req now)
      (λ completed. invalidate file_model completed.id)

abbrev pub is_unverified : Option Checksum → Bool
is_unverified none = false
is_unverified (some c) = not (checksum_ready c)

abbrev pub validate_verify_upload_request : VerifyUploadRequest → Result (Unit {0})
validate_verify_upload_request req =
    fail_if (req.session_id == "" || is_unverified req.verified_checksum) invalid_argument

-- The request's checksum if it is ready, and else the session's if that is.
unfoldable pub select_verified_file_checksum : Option Checksum → UploadSession → Option Checksum
select_verified_file_checksum requested session = elim (if_ready true requested) [
  | some c ↦ some c
  | none ↦ if_ready true session.verified_checksum
]

abbrev pub require_checksum : Option Checksum → Result Checksum
require_checksum none = err conflict
require_checksum (some c) = ok c

unfoldable pub record_verified : UploadSession → Option Checksum → ℕ → Body (Unit {0})
record_verified session none now = gives tt
record_verified session (some c) now =
    calls update_upload_progress (verifying_progress session none (some c) now)

unfoldable pub complete_session : UploadSession → ℕ → Body (Unit {0})
complete_session session now s = complete_upload_session s session.id now

abbrev pub file_verified : UploadSession → FileMetadata → ℤ → Checksum → ℕ → FilePatch
file_verified session file stored_size checksum now =
    record (sealed file.id file_status_available (expected_size_of file session) stored_size
      (some checksum) now) { completed_at = some now }

-- The writes, once the checks have passed.
unfoldable pub verify_writes :
    VerifyUploadRequest → UploadSession → FileMetadata → ℤ → Checksum → ℕ → Body FileMetadata
verify_writes req session file stored_size checksum now = do
  record_verified session req.verified_checksum now
  complete_session session now
  chunks ← reads (λ s. ok (list_chunks_by_file s file.id))
  mark_chunks chunk_status_available now chunks
  calls update_file (file_verified session file stored_size checksum now)
  reads (λ s. get_file s (file_by_id file.id))

unfoldable pub verify_found :
    VerifyUploadRequest → UploadSession → FileMetadata → ℕ → Body FileMetadata
verify_found req session file now = do
  refuse_if (status_refused req.expected_statuses file.status) conflict
  stored_size ← reads (λ s. ok (current_stored_size s file.id))
  reads (λ s. ensure_file_ready_for_availability s file session stored_size)
  checksum ← checks (require_checksum (select_verified_file_checksum req.verified_checksum session))
  verify_writes req session file stored_size checksum (request_time now req.verified_at)

unfoldable pub verify_body : VerifyUploadRequest → ℕ → Body FileMetadata
verify_body req now = do
  session ← reads (λ s. get_upload_session s req.session_id)
  file ← reads (λ s. get_file s (file_by_id session.file_id))
  verify_found req session file now

unfoldable pub verify_upload : VerifyUploadRequest → ℕ → MemoryState → Answer FileMetadata
verify_upload req now =
    use_case (validate_verify_upload_request req) (verify_body req now)
      (λ verified. invalidate file_model verified.id)
