-- ===== src/Service/Upload/Failure.antt =====
-- internal/mds/service_upload.go: FailUploadVerification and RetryUpload.
use astra_storage.Base.{
  ℕ, true, false, not, ◌||◌, ◌==◌, some, none, or_keep, if◌then◌else◌, List, [], ◌∷◌,
}
use astra_storage.Base.Int.{ℤ, pos, ltb_ℤ, leb_ℤ}
use astra_storage.Metadata.Object.{
  FileId, FileMetadata, FileStatus, UploadSession, ChunkId, Checksum, unset_checksum,
  file_status_failed, file_status_uploading, upload_status_active, upload_status_retrying,
}
use astra_storage.Metadata.Chunk.{ChunkMetadata, chunk_status_failed, chunk_status_persisted}
use astra_storage.Store.State.{MemoryState, Result, ok, invalid_argument, conflict, fail_if}
use astra_storage.Store.Requests.{
  FilePatch, UploadProgressPatch, UploadFailureRecord, ChunkStatusPatch, file_by_id, chunk_by_id,
}
use astra_storage.Store.File.{get_file, update_file}
use astra_storage.Store.Chunk.{get_chunk, update_chunk_status, delete_chunk, list_chunks_by_file}
use astra_storage.Store.Upload.{get_upload_session, update_upload_progress, record_upload_failure}
use astra_storage.Service.Body.{
  Body, ◌>>=◌, ◌>>◌, gives, reads, refuse_if, calls, for_each, Answer, use_case, invalidate,
  file_model, request_time,
}
use astra_storage.Service.Upload.{
  FailUploadVerificationRequest, RetryUploadRequest, bad_shape, current_stored_size, status_refused,
  patch_of,
}
use astra_storage.Service.Upload.Finish.{with_chunk_status}

abbrev pub validate_fail_upload_verification_request :
    FailUploadVerificationRequest → Result (Unit {0})
validate_fail_upload_verification_request req =
    fail_if
      (req.session_id == ""
        || req.error_code == ""
        || ltb_ℤ req.attempt (pos 0)
        || leb_ℤ req.max_attempts (pos 0)
        || bad_shape req.actual_checksum)
      invalid_argument

-- The offset of the chunk that failed, if the request names one.
unfoldable pub failed_offset_of : FailUploadVerificationRequest → FileMetadata → Body ℤ
failed_offset_of req file = if req.chunk_id == "" then gives (pos 0) else (do
  chunk ← reads (λ s. get_chunk s (chunk_by_id req.chunk_id))
  refuse_if (not (chunk.file_id == file.id)) conflict
  gives chunk.offset)

abbrev pub failure_record :
    FailUploadVerificationRequest → UploadSession → FileMetadata → ℤ → ℕ → UploadFailureRecord
failure_record req session file failed_offset now = record {
  session_id = session.id;
  file_id = file.id;
  chunk_id = req.chunk_id;
  failed_offset = failed_offset;
  expected_checksum = session.expected_checksum;
  actual_checksum = req.actual_checksum;
  error_code = req.error_code;
  error_message = req.error_message;
  retryable = req.retryable;
  attempt = req.attempt;
  max_attempts = req.max_attempts;
  occurred_at = now;
  next_retry_at = req.next_retry_at;
}

-- The failed chunk takes the request's checksum, the others keep their own.
abbrev pub checksum_found : FailUploadVerificationRequest → ChunkMetadata → Checksum
checksum_found req c =
    if c.id == req.chunk_id then or_keep req.actual_checksum c.checksum else c.checksum

abbrev pub chunk_failed : FailUploadVerificationRequest → ℕ → ChunkMetadata → ChunkStatusPatch
chunk_failed req now c = record {
  selector = chunk_by_id c.id;
  status = chunk_status_failed;
  checksum = some (checksum_found req c);
  last_error_code = req.error_code;
  verified_at = (checksum_found req c).verified_at;
  updated_at = now;
}

abbrev pub reopened : FileId → FileStatus → ℤ → ℕ → FilePatch
reopened id status stored_size now = record (patch_of id now) {
  status = some status;
  stored_size = some stored_size;
  checksum = some unset_checksum;
}

unfoldable pub fail_body : FailUploadVerificationRequest → ℕ → Body FileMetadata
fail_body req now = do
  session ← reads (λ s. get_upload_session s req.session_id)
  file ← reads (λ s. get_file s (file_by_id session.file_id))
  refuse_if (status_refused req.expected_statuses file.status) conflict
  chunks ← reads (λ s. ok (list_chunks_by_file s file.id))
  failed_offset ← failed_offset_of req file
  calls record_upload_failure
      (failure_record req session file failed_offset (request_time now req.failed_at))
  for_each chunks
      (λ c. calls update_chunk_status (chunk_failed req (request_time now req.failed_at) c))
  stored_size ← reads (λ s. ok (current_stored_size s file.id))
  calls update_file
      (reopened file.id file_status_failed stored_size (request_time now req.failed_at))
  reads (λ s. get_file s (file_by_id file.id))

unfoldable pub fail_upload_verification :
    FailUploadVerificationRequest → ℕ → MemoryState → Answer FileMetadata
fail_upload_verification req now =
    use_case (validate_fail_upload_verification_request req) (fail_body req now)
      (λ failed. invalidate file_model failed.id)

abbrev pub validate_retry_upload_request : RetryUploadRequest → Result (Unit {0})
validate_retry_upload_request req = fail_if (req.session_id == "") invalid_argument

-- One round of the loop over the chunks: those before the failed offset are kept.
unfoldable pub keep_or_delete : ℤ → ℕ → ChunkMetadata → Body (Unit {0})
keep_or_delete restart_offset now c =
    if ltb_ℤ c.offset restart_offset
    then calls update_chunk_status (with_chunk_status chunk_status_persisted now c)
    else calls delete_chunk (chunk_by_id c.id)

-- The id of the last chunk that the loop keeps.
unfoldable pub last_kept : ℤ → ChunkId → List ChunkMetadata → ChunkId
last_kept restart_offset last [] = last
last_kept restart_offset last (c ∷ cs) =
    last_kept restart_offset (if ltb_ℤ c.offset restart_offset then c.id else last) cs

abbrev pub restart_progress : UploadSession → ChunkId → ℕ → UploadProgressPatch
restart_progress session last now = record {
  session_id = session.id;
  status = upload_status_active;
  confirmed_offset = session.retry.last_failed_offset;
  next_offset = session.retry.last_failed_offset;
  last_persisted_chunk_id = last;
  expected_checksum = none;
  verified_checksum = none;
  clear_expected_checksum = false;
  clear_verified_checksum = true;
  transport_attributes = none;
  updated_at = now;
}

unfoldable pub retry_body : RetryUploadRequest → ℕ → Body FileMetadata
retry_body req now = do
  session ← reads (λ s. get_upload_session s req.session_id)
  file ← reads (λ s. get_file s (file_by_id session.file_id))
  refuse_if (status_refused req.expected_statuses file.status) conflict
  refuse_if (not (session.status == upload_status_retrying)) conflict
  chunks ← reads (λ s. ok (list_chunks_by_file s file.id))
  for_each chunks
      (keep_or_delete session.retry.last_failed_offset (request_time now req.retried_at))
  stored_size ← reads (λ s. ok (current_stored_size s file.id))
  calls update_upload_progress (
      restart_progress session (last_kept session.retry.last_failed_offset "" chunks)
        (request_time now req.retried_at))
  calls update_file
      (reopened file.id file_status_uploading stored_size (request_time now req.retried_at))
  reads (λ s. get_file s (file_by_id file.id))

unfoldable pub retry_upload : RetryUploadRequest → ℕ → MemoryState → Answer FileMetadata
retry_upload req now =
    use_case (validate_retry_upload_request req) (retry_body req now)
      (λ retried. invalidate file_model retried.id)
