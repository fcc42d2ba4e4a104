-- ===== src/Store/Upload.antt =====
-- internal/mds/store/memory_upload.go: the upload sessions.
pub mod Laws
pub mod Run
pub mod Tests
use astra_storage.Base.{
  ℕ, String, Bool, true, false, not, ◌&&◌, ◌||◌, ◌==◌, List, Option, none, some, is_some, or_keep,
  or_keep?, if◌then◌else◌, ltb,
}
use astra_storage.Base.Int.{ℤ, pos, eq_ℤ, ltb_ℤ}
use astra_storage.Base.Map.{Map, lookup, insert, erase, values_where}
use astra_storage.Base.Slice.{sort_slice}
use astra_storage.Metadata.Object.{
  FileId, FileMetadata, UploadSession, UploadSessionId, UploadStatus, Checksum, RetryState,
  fixed_chunk_size_bytes, upload_status_completed, upload_status_failed, upload_status_retrying,
}
use astra_storage.Store.State.{
  MemoryState, Outcome, Result, ok, err, not_found, already_exists, invalid_argument, conflict,
  ◌>>=◌, ◌>>◌, fail_if, commit,
}
use astra_storage.Store.Requests.{UploadProgressPatch, UploadFailureRecord}
use astra_storage.Store.Select.{or_error}
use astra_storage.Store.File.{default_chunk_size}

abbrev pub with_session : MemoryState → String → UploadSession → MemoryState
with_session s key u = record s { upload_sessions = insert key u s.upload_sessions }

abbrev pub sized : UploadSession → UploadSession
sized u = record u { chunk_size = default_chunk_size u.chunk_size }

unfoldable pub create_upload_session : MemoryState → Option UploadSession → Outcome UploadSession
create_upload_session s none = (s, err invalid_argument)
create_upload_session s (some u) = commit s do
  fail_if (u.id == "" || u.file_id == "") invalid_argument
  fail_if (is_some (lookup u.id s.upload_sessions)) already_exists
  fail_if (not (is_some (lookup u.file_id s.files))) not_found
  fail_if (not (eq_ℤ (default_chunk_size u.chunk_size) fixed_chunk_size_bytes)) invalid_argument
  ok (with_session s u.id (sized u), sized u)

unfoldable pub get_upload_session : MemoryState → UploadSessionId → Result UploadSession
get_upload_session s id = or_error (lookup id s.upload_sessions)

-- An empty status lists the sessions of every status.
abbrev pub is_session_of : FileId → UploadStatus → UploadSession → Bool
is_session_of file_id status u =
    u.file_id == file_id && not (not (status == "") && not (u.status == status))

unfoldable pub list_upload_sessions_by_file :
    MemoryState → FileId → UploadStatus → List UploadSession
list_upload_sessions_by_file s file_id status =
    sort_slice (λ a b. ltb a.created_at b.created_at)
      (values_where (is_session_of file_id status) s.upload_sessions)

-- The size that an upload must reach, or 0 if it is not known.
abbrev pub file_size : Option FileMetadata → ℤ
file_size none = pos 0
file_size (some f) = if ltb_ℤ (pos 0) f.size then f.size else pos 0

unfoldable pub upload_expected_size : MemoryState → UploadSession → ℤ
upload_expected_size s u =
    if ltb_ℤ (pos 0) u.expected_size then u.expected_size else file_size (lookup u.file_id s.files)

abbrev pub cleared : Bool → Option Checksum → Option Checksum
cleared true old = none
cleared false old = old

abbrev pub progressed : UploadProgressPatch → UploadSession → UploadSession
progressed p u = record u {
  status = p.status;
  confirmed_offset = p.confirmed_offset;
  next_offset = p.next_offset;
  last_persisted_chunk = p.last_persisted_chunk_id;
  expected_checksum =
      or_keep? p.expected_checksum (cleared p.clear_expected_checksum u.expected_checksum);
  verified_checksum =
      or_keep? p.verified_checksum (cleared p.clear_verified_checksum u.verified_checksum);
  transport_attributes = or_keep p.transport_attributes u.transport_attributes;
  updated_at = p.updated_at;
}

abbrev pub bad_offsets : UploadProgressPatch → Bool
bad_offsets p =
    ltb_ℤ p.confirmed_offset (pos 0)
    || ltb_ℤ p.next_offset (pos 0)
    || ltb_ℤ p.next_offset p.confirmed_offset

abbrev pub past_end : ℤ → ℤ → Bool
past_end expected offset = ltb_ℤ (pos 0) expected && ltb_ℤ expected offset

unfoldable pub update_upload_progress : MemoryState → UploadProgressPatch → Outcome (Unit {0})
update_upload_progress s p = commit s do
  u ← or_error (lookup p.session_id s.upload_sessions)
  fail_if (u.status == upload_status_completed) conflict
  fail_if (bad_offsets p) invalid_argument
  fail_if (past_end (upload_expected_size s u) p.next_offset) invalid_argument
  ok (with_session s p.session_id (progressed p u), tt)

abbrev pub failure_status : UploadFailureRecord → UploadStatus
failure_status r =
    if r.retryable && ltb_ℤ r.attempt r.max_attempts
    then upload_status_retrying
    else upload_status_failed

abbrev pub failed_retry : UploadFailureRecord → RetryState → RetryState
failed_retry r old = record {
  attempt = r.attempt;
  max_attempts = r.max_attempts;
  retryable = r.retryable;
  last_error_code = r.error_code;
  last_error_message = r.error_message;
  last_failed_offset = r.failed_offset;
  last_failed_chunk = r.chunk_id;
  last_failure_at = some r.occurred_at;
  next_retry_at = or_keep? r.next_retry_at old.next_retry_at;
}

abbrev pub with_failure : UploadFailureRecord → UploadSession → UploadSession
with_failure r u = record u {
  status = failure_status r;
  retry = failed_retry r u.retry;
  updated_at = r.occurred_at;
}

unfoldable pub record_upload_failure : MemoryState → UploadFailureRecord → Outcome (Unit {0})
record_upload_failure s r = commit s do
  u ← or_error (lookup r.session_id s.upload_sessions)
  ok (with_session s r.session_id (with_failure r u), tt)

abbrev pub completed : ℕ → UploadSession → UploadSession
completed at u = record u {
  status = upload_status_completed;
  completed_at = some at;
  updated_at = at;
}

unfoldable pub complete_upload_session : MemoryState → UploadSessionId → ℕ → Outcome (Unit {0})
complete_upload_session s id at = commit s do
  u ← or_error (lookup id s.upload_sessions)
  fail_if
      (ltb_ℤ (pos 0) (upload_expected_size s u)
        && not (eq_ℤ u.confirmed_offset (upload_expected_size s u)))
      conflict
  ok (with_session s id (completed at u), tt)

unfoldable pub delete_upload_session : MemoryState → UploadSessionId → Outcome (Unit {0})
delete_upload_session s id = commit s do
  fail_if (not (is_some (lookup id s.upload_sessions))) not_found
  ok (record s { upload_sessions = erase id s.upload_sessions }, tt)
