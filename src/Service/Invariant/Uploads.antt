-- ===== src/Service/Invariant/Uploads.antt =====
-- The uploads of internal/mds/service_upload.go keep every table's invariant.
use astra_storage.Base.{ℕ, Option, none, some, arith, List}
use astra_storage.Base.Int.{ℤ}
use astra_storage.Metadata.Object.{FileMetadata, UploadSession, Checksum}
use astra_storage.Metadata.Chunk.{ChunkMetadata, ChunkStatus}
use astra_storage.Store.Upload.Laws.{IsOrdered}
use astra_storage.Store.Upload.{create_upload_session}
use astra_storage.Service.Body.{calls}
use astra_storage.Service.Body.Keeps.{Keeps, keeps_rules, Keeps-gives}
use astra_storage.Service.Invariant.{IsWell}
use astra_storage.Service.Invariant.Calls.{
  call_rules, create_upload_session-Keeps, update_upload_progress-Keeps,
}
use astra_storage.Service.Upload.{
  StartUploadRequest, CommitChunkRequest, CompleteUploadRequest, VerifyUploadRequest,
  FailUploadVerificationRequest, RetryUploadRequest,
}
use astra_storage.Service.Upload.Steps.{start_body, new_session, commit_body}
use astra_storage.Service.Upload.Finish.{
  complete_body, verify_body, verify_found, verify_writes, mark_chunks, record_verified,
}
use astra_storage.Service.Upload.Failure.{fail_body, retry_body, failed_offset_of, keep_or_delete}

new_session-IsOrdered : (req : StartUploadRequest) (now : ℕ) → IsOrdered (new_session req now)
new_session-IsOrdered req now = record { nonneg = omega arith; behind = omega arith }

new_session-Keeps :
    (req : StartUploadRequest) (now : ℕ)
    → Keeps IsWell (calls create_upload_session (some (new_session req now)))
new_session-Keeps req now =
    create_upload_session-Keeps (new_session req now) (new_session-IsOrdered req now)

pub start_body-Keeps : (req : StartUploadRequest) (now : ℕ) → Keeps IsWell (start_body req now)
unfolding start_body
start_body-Keeps req now = search (keeps_rules, call_rules, new_session-Keeps) depth 24

pub commit_body-Keeps : (req : CommitChunkRequest) (now : ℕ) → Keeps IsWell (commit_body req now)
unfolding commit_body
commit_body-Keeps req now = search (keeps_rules, call_rules) depth 24

mark_chunks-Keeps :
    (status : ChunkStatus) (now : ℕ) (cs : List ChunkMetadata)
    → Keeps IsWell (mark_chunks status now cs)
unfolding mark_chunks
mark_chunks-Keeps status now cs = search (keeps_rules, call_rules) depth 24

pub complete_body-Keeps :
    (req : CompleteUploadRequest) (now : ℕ) → Keeps IsWell (complete_body req now)
unfolding complete_body
complete_body-Keeps req now = search (keeps_rules, call_rules, mark_chunks-Keeps) depth 24

record_verified-Keeps :
    (u : UploadSession) (c : Option Checksum) (now : ℕ) → Keeps IsWell (record_verified u c now)
unfolding record_verified
record_verified-Keeps u none now = Keeps-gives tt
record_verified-Keeps u (some c) now = update_upload_progress-Keeps _

pub verify_body-Keeps : (req : VerifyUploadRequest) (now : ℕ) → Keeps IsWell (verify_body req now)
unfolding verify_body verify_found verify_writes
verify_body-Keeps req now =
    search (keeps_rules, call_rules, mark_chunks-Keeps, record_verified-Keeps) depth 24

failed_offset_of-Keeps :
    (req : FailUploadVerificationRequest) (file : FileMetadata)
    → Keeps IsWell (failed_offset_of req file)
unfolding failed_offset_of
failed_offset_of-Keeps req file = search keeps_rules

pub fail_body-Keeps :
    (req : FailUploadVerificationRequest) (now : ℕ) → Keeps IsWell (fail_body req now)
unfolding fail_body
fail_body-Keeps req now = search (keeps_rules, call_rules, failed_offset_of-Keeps) depth 24

keep_or_delete-Keeps :
    (restart : ℤ) (now : ℕ) (c : ChunkMetadata) → Keeps IsWell (keep_or_delete restart now c)
unfolding keep_or_delete
keep_or_delete-Keeps restart now c = search (keeps_rules, call_rules) depth 24

pub retry_body-Keeps : (req : RetryUploadRequest) (now : ℕ) → Keeps IsWell (retry_body req now)
unfolding retry_body
retry_body-Keeps req now = search (keeps_rules, call_rules, keep_or_delete-Keeps) depth 24
