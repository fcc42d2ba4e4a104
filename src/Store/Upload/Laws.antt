-- ===== src/Store/Upload/Laws.antt =====
-- The upload sessions of internal/mds/store/memory_upload.go: offsets, completion and failures.
use astra_storage.Base.{ℕ, String, ◌≡◌, ◌≢◌, ◌↔◌, false, ◌==◌, some, arith, eq_iff}
use astra_storage.Base.Int.{ℤ, pos, ◌≤ℤ◌, ◌<ℤ◌, eq_ℤ_iff}
use astra_storage.Base.Map.{Map, lookup}
use astra_storage.Base.Map.Laws.{lookup-insert_self}
use astra_storage.Metadata.Object.{
  UploadSession, UploadSessionId, upload_status_completed, upload_status_retrying,
  upload_status_failed,
}
use astra_storage.Store.State.{MemoryState, ok}
use astra_storage.Store.Requests.{UploadProgressPatch, UploadFailureRecord}
use astra_storage.Store.Upload.{
  update_upload_progress, record_upload_failure, complete_upload_session, upload_expected_size,
  with_session, progressed, with_failure,
}

-- The confirmed part of the file is not negative, and ends before the next write.
pub record IsOrdered (u : UploadSession) : Type 0 where
  pub nonneg : pos 0 ≤ℤ u.confirmed_offset
  pub behind : u.confirmed_offset ≤ℤ u.next_offset

abbrev pub AllOrdered : Map UploadSession → Type 0
AllOrdered m = (k : String) (u : UploadSession) → lookup k m ≡ some u → IsOrdered u

-- Where the size is known, the offset does not pass it.
abbrev pub WithinSize : ℤ → ℤ → Type 0
WithinSize expected offset = pos 0 <ℤ expected → offset ≤ℤ expected

-- Progress of a stored session is recorded exactly where the session is not completed, the confirmed
-- offset is not negative and at most the next one, and the next offset is within the expected size
-- where that is known.
pub update_upload_progress_iff :
    (s : MemoryState) (p : UploadProgressPatch) (u : UploadSession)
    → lookup p.session_id s.upload_sessions ≡ some u
    → (update_upload_progress s p ≡ (with_session s p.session_id (progressed p u), ok tt)) ↔ (
        ((u.status == upload_status_completed) ≡ false)
        × (pos 0 ≤ℤ p.confirmed_offset)
        × (p.confirmed_offset ≤ℤ p.next_offset)
        × WithinSize (upload_expected_size s u) p.next_offset)
unfolding update_upload_progress
update_upload_progress_iff s p u e =
    (λ h. (ground arith, ground arith, ground arith, λ q. ground arith), λ h. ground arith)

-- A stored session is completed exactly where its expected size is unknown or its confirmed offset is
-- that size; completing it sets its status and the time, and changes nothing else.
pub complete_upload_session_iff :
    (s : MemoryState) (id : UploadSessionId) (at : ℕ) (u : UploadSession)
    → lookup id s.upload_sessions ≡ some u
    → (complete_upload_session s id at ≡ (
      with_session s id
          (record u { status = upload_status_completed; completed_at = some at; updated_at = at }),
      ok tt,
    ))
      ↔ (pos 0 <ℤ upload_expected_size s u → u.confirmed_offset ≡ upload_expected_size s u)
unfolding complete_upload_session
complete_upload_session_iff s id at u e = (
  (λ h q. ground (arith, eq_ℤ_iff u.confirmed_offset (upload_expected_size s u))),
  (λ h. ground (arith, eq_ℤ_iff u.confirmed_offset (upload_expected_size s u))),
)

-- A failure record succeeds for every stored session and leaves it retrying or failed, so not
-- completed, whatever its status was.
pub record_upload_failure-reopens :
    (s : MemoryState) (r : UploadFailureRecord) (u : UploadSession)
    → lookup r.session_id s.upload_sessions ≡ some u
    → (record_upload_failure s r).1 ≡ ok tt
      × (lookup r.session_id (record_upload_failure s r).0.upload_sessions
          ≡ some (with_failure r u))
      × ((with_failure r u).status ≢ upload_status_completed)
unfolding record_upload_failure
record_upload_failure-reopens s r u e = (
  rw e,
  rw e (lookup-insert_self r.session_id (with_failure r u) s.upload_sessions),
  (λ h. ground (
    arith,
    eq_iff upload_status_retrying upload_status_completed,
    eq_iff upload_status_failed upload_status_completed,
  )),
)
