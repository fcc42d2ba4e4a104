-- ===== src/Store/Upload/Tests.antt =====
-- Runs of the upload operations on concrete sessions.
use astra_storage.Base.{
  String, List, [], ◌∷◌, none, some, true, false, ◌≡◌, ◌≢◌, refl, ◌↔◌, ◌==◌, arith,
}
use astra_storage.Base.Int.{ℤ, pos, ◌≤ℤ◌, ◌<ℤ◌}
use astra_storage.Base.Map.{lookup}
use astra_storage.Base.Map.Laws.{none-ne-some}
use astra_storage.Metadata.Object.{upload_status_completed}
use astra_storage.Store.State.{ok, err, conflict, invalid_argument}
use astra_storage.Store.Requests.{UploadProgressPatch, UploadFailureRecord}
use astra_storage.Store.Upload.{
  update_upload_progress, record_upload_failure, complete_upload_session, upload_expected_size,
  with_session, progressed, with_failure,
}
use astra_storage.Store.Upload.Laws.{
  AllOrdered, WithinSize, update_upload_progress_iff, complete_upload_session_iff,
  record_upload_failure-reopens,
}
use astra_storage.Store.Upload.Run.{
  UploadCall, create, progress, failure, complete, delete, run_upload_calls, AllStartOrdered,
  run_upload_calls-AllOrdered,
}
use astra_storage.Store.Fixtures.{session, uploading, with_note}

abbrev to : ℤ → UploadProgressPatch
to offset = record {
  session_id = "u1";
  status = "uploading";
  confirmed_offset = offset;
  next_offset = offset;
  last_persisted_chunk_id = "c0";
  expected_checksum = none;
  verified_checksum = none;
  clear_expected_checksum = false;
  clear_verified_checksum = false;
  transport_attributes = none;
  updated_at = 7;
}

abbrev timeout : UploadFailureRecord
timeout = record {
  session_id = "u1";
  file_id = "f1";
  chunk_id = "c0";
  failed_offset = pos 0;
  expected_checksum = none;
  actual_checksum = none;
  error_code = "timeout";
  error_message = "";
  retryable = true;
  attempt = pos 1;
  max_attempts = pos 3;
  occurred_at = 8;
  next_retry_at = none;
}

-- The file has 5,000,000 bytes.
past_the_end :
    (update_upload_progress (uploading "uploading" (pos 0)) (to (pos 5000001))).1
    ≡ err invalid_argument
unfolding update_upload_progress lookup upload_expected_size
past_the_end = refl

too_early : (complete_upload_session (uploading "uploading" (pos 4194304)) "u1" 9).1 ≡ err conflict
unfolding complete_upload_session lookup upload_expected_size
too_early = refl

found :
    (status : String) (n : ℤ)
    → lookup "u1" (uploading status n).upload_sessions ≡ some (session status n)
unfolding lookup
found status n = refl

update_upload_progress_iff_example :
    (update_upload_progress (uploading "uploading" (pos 0)) (to (pos 4194304)) ≡ (
      with_session
          (uploading "uploading" (pos 0))
          "u1"
          (progressed (to (pos 4194304)) (session "uploading" (pos 0))),
      ok tt,
    ))
    ↔ ((("uploading" == upload_status_completed) ≡ false)
        × (pos 0 ≤ℤ pos 4194304)
        × (pos 4194304 ≤ℤ pos 4194304)
        × WithinSize
            (upload_expected_size (uploading "uploading" (pos 0)) (session "uploading" (pos 0)))
            (pos 4194304))
update_upload_progress_iff_example =
    update_upload_progress_iff (uploading "uploading" (pos 0)) (to (pos 4194304))
      (session "uploading" (pos 0)) (found "uploading" (pos 0))

complete_upload_session_iff_example :
    (complete_upload_session (uploading "uploading" (pos 5000000)) "u1" 9 ≡ (
      with_session
          (uploading "uploading" (pos 5000000))
          "u1"
          (record (session "uploading" (pos 5000000)) {
            status = upload_status_completed;
            completed_at = some 9;
            updated_at = 9;
          }),
      ok tt,
    ))
    ↔ (pos 0
          <ℤ upload_expected_size
              (uploading "uploading" (pos 5000000))
              (session "uploading" (pos 5000000))
        → pos 5000000
          ≡ upload_expected_size
              (uploading "uploading" (pos 5000000))
              (session "uploading" (pos 5000000)))
complete_upload_session_iff_example =
    complete_upload_session_iff (uploading "uploading" (pos 5000000)) "u1" 9
      (session "uploading" (pos 5000000)) (found "uploading" (pos 5000000))

record_upload_failure-reopens_example :
    ((record_upload_failure (uploading "completed" (pos 5000000)) timeout).1 ≡ ok tt)
    × (lookup "u1"
          (record_upload_failure (uploading "completed" (pos 5000000)) timeout).0.upload_sessions
        ≡ some (with_failure timeout (session "completed" (pos 5000000))))
    × ((with_failure timeout (session "completed" (pos 5000000))).status ≢ upload_status_completed)
record_upload_failure-reopens_example =
    record_upload_failure-reopens (uploading "completed" (pos 5000000)) timeout
      (session "completed" (pos 5000000)) (found "completed" (pos 5000000))

AllOrdered-empty : AllOrdered []
unfolding lookup
AllOrdered-empty k u e = absurd (none-ne-some e)

abbrev calls : List UploadCall
calls =
    create (some (session "pending" (pos 0)))
    ∷ progress (to (pos 4194304))
    ∷ failure timeout
    ∷ complete "u1" 9
    ∷ progress (to (pos 5000000))
    ∷ complete "u1" 10
    ∷ delete "u1"
    ∷ []

calls-AllStartOrdered : AllStartOrdered calls
calls-AllStartOrdered =
    (record { nonneg = omega arith; behind = omega arith }, (tt, (tt, (tt, (tt, (tt, (tt, tt)))))))

run_upload_calls-AllOrdered_example : AllOrdered (run_upload_calls with_note calls).upload_sessions
run_upload_calls-AllOrdered_example =
    run_upload_calls-AllOrdered with_note calls AllOrdered-empty calls-AllStartOrdered
