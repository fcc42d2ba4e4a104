-- ===== src/Service/Tests/Uploads.antt =====
-- Witnesses and tests of the use cases: an upload from its start to its verification.
use astra_storage.Base.{String, inl, inr, [], ◌∷◌, some, ◌≡◌, refl, arith, ◌*◌, ◌^◌, ◌<◌, length}
use astra_storage.Base.Int.{pos, wrap64, ◌≤ℤ◌, ◌<ℤ◌}
use astra_storage.Base.Map.{lookup, insert, insert_all, find_value, any_value, values_where}
use astra_storage.Base.Slice.{sort_slice}
use astra_storage.Base.Text.{is_blank, trim_space}
use astra_storage.Metadata.Object.{
  FileMetadata, UploadSession, file_status_available, upload_status_verifying,
}
use astra_storage.Store.State.{MemoryState, err, conflict, Result, ok}
use astra_storage.Store.Requests.{file_by_id}
use astra_storage.Store.Fixtures.{session, note_file, uploading}
use astra_storage.Store.Select.{find_inode, find_file, find_chunk, name_taken}
use astra_storage.Store.Inode.{create_inode, check_parent, get_inode}
use astra_storage.Store.Inode.Tests.{HasNoChild-of_test}
use astra_storage.Store.File.{get_file, update_file, create_file}
use astra_storage.Store.Chunk.{
  check_chunk, collect, upsert_chunks, list_chunks_by_file, update_chunk_status,
}
use astra_storage.Store.Chunk.Batch.{IsChunked}
use astra_storage.Store.Chunk.Laws.{upsert_chunks-IsChunked, IsChunked-empty}
use astra_storage.Store.Upload.{
  get_upload_session, list_upload_sessions_by_file, upload_expected_size, update_upload_progress,
  complete_upload_session,
}
use astra_storage.Store.Node.{upsert_node, get_node}
use astra_storage.Store.Tx.{in_tx, commit_tx}
use astra_storage.Service.Body.{
  ◌>>=◌, gives, reads, checks, refuse_if, calls, for_each, transact, use_case,
}
use astra_storage.Service.Create.{
  parent_directory, directory_body, create_directory, file_body, create_file_with_inode,
}
use astra_storage.Service.Nodes.{register_body, register_node}
use astra_storage.Service.Upload.{
  CommitChunkRequest, checksum_ready, is_terminal_upload_status, greatest_end, check_coverage,
  ensure_file_ready_for_verification, healthy_replica_count, check_readable,
  ensure_file_ready_for_availability, expected_size_of, required_replicas,
}
use astra_storage.Service.Upload.Coverage.{HoldsByte}
use astra_storage.Service.Upload.Verified.{verify_upload_covers}
use astra_storage.Metadata.Chunk.{ChunkMetadata}
use astra_storage.Service.Upload.Steps.{all_terminal, committed_chunk, start_body, start_upload}
use astra_storage.Service.Upload.Finish.{
  mark_chunks, select_verified_file_checksum, record_verified, complete_session, verify_writes,
  verify_found, verify_body, verify_upload,
}
use astra_storage.Service.Tests.{
  node_one, copies, first_chunk, last_chunk, seeded, seeded-IsWell, uploads, verification, start,
  docs_request,
}
use astra_storage.Service.Invariant.{IsWell}
use astra_storage.Service.Invariant.Run.{
  ServiceCall, run_service_calls, AllNew, run_service_calls-IsWell, serve, serve-refused,
}

uploads-AllNew : AllNew seeded uploads
unfolding run_service_calls serve register_node register_body use_case transact ◌>>=◌ gives reads
    checks refuse_if calls upsert_node get_node create_directory directory_body parent_directory
    create_inode check_parent get_inode find_inode lookup insert any_value name_taken in_tx
    commit_tx is_blank trim_space create_file_with_inode file_body create_file
uploads-AllNew = (
  tt,
  (
    inr (
        inr (
          HasNoChild-of_test
            (run_service_calls seeded ((2, ServiceCall.registers node_one) ∷ [])).inodes "i1"
            refl)),
    (
      inr (
          inr (
            HasNoChild-of_test
              (run_service_calls seeded (
                (2, ServiceCall.registers node_one)
                ∷ (3, ServiceCall.creates_directory docs_request)
                ∷ [])).inodes
              "i3" refl)),
      (inr (inl (_, refl)), (tt, (tt, (tt, (tt, (tt, tt)))))),
    ),
  ),
)

run_service_calls-IsWell_example : IsWell (run_service_calls seeded uploads)
run_service_calls-IsWell_example =
    run_service_calls-IsWell seeded uploads seeded-IsWell uploads-AllNew

abbrev the_session : UploadSession
the_session = session upload_status_verifying (pos 5000000)

abbrev pub stored_chunk : CommitChunkRequest → ChunkMetadata
stored_chunk req = committed_chunk req the_session note_file copies 8

-- Both chunks of the file are stored, and the upload waits for its verification.
abbrev pub waiting : MemoryState
waiting =
    (upsert_chunks (uploading upload_status_verifying (pos 5000000))
      (stored_chunk first_chunk ∷ stored_chunk last_chunk ∷ [])).0

pub waiting-IsChunked : IsChunked waiting.chunks
waiting-IsChunked =
    upsert_chunks-IsChunked (uploading upload_status_verifying (pos 5000000))
      (stored_chunk first_chunk ∷ stored_chunk last_chunk ∷ []) IsChunked-empty

abbrev got : {A : Type 0} → A → Result A → A
got a (ok b) = b
got a (err why) = a

abbrev verified : Result FileMetadata
verified = (verify_upload verification 10 waiting).0.1

answers :
    (get_upload_session waiting "u1" ≡ ok the_session)
    × (get_file waiting (file_by_id "f1") ≡ ok note_file)
    × (length (list_chunks_by_file waiting "f1") ≡ 2)
    × (verified ≡ ok (got note_file verified))
    × ((got note_file verified).status ≡ file_status_available)
    × ((serve 11 waiting (ServiceCall.starts (start "u2"))).1 ≡ some conflict)
unfolding verify_upload verify_body verify_found ensure_file_ready_for_availability check_readable
    healthy_replica_count checksum_ready select_verified_file_checksum verify_writes record_verified
    complete_session complete_upload_session values_where sort_slice in_tx commit_tx use_case
    transact ◌>>=◌ gives reads checks refuse_if calls find_file get_file upsert_chunks collect
    check_chunk wrap64 lookup insert any_value insert_all find_value find_chunk get_upload_session
    update_upload_progress upload_expected_size list_chunks_by_file greatest_end
    ensure_file_ready_for_verification check_coverage mark_chunks for_each update_chunk_status
    update_file serve start_upload start_body all_terminal is_terminal_upload_status
    list_upload_sessions_by_file
answers = (refl, refl, refl, refl, refl, refl)

small : 4194304 * length (list_chunks_by_file waiting note_file.id) < 2 ^ 63
small = let two : length (list_chunks_by_file waiting note_file.id) ≡ 2 = answers.2 in omega arith

within : pos 4200000 <ℤ expected_size_of note_file the_session
within = omega arith

serve-refused_example :
    serve 11 waiting (ServiceCall.starts (start "u2")) ≡ (waiting, some conflict, [])
serve-refused_example =
    serve-refused 11 waiting (ServiceCall.starts (start "u2")) conflict answers.5

-- The byte at 4200000 is in the last chunk.
verify_upload_covers_example :
    (k : String) × (c : ChunkMetadata) × (lookup k
        (verify_upload verification 10 waiting).0.0.chunks
      ≡ some c)
    × (c.file_id ≡ note_file.id)
    × HoldsByte c 4200000
    × (required_replicas note_file ≤ℤ pos (healthy_replica_count c.replicas))
verify_upload_covers_example =
    verify_upload_covers waiting verification 10 the_session note_file 4200000
      {v = got note_file verified} waiting-IsChunked answers.0 answers.1 small within answers.3
