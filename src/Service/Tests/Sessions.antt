-- ===== src/Service/Tests/Sessions.antt =====
-- Witnesses of StartUpload and of the plans of internal/mds/service_read.go.
use astra_storage.Base.{String, [], ◌∷◌, some, false, ◌≡◌, refl, inl, ◌⊎◌}
use astra_storage.Base.Int.{pos, wrap64}
use astra_storage.Base.Map.{lookup, insert, any_value, values_where, insert_all, find_value}
use astra_storage.Base.Slice.{sort_slice}
use astra_storage.Base.Slice.Sorted.{Mem}
use astra_storage.Metadata.Object.{UploadSession, upload_status_pending, upload_status_failed}
use astra_storage.Metadata.Chunk.{ChunkMetadata}
use astra_storage.Store.State.{MemoryState, new_memory_state, ok}
use astra_storage.Store.Select.{find_file, find_chunk}
use astra_storage.Store.File.{create_file, get_file, update_file}
use astra_storage.Store.File.Laws.{IsFiled, create_file-IsFiled}
use astra_storage.Store.File.Tests.{IsFiled-empty}
use astra_storage.Store.Chunk.{upsert_chunks, collect, check_chunk, list_chunks_by_file}
use astra_storage.Store.Upload.{create_upload_session, list_upload_sessions_by_file, sized}
use astra_storage.Store.Tx.{in_tx, commit_tx}
use astra_storage.Store.Fixtures.{note, note_file, session}
use astra_storage.Service.Body.{◌>>=◌, gives, reads, refuse_if, calls, transact, use_case}
use astra_storage.Service.Upload.{is_terminal_upload_status}
use astra_storage.Service.Upload.Steps.{all_terminal, new_session, start_body, start_upload}
use astra_storage.Service.Upload.Exclusive.{start_upload_exclusive}
use astra_storage.Service.Read.{
  DownloadChunkPlan, DownloadPlan, chunk_plan, plan_for, build_download_plan,
}
use astra_storage.Service.Read.Serves.{Serves, NoneServes, build_download_plan-Serves}
use astra_storage.Service.Tests.{start, first_chunk}
use astra_storage.Service.Tests.Uploads.{waiting, waiting-IsChunked, stored_chunk}

abbrev with_inode_of_note : MemoryState
with_inode_of_note = record new_memory_state { inodes = ("i3", note) ∷ [] }

-- A file whose only upload so far has failed.
abbrev filed : MemoryState
filed = (create_file with_inode_of_note (some note_file)).0

abbrev failed_once : MemoryState
failed_once = record filed { upload_sessions = ("u1", session upload_status_failed (pos 7)) ∷ [] }

filed-IsFiled : IsFiled filed.files
filed-IsFiled = create_file-IsFiled with_inode_of_note IsFiled-empty note_file

abbrev second_session : UploadSession
second_session = sized (new_session (start "u2") 9)

started :
    ((start_upload (start "u2") 9 failed_once).0.1 ≡ ok second_session)
    × (lookup "u2" (start_upload (start "u2") 9 failed_once).0.0.upload_sessions
        ≡ some second_session)
    × (is_terminal_upload_status second_session.status ≡ false)
unfolding start_upload start_body use_case transact in_tx commit_tx ◌>>=◌ gives reads refuse_if
    calls get_file find_file create_file lookup insert any_value all_terminal
    is_terminal_upload_status list_upload_sessions_by_file values_where sort_slice
    create_upload_session update_file
started = (refl, refl, refl)

start_upload_exclusive_example :
    (Path String "u2" "u2")
    × (second_session ≡ second_session)
    × (second_session.status ≡ upload_status_pending)
    × (second_session.confirmed_offset ≡ pos 0)
    × (second_session.next_offset ≡ pos 0)
start_upload_exclusive_example =
    start_upload_exclusive failed_once (start "u2") 9 "u2" {u = second_session} {v = second_session}
      filed-IsFiled started.0 started.1 refl started.2

abbrev first_part : DownloadChunkPlan
first_part = chunk_plan (stored_chunk first_chunk)

abbrev note_plan : DownloadPlan
note_plan = plan_for note_file (list_chunks_by_file waiting "f1")

planned : (build_download_plan waiting "f1" ≡ ok note_plan) × Mem first_part note_plan.chunks
unfolding build_download_plan get_file find_file list_chunks_by_file upsert_chunks collect
    check_chunk values_where sort_slice lookup insert any_value insert_all find_value find_chunk
    wrap64
planned = (refl, inl refl)

build_download_plan-Serves_example :
    (k : String) × (c : ChunkMetadata) × (lookup k waiting.chunks ≡ some c)
    × (c.file_id ≡ "f1")
    × (first_part.offset ≡ c.offset)
    × (first_part.size ≡ c.size)
    × (Serves first_part.preferred_node_id c.replicas ⊎ NoneServes c.replicas)
build_download_plan-Serves_example =
    build_download_plan-Serves waiting "f1" first_part {p = note_plan} waiting-IsChunked planned.0
      planned.1
