-- ===== src/Service/Upload/Verified.antt =====
-- VerifyUpload of internal/mds/service_upload.go: what holds of a file that it makes available.
use astra_storage.Base.{
  ℕ, ◌*◌, ◌^◌, ◌<◌, ◌≡◌, refl, sym, ◌∙◌, ap, String, true, not, ◌==◌, some, arith, length, All,
  eq_iff,
}
use astra_storage.Base.Int.{ℤ, pos, ◌≤ℤ◌, ◌<ℤ◌, eq_ℤ, eq_ℤ_iff}
use astra_storage.Base.Map.{lookup, values_where}
use astra_storage.Base.Map.Loops.{values_where-mem}
use astra_storage.Base.Slice.Sorted.{Mem, All-at, All-Mem, Mem-sort_slice_from}
use astra_storage.Metadata.Object.{FileId, FileMetadata, UploadSession, Checksum}
use astra_storage.Metadata.Chunk.{ChunkMetadata}
use astra_storage.Store.State.{MemoryState, Outcome, ok, conflict, passed, went_on, unfailed}
use astra_storage.Store.Requests.{file_by_id}
use astra_storage.Store.File.{get_file}
use astra_storage.Store.Chunk.{list_chunks_by_file}
use astra_storage.Store.Chunk.Batch.{IsChunked, IsPlaced}
use astra_storage.Store.Chunk.Laws.{unmoved}
use astra_storage.Store.Upload.{get_upload_session}
use astra_storage.Service.Body.Runs.{ran_reads, ran_checks, ran_refuse, use_case-ok}
use astra_storage.Service.Upload.{
  VerifyUploadRequest, current_stored_size, expected_size_of, required_replicas,
  healthy_replica_count, check_coverage, check_readable, ensure_file_ready_for_availability,
  ensure_file_ready_for_verification, has_more, status_refused,
}
use astra_storage.Service.Upload.Coverage.{
  HoldsByte, check_coverage-holds, check_readable-holds, not-false,
}
use astra_storage.Service.Upload.Finish.{
  verify_upload, verify_body, verify_found, verify_writes, select_verified_file_checksum,
  require_checksum,
}
use astra_storage.Service.Upload.Marked.{IsMarked, verify_writes-Keeps}
use astra_storage.Service.Body.{◌>>=◌, reads, request_time}

-- A listed chunk is a stored one of the file.
pub list_chunks_by_file-stored :
    (s : MemoryState) (id : FileId) (c : ChunkMetadata)
    → IsChunked s.chunks
    → Mem c (list_chunks_by_file s id)
    → (k : String) × (lookup k s.chunks ≡ some c) × (c.file_id ≡ id)
unfolding list_chunks_by_file
list_chunks_by_file-stored s id c t m =
    let listed : Mem c (values_where (λ d. d.file_id == id) s.chunks) =
      Mem-sort_slice_from _ (values_where (λ d. d.file_id == id) s.chunks) c m in
    let (k, e, p) =
      All-at (λ v. (k : String) × (lookup k s.chunks ≡ some v) × ((v.file_id == id) ≡ true))
        (values_where (λ d. d.file_id == id) s.chunks) c
        (values_where-mem (λ d. d.file_id == id) s.chunks t.is_map) listed in
    (k, e, (eq_iff c.file_id id).0 p)

module _ (s : MemoryState) (f : FileMetadata) (u : UploadSession) (n : ℤ) {a : Unit {0}}
    (ready : ensure_file_ready_for_availability s f u n ≡ ok a) where
  ready-coverage : check_coverage (pos 0) (list_chunks_by_file s f.id) ≡ ok (expected_size_of f u)
  unfolding ensure_file_ready_for_availability ensure_file_ready_for_verification
  ready-coverage =
      let (b, sealed, _) = went_on (ensure_file_ready_for_verification s f u n) _ ready in
      let (_, h1) = passed (not (has_more (list_chunks_by_file s f.id))) conflict _ sealed in
      let (_, h2) = passed (not (eq_ℤ n (expected_size_of f u))) conflict _ h1 in
      let (covered, h3, h4) = went_on (check_coverage (pos 0) (list_chunks_by_file s f.id)) _ h2 in
      h3
      ∙ ap (λ (z : ℤ). ok z)
          ((eq_ℤ_iff covered (expected_size_of f u)).0 (
            not-false (eq_ℤ covered (expected_size_of f u))
              (unfailed (not (eq_ℤ covered (expected_size_of f u))) conflict h4)))

  ready-readable :
      (b : Unit {0}) × (check_readable (required_replicas f) (list_chunks_by_file s f.id) ≡ ok b)
  unfolding ensure_file_ready_for_availability
  ready-readable =
      let (b, _, h) = went_on (ensure_file_ready_for_verification s f u n) _ ready in (a, h)

-- A verification that succeeds has passed the checks, and goes on with the writes.
verify_found-ok :
    (req : VerifyUploadRequest) (u : UploadSession) (f : FileMetadata) (now : ℕ) (s : MemoryState)
    {v : FileMetadata}
    → (verify_found req u f now s).1 ≡ ok v
    → (n : ℤ) × (c : Checksum) × (a : Unit {0}) × (ensure_file_ready_for_availability s f u n
        ≡ ok a)
      × (verify_found req u f now s
          ≡ verify_writes req u f n c (request_time now req.verified_at) s)
unfolding verify_found
verify_found-ok req u f now s h =
    let (_, h1, e1) = ran_refuse (status_refused req.expected_statuses f.status) conflict _ s h in
    let (n, _, h2, e2) = ran_reads (λ t. ok (current_stored_size t f.id)) _ s h1 in
    let (a, ready, h3, e3) = ran_reads (λ t. ensure_file_ready_for_availability t f u n) _ s h2 in
    let (c, _, h4, e4) =
      ran_checks (require_checksum (select_verified_file_checksum req.verified_checksum u)) _ s
        h3 in
    (n, c, a, ready, e1 ∙ e2 ∙ e3 ∙ e4)

verify_body-found :
    (req : VerifyUploadRequest) (now : ℕ) (s : MemoryState) (u : UploadSession) (f : FileMetadata)
    → get_upload_session s req.session_id ≡ ok u
    → get_file s (file_by_id u.file_id) ≡ ok f
    → verify_body req now s ≡ verify_found req u f now s
unfolding verify_body ◌>>=◌ reads
verify_body-found req now s u f a b = rw (a, b) refl

-- A verification that succeeds has found every byte of the file's expected size in a chunk, and that
-- chunk is afterwards stored for the file with as many ready replicas as the file requires, if the
-- chunk table is well formed and the file's chunks do not outgrow an int64.
pub verify_upload_covers :
    (s : MemoryState) (req : VerifyUploadRequest) (now : ℕ) (u : UploadSession) (f : FileMetadata)
    (x : ℕ) {v : FileMetadata}
    → IsChunked s.chunks
    → get_upload_session s req.session_id ≡ ok u
    → get_file s (file_by_id u.file_id) ≡ ok f
    → 4194304 * length (list_chunks_by_file s f.id) < 2 ^ 63
    → pos x <ℤ expected_size_of f u
    → (verify_upload req now s).0.1 ≡ ok v
    → (k : String) × (c : ChunkMetadata) × (lookup k (verify_upload req now s).0.0.chunks ≡ some c)
      × (c.file_id ≡ f.id)
      × HoldsByte c x
      × (required_replicas f ≤ℤ pos (healthy_replica_count c.replicas))
unfolding verify_upload
verify_upload_covers s req now u f x {v} t hu hf small within h =
    let (ran_body, kept) = use_case-ok _ (verify_body req now) _ s h in
    let found : verify_body req now s ≡ verify_found req u f now s =
      verify_body-found req now s u f hu hf in
    let (n, sum, a, ready, writes) =
      verify_found-ok req u f now s
        (ap (λ (o : Outcome FileMetadata). o.1) (sym found) ∙ ran_body) in
    let placed : All IsPlaced (list_chunks_by_file s f.id) =
      All-Mem (list_chunks_by_file s f.id)
        (λ d m. let (k, e, _) = list_chunks_by_file-stored s f.id d t m in t.placed k d e) in
    let (d, m, holds, _) =
      check_coverage-holds (list_chunks_by_file s f.id) 0 (expected_size_of f u) x placed
        (omega arith) (ready-coverage s f u n ready) (omega arith) within in
    let (b, readable) = ready-readable s f u n ready in
    let (_, many) =
      check_readable-holds (required_replicas f) (list_chunks_by_file s f.id) d readable m in
    let (k, stored, of_file) = list_chunks_by_file-stored s f.id d t m in
    let marked : IsMarked s.chunks
        (verify_writes req u f n sum (request_time now req.verified_at) s).0 =
      (verify_writes-Keeps s.chunks req u f n sum (request_time now req.verified_at)).after s
        (record { chunked = t; preserves = λ j c e. (c, e, unmoved c, refl) }) in
    let (c, after, same, reps) = marked.preserves k d stored in
    let ends : (verify_upload req now s).0.0
        ≡ (verify_writes req u f n sum (request_time now req.verified_at) s).0 =
      kept ∙ ap (λ (o : Outcome FileMetadata). o.0) (found ∙ writes) in
    (
      k,
      c,
      ap (λ (y : MemoryState). lookup k y.chunks) ends ∙ after,
      same.same_file ∙ of_file,
      record {
        start = holds.start;
        length = holds.length;
        starts_at = same.same_offset ∙ holds.starts_at;
        sized = same.same_size ∙ holds.sized;
        begun = holds.begun;
        within = holds.within;
      },
      rw reps many,
    )
