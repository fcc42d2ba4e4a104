-- ===== src/Service/Upload/Marked.antt =====
-- The writes of VerifyUpload in internal/mds/service_upload.go: what they leave of the chunks.
use astra_storage.Base.{
  ℕ, ◌≡◌, refl, sym, subst, ◌∙◌, ap, String, ◌==◌, Option, none, some, inl, inr, ◌⊎◌, eq_iff,
  Option-cases, Bool-cases,
}
use astra_storage.Base.Int.{ℤ}
use astra_storage.Base.Map.{Map, lookup, insert}
use astra_storage.Base.Map.Laws.{same_value, lookup-insert}
use astra_storage.Metadata.Object.{FileMetadata, UploadSession, Checksum}
use astra_storage.Metadata.Chunk.{ChunkMetadata}
use astra_storage.Store.State.{MemoryState}
use astra_storage.Store.Requests.{ChunkStatusPatch, FilePatch, UploadProgressPatch}
use astra_storage.Store.Frames
use astra_storage.Store.Select.{find_chunk, find_chunk-some}
use astra_storage.Store.File.{update_file}
use astra_storage.Store.Chunk.{update_chunk_status, with_chunk, patch_status}
use astra_storage.Store.Chunk.Batch.{IsChunked}
use astra_storage.Store.Chunk.Laws.{SameChunk, update_chunk_status-IsChunked}
use astra_storage.Store.Upload.{update_upload_progress, complete_upload_session}
use astra_storage.Service.Body.{calls}
use astra_storage.Service.Body.Keeps.{Keeps, keeps_rules, Keeps-gives}
use astra_storage.Service.Upload.{VerifyUploadRequest}
use astra_storage.Service.Upload.Finish.{
  verify_writes, mark_chunks, record_verified, complete_session,
}

-- Every chunk is still there, at its place and with its replicas.
abbrev pub Preserves : Map ChunkMetadata → Map ChunkMetadata → Type 0
Preserves m n =
    (k : String) (c : ChunkMetadata)
    → lookup k m ≡ some c
    → (d : ChunkMetadata) × (lookup k n ≡ some d) × SameChunk d c × (d.replicas ≡ c.replicas)

pub record IsMarked (m : Map ChunkMetadata) (t : MemoryState) : Type 0 where
  pub chunked : IsChunked t.chunks
  pub preserves : Preserves m t.chunks

update_chunk_status-cases :
    (s : MemoryState) (p : ChunkStatusPatch)
    → ((update_chunk_status s p).0 ≡ s)
      ⊎ ((k : String) × (c : ChunkMetadata) × (find_chunk s.chunks p.selector ≡ some (k, c))
          × ((update_chunk_status s p).0 ≡ with_chunk s k (patch_status p c)))
unfolding update_chunk_status
update_chunk_status-cases s p = elim (Option-cases (find_chunk s.chunks p.selector)) [
  | inl e ↦ inl (rw e refl)
  | inr ((k, c), e) ↦ inr (k, c, e, rw e refl)
]

marked-Preserves :
    (m n : Map ChunkMetadata) (x : String) (c : ChunkMetadata) (p : ChunkStatusPatch)
    → lookup x n ≡ some c
    → Preserves m n
    → Preserves m (insert x (patch_status p c) n)
marked-Preserves m n x c p at keep k b e =
    let (d, old, same, reps) = keep k b e in
    elim (Bool-cases (x == k)) [
      | inl t ↦
          let alike : c ≡ d =
            same_value (subst (λ y. lookup y n ≡ some c) ((eq_iff x k).0 t) at) old in
          (
            patch_status p c,
            lookup-insert x k (patch_status p c) n ∙ rw t refl,
            record {
              same_id = ap (λ (y : ChunkMetadata). y.id) alike ∙ same.same_id;
              same_file = ap (λ (y : ChunkMetadata). y.file_id) alike ∙ same.same_file;
              same_index = ap (λ (y : ChunkMetadata). y.index) alike ∙ same.same_index;
              same_offset = ap (λ (y : ChunkMetadata). y.offset) alike ∙ same.same_offset;
              same_size = ap (λ (y : ChunkMetadata). y.size) alike ∙ same.same_size;
            },
            ap (λ (y : ChunkMetadata). y.replicas) alike ∙ reps,
          )
      | inr t ↦ (d, lookup-insert x k (patch_status p c) n ∙ rw t old, same, reps)
    ]

module _ (m : Map ChunkMetadata) where
  other_table : (s t : MemoryState) → t.chunks ≡ s.chunks → IsMarked m s → IsMarked m t
  other_table s t e h = record {
    chunked = subst IsChunked (sym e) h.chunked;
    preserves = subst (Preserves m) (sym e) h.preserves;
  }

  mark-Keeps : (p : ChunkStatusPatch) → Keeps (IsMarked m) (calls update_chunk_status p)
  unfolding calls
  mark-Keeps p = record {
    after = λ s h. elim (update_chunk_status-cases s p) [
      | inl same ↦ rw same h
      | inr (k, c, found, done) ↦ record {
        chunked = update_chunk_status-IsChunked s h.chunked p;
        preserves = rw done (
            marked-Preserves m s.chunks k c p
              (find_chunk-some s.chunks p.selector h.chunked.is_map found) h.preserves);
      }
    ];
  }

  progress-Keeps : (p : UploadProgressPatch) → Keeps (IsMarked m) (calls update_upload_progress p)
  unfolding calls
  progress-Keeps p = record {
    after = λ s h.
        other_table s (update_upload_progress s p).0
          (ap (λ (t : MemoryState). t.chunks) (Frames.update_upload_progress-OnlySessions s p)) h;
  }

  complete-Keeps : (u : UploadSession) (now : ℕ) → Keeps (IsMarked m) (complete_session u now)
  unfolding complete_session
  complete-Keeps u now = record {
    after = λ s h.
        other_table s (complete_upload_session s u.id now).0
          (ap (λ (t : MemoryState). t.chunks)
            (Frames.complete_upload_session-OnlySessions s u.id now))
          h;
  }

  file-Keeps : (p : FilePatch) → Keeps (IsMarked m) (calls update_file p)
  unfolding calls
  file-Keeps p = record {
    after = λ s h.
        other_table s (update_file s p).0
          (ap (λ (t : MemoryState). t.chunks) (Frames.update_file-OnlyFiles s p)) h;
  }

  record_verified-Keeps :
      (u : UploadSession) (c : Option Checksum) (now : ℕ)
      → Keeps (IsMarked m) (record_verified u c now)
  unfolding record_verified
  record_verified-Keeps u none now = Keeps-gives tt
  record_verified-Keeps u (some c) now = progress-Keeps _

  pub verify_writes-Keeps :
      (req : VerifyUploadRequest) (u : UploadSession) (f : FileMetadata) (n : ℤ) (c : Checksum)
      (now : ℕ)
      → Keeps (IsMarked m) (verify_writes req u f n c now)
  unfolding verify_writes mark_chunks
  verify_writes-Keeps req u f n c now =
      search (keeps_rules, mark-Keeps, complete-Keeps, file-Keeps, record_verified-Keeps) depth 24
