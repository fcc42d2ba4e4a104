-- ===== src/Service/Read/Serves.antt =====
-- Where the plans of internal/mds/service_read.go send a reader.
use astra_storage.Base.{
  ◌≡◌, refl, sym, ◌∙◌, ap, String, Bool, true, false, not, ◌==◌, ◌||◌, some, List, [], ◌∷◌, inl,
  inr, Bool-cases, map, true-ne-false, All, ◌⊎◌, subst,
}
use astra_storage.Base.Map.{lookup}
use astra_storage.Base.Slice.{sort_slice}
use astra_storage.Base.Slice.Sorted.{
  Mem, Mem-sort_slice_from, Mem-sort_slice_to, Descends, sort_slice-Descends, All-at,
}
use astra_storage.Metadata.Object.{FileId, NodeId}
use astra_storage.Metadata.Chunk.{ChunkMetadata}
use astra_storage.Metadata.Replica.{
  ReplicaMetadata, ReplicaSet, replica_state_ready, replica_state_writing,
}
use astra_storage.Store.State.{MemoryState, ok, not_found, passed, went_on, same_ok}
use astra_storage.Store.Requests.{file_by_id}
use astra_storage.Store.File.{get_file}
use astra_storage.Store.Chunk.{list_chunks_by_file}
use astra_storage.Store.Chunk.Batch.{IsChunked}
use astra_storage.Service.Upload.{has_more}
use astra_storage.Service.Upload.Verified.{list_chunks_by_file-stored}
use astra_storage.Service.Read.{
  DownloadChunkPlan, DownloadPlan, Candidate, candidate, candidates_of, comes_first, node_of,
  ordered_replica_candidates, first_or_none, chunk_plan, build_download_plan,
}

abbrev pub is_serving : ReplicaMetadata → Bool
is_serving r = r.state == replica_state_ready || r.state == replica_state_writing

-- The node has a replica that a reader can use.
abbrev pub Serves : NodeId → ReplicaSet → Type 0
Serves n m = (r : ReplicaMetadata) × Mem (n, r) m × (is_serving r ≡ true)

abbrev pub NoneServes : ReplicaSet → Type 0
NoneServes m = All (λ (e : NodeId × ReplicaMetadata). is_serving e.1 ≡ false) m

-- The first comes before the second, or is as healthy.
abbrev AsHealthy : Candidate → Candidate → Type 0
AsHealthy a b = b.healthy ≡ true → a.healthy ≡ true

comes_first-AsHealthy : (a b : Candidate) → comes_first a b ≡ true → AsHealthy a b
unfolding comes_first
comes_first-AsHealthy a b h g = elim (Bool-cases a.healthy) [
  | inl t ↦ t
  | inr f ↦ absurd (true-ne-false (sym h ∙ rw (f, g) refl))
]

comes_after-AsHealthy : (a b : Candidate) → comes_first a b ≡ false → AsHealthy b a
unfolding comes_first
comes_after-AsHealthy a b h g = elim (Bool-cases b.healthy) [
  | inl t ↦ t
  | inr f ↦ absurd (true-ne-false (sym (rw (f, g) refl) ∙ h))
]

candidates_of-Mem :
    (m : ReplicaSet) (n : NodeId) (r : ReplicaMetadata)
    → Mem (n, r) m
    → Mem (candidate n r) (candidates_of m)
unfolding candidates_of
candidates_of-Mem [] n r h = elim h [ ]
candidates_of-Mem ((k, q) ∷ m) n r (inl e) =
    inl (ap (λ (p : NodeId × ReplicaMetadata). candidate p.0 p.1) e)
candidates_of-Mem ((k, q) ∷ m) n r (inr h) = inr (candidates_of-Mem m n r h)

Mem-candidates_of :
    (m : ReplicaSet) (c : Candidate)
    → Mem c (candidates_of m)
    → (n : NodeId) × (r : ReplicaMetadata) × Mem (n, r) m × (c ≡ candidate n r)
unfolding candidates_of
Mem-candidates_of [] c h = elim h [ ]
Mem-candidates_of ((k, q) ∷ m) c (inl e) = (k, q, inl refl, e)
Mem-candidates_of ((k, q) ∷ m) c (inr h) =
    let (n, r, g, e) = Mem-candidates_of m c h in (n, r, inr g, e)

-- The head of a list in which each item is as healthy as those behind it.
first-AsHealthy :
    (cs : List Candidate) (c : Candidate)
    → Descends AsHealthy cs
    → Mem c cs
    → c.healthy ≡ true
    → (a : Candidate) × Mem a cs × (first_or_none (map node_of cs) ≡ a.node_id) × (a.healthy ≡ true)
first-AsHealthy [] c d h g = elim h [ ]
first-AsHealthy (a ∷ cs) c d (inl e) g =
    (a, inl refl, refl, ap (λ (x : Candidate). x.healthy) (sym e) ∙ g)
first-AsHealthy (a ∷ cs) c d (inr h) g = (a, inl refl, refl, All-at (AsHealthy a) cs c d.0 h g)

preferred-Serves :
    (m : ReplicaSet) (n : NodeId) (r : ReplicaMetadata)
    → Mem (n, r) m
    → is_serving r ≡ true
    → Serves (first_or_none (ordered_replica_candidates m)) m
unfolding ordered_replica_candidates
preferred-Serves m n r h g =
    let sorted : Descends AsHealthy (sort_slice comes_first (candidates_of m)) =
      sort_slice-Descends AsHealthy (λ a b c f g h. f (g h)) comes_first comes_first-AsHealthy
        comes_after-AsHealthy (candidates_of m) in
    let (a, mem, first, healthy) =
      first-AsHealthy _ (candidate n r) sorted
        (Mem-sort_slice_to comes_first (candidates_of m) (candidate n r)
          (candidates_of-Mem m n r h))
        g in
    let (k, q, stored, same) =
      Mem-candidates_of m a (Mem-sort_slice_from comes_first (candidates_of m) a mem) in
    let at : first_or_none (map node_of (sort_slice comes_first (candidates_of m))) ≡ k =
      first ∙ ap (λ (x : Candidate). x.node_id) same in
    (q, rw at stored, ap (λ (x : Candidate). x.healthy) (sym same) ∙ healthy)

any-Serves : (m : ReplicaSet) → ((n : NodeId) × Serves n m) ⊎ NoneServes m
any-Serves [] = inr tt
any-Serves ((n, r) ∷ m) = elim (Bool-cases (is_serving r)) [
  | inl t ↦ inl (n, (r, inl refl, t))
  | inr f ↦ elim (any-Serves m) [
    | inl (k, (q, mem, t)) ↦ inl (k, (q, inr mem, t))
    | inr g ↦ inr (f, g)
  ]
]

serving_or_none :
    (m : ReplicaSet) → Serves (first_or_none (ordered_replica_candidates m)) m ⊎ NoneServes m
serving_or_none m = elim (any-Serves m) [
  | inl (n, (r, mem, t)) ↦ inl (preferred-Serves m n r mem t)
  | inr g ↦ inr g
]

Mem-chunk_plan :
    (cs : List ChunkMetadata) (d : DownloadChunkPlan)
    → Mem d (map chunk_plan cs)
    → (c : ChunkMetadata) × Mem c cs × (d ≡ chunk_plan c)
Mem-chunk_plan [] d h = elim h [ ]
Mem-chunk_plan (c ∷ cs) d (inl e) = (c, inl refl, e)
Mem-chunk_plan (c ∷ cs) d (inr h) = let (a, m, e) = Mem-chunk_plan cs d h in (a, inr m, e)

planned_chunk :
    (s : MemoryState) (id : FileId) (d : DownloadChunkPlan) {p : DownloadPlan}
    → build_download_plan s id ≡ ok p
    → Mem d p.chunks
    → (c : ChunkMetadata) × Mem c (list_chunks_by_file s id) × (d ≡ chunk_plan c)
unfolding build_download_plan
planned_chunk s id d {p} h m =
    let (file, _, h1) = went_on (get_file s (file_by_id id)) _ h in
    let (_, h2) = passed (not (has_more (list_chunks_by_file s id))) not_found _ h1 in
    Mem-chunk_plan (list_chunks_by_file s id) d
      (subst (λ (q : DownloadPlan). Mem d q.chunks) (sym (same_ok h2)) m)

-- Every part of a download plan is for a stored chunk of the file, with its offset and size, and its
-- preferred node has a replica of the chunk that is ready or being written, if any node has one and
-- the chunk table is well formed.
pub build_download_plan-Serves :
    (s : MemoryState) (id : FileId) (d : DownloadChunkPlan) {p : DownloadPlan}
    → IsChunked s.chunks
    → build_download_plan s id ≡ ok p
    → Mem d p.chunks
    → (k : String) × (c : ChunkMetadata) × (lookup k s.chunks ≡ some c)
      × (c.file_id ≡ id)
      × (d.offset ≡ c.offset)
      × (d.size ≡ c.size)
      × (Serves d.preferred_node_id c.replicas ⊎ NoneServes c.replicas)
build_download_plan-Serves s id d t h m =
    let (c, listed, e) = planned_chunk s id d h m in
    let (k, stored, of_file) = list_chunks_by_file-stored s id c t listed in
    (
      k,
      c,
      stored,
      of_file,
      ap (λ (x : DownloadChunkPlan). x.offset) e,
      ap (λ (x : DownloadChunkPlan). x.size) e,
      rw e (serving_or_none c.replicas),
    )
