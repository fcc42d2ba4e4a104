-- ===== src/Store/Chunk/Laws.antt =====
-- The operations of internal/mds/store/memory_chunk.go, and the invariant of the chunk table.
use astra_storage.Base.{
  ◌⊎◌, ℕ, is_some, true, String, ◌≡◌, refl, sym, subst, ◌∙◌, inl, inr, false, ◌==◌, List, [], ◌∷◌,
  Option, none, some, Option-cases,
}
use astra_storage.Base.Slice.Sorted.{Mem, All-at, Mem-sort_slice_from}
use astra_storage.Base.Map.Loops.{values_where-mem}
use astra_storage.Base.Map.{IsMap, values_where, Map, lookup, insert, erase, insert_all}
use astra_storage.Base.Map.Laws.{
  insert-cases, erase-some, insert_all-cases, lookup-insert_all, IsMap-insert, IsMap-erase,
  IsMap-insert_all, none-ne-some,
}
use astra_storage.Metadata.Object.{NodeId}
use astra_storage.Metadata.Chunk.{ChunkMetadata}
use astra_storage.Metadata.Replica.{ReplicaMetadata}
use astra_storage.Store.State.{MemoryState, ok, Result-cases, err-ne-ok}
use astra_storage.Store.Requests.{ChunkSelector, ChunkStatusPatch, ChunkReplicaPatch}
use astra_storage.Store.Select.{find_chunk, find_chunk-some, found_by_id}
use astra_storage.Store.Chunk.{
  get_chunk, list_chunks_by_node, before_in_file, upsert_chunks, collect, update_chunk_status,
  update_chunk_replicas, remove_chunk_replica, delete_chunk, with_chunk, patch_status,
  patch_replicas, without_replica,
}
use astra_storage.Store.Chunk.Batch.{
  IsChunked, IsPlaced, Apart, SamePlace, SamePlace-symm, collect-IsChunked, latest, or_else,
  collect-latest,
}

-- What an operation on one chunk leaves alone.
pub record SameChunk (c d : ChunkMetadata) : Type 0 where
  pub same_id : c.id ≡ d.id
  pub same_file : c.file_id ≡ d.file_id
  pub same_index : c.index ≡ d.index
  pub same_offset : c.offset ≡ d.offset
  pub same_size : c.size ≡ d.size

pub unmoved : (c : ChunkMetadata) → SameChunk c c
unmoved c = record {
  same_id = refl;
  same_file = refl;
  same_index = refl;
  same_offset = refl;
  same_size = refl;
}

module _ (m : Map ChunkMetadata) (t : IsChunked m) where
  merge-IsChunked : (p : Map ChunkMetadata) → IsChunked p → Apart p m → IsChunked (insert_all p m)
  merge-IsChunked p q a = record {
    is_map = IsMap-insert_all p m t.is_map;
    keyed = λ k c e. elim (insert_all-cases k c p m q.is_map e) [
      | inl new ↦ q.keyed k c new
      | inr (_, old) ↦ t.keyed k c old
    ];
    placed = λ k c e. elim (insert_all-cases k c p m q.is_map e) [
      | inl new ↦ q.placed k c new
      | inr (_, old) ↦ t.placed k c old
    ];
    distinct = λ k l c d e g s. elim (insert_all-cases k c p m q.is_map e) [
      | inl new ↦ elim (insert_all-cases l d p m q.is_map g) [
        | inl new' ↦ q.distinct k l c d new new' s
        | inr (_, old) ↦ a k l c d new old s
      ]
      | inr (_, old) ↦ elim (insert_all-cases l d p m q.is_map g) [
        | inl new ↦ sym (a l k d c new old (SamePlace-symm c d s))
        | inr (_, old') ↦ t.distinct k l c d old old' s
      ]
    ];
  }

  erase-IsChunked : (x : String) → IsChunked (erase x m)
  erase-IsChunked x = record {
    is_map = IsMap-erase x m t.is_map;
    keyed = λ k c e. t.keyed k c (erase-some x k c m e).1;
    placed = λ k c e. t.placed k c (erase-some x k c m e).1;
    distinct = λ k l c d e g. t.distinct k l c d (erase-some x k c m e).1 (erase-some x l d m g).1;
  }

  -- Every entry after the write at `x` agrees with an entry from before it.
  old_version :
      (x : String) (c c' : ChunkMetadata)
      → lookup x m ≡ some c
      → SameChunk c' c
      → (k : String) (b : ChunkMetadata) → lookup k (insert x c' m) ≡ some b
      → (o : ChunkMetadata) × (lookup k m ≡ some o) × SameChunk b o
  old_version x c c' e s k b h = elim (insert-cases x k c' b m h) [
    | inl (at, new) ↦
        (c, subst (λ y. lookup y m ≡ some c) (sym at) e, subst (λ y. SameChunk y c) (sym new) s)
    | inr (_, old) ↦ (b, old, unmoved b)
  ]

  SamePlace-old :
      (b o d r : ChunkMetadata) → SameChunk b o → SameChunk d r → SamePlace b d → SamePlace o r
  SamePlace-old b o d r s u (f, inl i) =
      (sym s.same_file ∙ f ∙ u.same_file, inl (sym s.same_index ∙ i ∙ u.same_index))
  SamePlace-old b o d r s u (f, inr i) =
      (sym s.same_file ∙ f ∙ u.same_file, inr (sym s.same_offset ∙ i ∙ u.same_offset))

  in_place-IsChunked :
      (x : String) (c c' : ChunkMetadata)
      → lookup x m ≡ some c
      → SameChunk c' c
      → IsChunked (insert x c' m)
  in_place-IsChunked x c c' e s = record {
    is_map = IsMap-insert x c' m t.is_map;
    keyed = λ k b h. let (o, at, u) = old_version x c c' e s k b h in u.same_id ∙ t.keyed k o at;
    placed = λ k b h.
        let (o, at, u) = old_version x c c' e s k b h in
        let p : IsPlaced o = t.placed k o at in
        record {
          nonneg = rw u.same_size p.nonneg;
          bounded = rw u.same_size p.bounded;
          at_index = rw (u.same_offset, u.same_index) p.at_index;
        };
    distinct = λ k l b d h g q.
        let (o, at, u) = old_version x c c' e s k b h in
        let (r, at', v) = old_version x c c' e s l d g in
        t.distinct k l o r at at' (SamePlace-old b o d r u v q);
  }

-- The calls that change the chunk table.
pub data ChunkCall : Type 0 where
  upsert : List ChunkMetadata → ChunkCall
  status : ChunkStatusPatch → ChunkCall
  replicas : ChunkReplicaPatch → ChunkCall
  drop_replica : ChunkSelector → NodeId → ℕ → ChunkCall
  delete : ChunkSelector → ChunkCall

pub after_chunk_call : MemoryState → ChunkCall → MemoryState
after_chunk_call s (upsert cs) = (upsert_chunks s cs).0
after_chunk_call s (status p) = (update_chunk_status s p).0
after_chunk_call s (replicas p) = (update_chunk_replicas s p).0
after_chunk_call s (drop_replica q node at) = (remove_chunk_replica s q node at).0
after_chunk_call s (delete q) = (delete_chunk s q).0

pub run_chunk_calls : MemoryState → List ChunkCall → MemoryState
run_chunk_calls s [] = s
run_chunk_calls s (c ∷ cs) = run_chunk_calls (after_chunk_call s c) cs

pub IsChunked-empty : IsChunked []
unfolding lookup
IsChunked-empty = record {
  is_map = tt;
  keyed = λ k c e. absurd (none-ne-some e);
  placed = λ k c e. absurd (none-ne-some e);
  distinct = λ k l c d e. absurd (none-ne-some e);
}

Apart-empty : (m : Map ChunkMetadata) → Apart [] m
unfolding lookup
Apart-empty m k l c d e = absurd (none-ne-some e)

pub upsert_chunks-IsChunked :
    (s : MemoryState) (cs : List ChunkMetadata)
    → IsChunked s.chunks
    → IsChunked (upsert_chunks s cs).0.chunks
unfolding upsert_chunks
upsert_chunks-IsChunked s cs t = elim (Result-cases (collect s.files s.chunks [] cs)) [
  | inr (e, h) ↦ rw h t
  | inl (p, h) ↦
      let (q, a) =
        collect-IsChunked s.files s.chunks t [] cs IsChunked-empty (Apart-empty s.chunks) h in
      rw h (merge-IsChunked s.chunks t p q a)
]

module _ (s : MemoryState) (t : IsChunked s.chunks) where
  found_in_place :
      (q : ChunkSelector) (k : String) (c c' : ChunkMetadata)
      → find_chunk s.chunks q ≡ some (k, c)
      → SameChunk c' c
      → IsChunked (with_chunk s k c').chunks
  found_in_place q k c c' e u =
      in_place-IsChunked s.chunks t k c c' (find_chunk-some s.chunks q t.is_map e) u

  pub update_chunk_status-IsChunked :
      (p : ChunkStatusPatch) → IsChunked (update_chunk_status s p).0.chunks
  unfolding update_chunk_status
  update_chunk_status-IsChunked p = elim (Option-cases (find_chunk s.chunks p.selector)) [
    | inl e ↦ rw e t
    | inr ((k, c), e) ↦ rw e (
        found_in_place p.selector k c (patch_status p c) e (record {
          same_id = refl;
          same_file = refl;
          same_index = refl;
          same_offset = refl;
          same_size = refl;
        }))
  ]

  pub update_chunk_replicas-IsChunked :
      (p : ChunkReplicaPatch) → IsChunked (update_chunk_replicas s p).0.chunks
  unfolding update_chunk_replicas
  update_chunk_replicas-IsChunked p = elim (Option-cases (find_chunk s.chunks p.selector)) [
    | inl e ↦ rw e t
    | inr ((k, c), e) ↦ rw e (
        found_in_place p.selector k c (patch_replicas p c) e (record {
          same_id = refl;
          same_file = refl;
          same_index = refl;
          same_offset = refl;
          same_size = refl;
        }))
  ]

  remove_chunk_replica-IsChunked :
      (q : ChunkSelector) (node : NodeId) (at : ℕ)
      → IsChunked (remove_chunk_replica s q node at).0.chunks
  unfolding remove_chunk_replica
  remove_chunk_replica-IsChunked q node at = elim (Option-cases (find_chunk s.chunks q)) [
    | inl e ↦ rw e t
    | inr ((k, c), e) ↦ elim (Option-cases (lookup node c.replicas)) [
      | inl f ↦ rw (e, f) t
      | inr (r, f) ↦
          rw (e, f)
            (found_in_place q k c (without_replica node at c) e (record {
              same_id = refl;
              same_file = refl;
              same_index = refl;
              same_offset = refl;
              same_size = refl;
            }))
    ]
  ]

  pub delete_chunk-IsChunked : (q : ChunkSelector) → IsChunked (delete_chunk s q).0.chunks
  unfolding delete_chunk
  delete_chunk-IsChunked q = elim (Option-cases (find_chunk s.chunks q)) [
    | inl e ↦ rw e t
    | inr ((k, c), e) ↦ rw e (erase-IsChunked s.chunks t c.id)
  ]

-- A removal drops one replica of the chunk that is found, or changes nothing.
pub remove_chunk_replica-cases :
    (s : MemoryState) (q : ChunkSelector) (node : NodeId) (at : ℕ)
    → ((remove_chunk_replica s q node at).0 ≡ s)
      ⊎ ((k : String) × (c : ChunkMetadata) × (find_chunk s.chunks q ≡ some (k, c))
          × ((remove_chunk_replica s q node at).0 ≡ with_chunk s k (without_replica node at c)))
unfolding remove_chunk_replica
remove_chunk_replica-cases s q node at = elim (Option-cases (find_chunk s.chunks q)) [
  | inl e ↦ inl (rw (e, remove_chunk_replica) refl)
  | inr ((k, c), e) ↦ elim (Option-cases (lookup node c.replicas)) [
    | inl f ↦ inl (rw (e, remove_chunk_replica, f) refl)
    | inr (r, f) ↦ inr (k, c, e, rw (e, remove_chunk_replica, f) refl)
  ]
]

-- A chunk that is listed for a node is stored, with a replica on the node.
pub list_chunks_by_node-stored :
    (s : MemoryState) (node : NodeId) (c : ChunkMetadata)
    → IsMap s.chunks
    → Mem c (list_chunks_by_node s node)
    → (k : String) × (lookup k s.chunks ≡ some c) × (is_some (lookup node c.replicas) ≡ true)
unfolding list_chunks_by_node
list_chunks_by_node-stored s node c i h =
    All-at
      (λ v. (k : String) × (lookup k s.chunks ≡ some v) × (is_some (lookup node v.replicas) ≡ true))
      (values_where (λ v. is_some (lookup node v.replicas)) s.chunks) c
      (values_where-mem (λ v. is_some (lookup node v.replicas)) s.chunks i)
      (Mem-sort_slice_from before_in_file
        (values_where (λ v. is_some (lookup node v.replicas)) s.chunks) c h)

pub get_chunk-at :
    (s : MemoryState) (q : ChunkSelector) (id : String) (c : ChunkMetadata)
    → q.id ≡ id
    → (id == "") ≡ false
    → lookup id s.chunks ≡ some c
    → get_chunk s q ≡ ok c
unfolding get_chunk
get_chunk-at s q id c a n e = rw (found_by_id s.chunks q id c a n e) refl

pub remove_chunk_replica-at :
    (s : MemoryState) (q : ChunkSelector) (node : NodeId) (at : ℕ) (id : String) (c : ChunkMetadata)
    (r : ReplicaMetadata)
    → q.id ≡ id
    → (id == "") ≡ false
    → lookup id s.chunks ≡ some c
    → lookup node c.replicas ≡ some r
    → remove_chunk_replica s q node at ≡ (with_chunk s id (without_replica node at c), ok tt)
unfolding remove_chunk_replica
remove_chunk_replica-at s q node at id c r a n e f =
    rw (found_by_id s.chunks q id c a n e, remove_chunk_replica, f) refl

-- A patch that names a chunk by its id finds it.
pub update_chunk_replicas-at :
    (s : MemoryState) (p : ChunkReplicaPatch) (id : String) (c : ChunkMetadata)
    → p.selector.id ≡ id
    → (id == "") ≡ false
    → lookup id s.chunks ≡ some c
    → update_chunk_replicas s p ≡ (with_chunk s id (patch_replicas p c), ok tt)
unfolding update_chunk_replicas
update_chunk_replicas-at s p id c q n e =
    let found : find_chunk s.chunks p.selector ≡ some (id, c) =
      found_by_id s.chunks p.selector id c q n e in
    rw (found, update_chunk_replicas) refl

after_chunk_call-IsChunked :
    (s : MemoryState) (c : ChunkCall) → IsChunked s.chunks → IsChunked (after_chunk_call s c).chunks
unfolding after_chunk_call
after_chunk_call-IsChunked s (upsert cs) t = upsert_chunks-IsChunked s cs t
after_chunk_call-IsChunked s (status p) t = update_chunk_status-IsChunked s t p
after_chunk_call-IsChunked s (replicas p) t = update_chunk_replicas-IsChunked s t p
after_chunk_call-IsChunked s (drop_replica q node at) t =
    remove_chunk_replica-IsChunked s t q node at
after_chunk_call-IsChunked s (delete q) t = delete_chunk-IsChunked s t q

-- After any chunk operations, each refused or not, every chunk is stored under its id, has a size from
-- 0 to 4 MiB and the offset of its index, and two chunks of one file differ in index and in offset, if
-- it was so before.
pub run_chunk_calls-IsChunked :
    (s : MemoryState) (cs : List ChunkCall)
    → IsChunked s.chunks
    → IsChunked (run_chunk_calls s cs).chunks
unfolding run_chunk_calls
run_chunk_calls-IsChunked s [] t = t
run_chunk_calls-IsChunked s (c ∷ cs) t =
    run_chunk_calls-IsChunked (after_chunk_call s c) cs (after_chunk_call-IsChunked s c t)

shadow :
    (p l o : Option ChunkMetadata)
    → p ≡ or_else l none
    → elim p as (λ _. Option ChunkMetadata) [ some v ↦ some v | none ↦ o ] ≡ or_else l o
shadow p none o h = rw h
shadow p (some d) o h = rw h

-- On a well-formed table, a batch that is accepted stores the last chunk of each id, and leaves all
-- other ids alone.
pub upsert_chunks-lookup :
    (s : MemoryState) (cs : List ChunkMetadata) (k : String) {a : Unit {0}}
    → IsChunked s.chunks
    → (upsert_chunks s cs).1 ≡ ok a
    → lookup k (upsert_chunks s cs).0.chunks ≡ or_else (latest k cs) (lookup k s.chunks)
unfolding upsert_chunks lookup
upsert_chunks-lookup s cs k t done = elim (Result-cases (collect s.files s.chunks [] cs)) [
  | inr (e, h) ↦ absurd (err-ne-ok (rw h at done))
  | inl (p, h) ↦
      let (q, a) =
        collect-IsChunked s.files s.chunks t [] cs IsChunked-empty (Apart-empty s.chunks) h in
      rw h (
        lookup-insert_all k p s.chunks q.is_map
        ∙ shadow (lookup k p) (latest k cs) (lookup k s.chunks)
            (collect-latest s.files s.chunks [] cs k h))
]
