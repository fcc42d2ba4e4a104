-- ===== src/Store/Chunk/Batch.antt =====
-- The batch of `upsertChunks`, internal/mds/store/memory_chunk.go: what the loop collects.
use astra_storage.Base.{
  String, ◌≡◌, sym, ap, subst, ◌∙◌, ◌⊎◌, inl, inr, false, ◌==◌, List, [], ◌∷◌, Option, none, some,
  arith, eq_iff, if◌then◌else◌,
}
use astra_storage.Base.Int.{pos, ◌≤ℤ◌, eq_ℤ_iff, mul64}
use astra_storage.Base.Map.{Map, lookup, insert, any_value, IsMap}
use astra_storage.Base.Map.Laws.{lookup-insert, insert-cases, IsMap-insert}
use astra_storage.Base.Map.Loops.{any_value-false}
use astra_storage.Metadata.Object.{FileMetadata, fixed_chunk_size_bytes}
use astra_storage.Metadata.Chunk.{ChunkMetadata}
use astra_storage.Store.State.{ok, Result-cases, same_ok, err-ne-ok}
use astra_storage.Store.Chunk.{clashes, check_chunk, collect}

-- The size fits a chunk, and the offset is that of the index.
pub record IsPlaced (c : ChunkMetadata) : Type 0 where
  pub nonneg : pos 0 ≤ℤ c.size
  pub bounded : c.size ≤ℤ fixed_chunk_size_bytes
  pub at_index : c.offset ≡ mul64 c.index fixed_chunk_size_bytes

-- The two chunks claim one place of one file.
abbrev pub SamePlace : ChunkMetadata → ChunkMetadata → Type 0
SamePlace c d = (c.file_id ≡ d.file_id) × ((c.index ≡ d.index) ⊎ (c.offset ≡ d.offset))

pub SamePlace-symm : (c d : ChunkMetadata) → SamePlace c d → SamePlace d c
SamePlace-symm c d (f, inl i) = (sym f, inl (sym i))
SamePlace-symm c d (f, inr o) = (sym f, inr (sym o))

-- The table holds well-placed chunks under their ids, each place once.
pub record IsChunked (m : Map ChunkMetadata) : Type 0 where
  pub is_map : IsMap m
  pub keyed : (k : String) (c : ChunkMetadata) → lookup k m ≡ some c → c.id ≡ k
  pub placed : (k : String) (c : ChunkMetadata) → lookup k m ≡ some c → IsPlaced c
  pub distinct :
      (k l : String) (c d : ChunkMetadata)
      → lookup k m ≡ some c
      → lookup l m ≡ some d
      → SamePlace c d
      → k ≡ l

-- No chunk of the second table stands at the place of one of the first, but for its old version.
abbrev pub Apart : Map ChunkMetadata → Map ChunkMetadata → Type 0
Apart p m =
    (k l : String) (c d : ChunkMetadata)
    → lookup k p ≡ some c
    → lookup l m ≡ some d
    → SamePlace c d
    → k ≡ l

module _ (files : Map FileMetadata) (chunks : Map ChunkMetadata) where
  check_chunk-ok :
      (pending : Map ChunkMetadata) (c : ChunkMetadata) {a : Unit {0}}
      → check_chunk files chunks pending c ≡ ok a
      → IsPlaced c
        × (any_value (clashes c) chunks ≡ false)
        × (any_value (clashes c) pending ≡ false)
  unfolding check_chunk
  check_chunk-ok pending c h = (
    record {
      nonneg = ground arith;
      bounded = ground arith;
      at_index = ground (arith, eq_ℤ_iff c.offset (mul64 c.index fixed_chunk_size_bytes));
    },
    ground arith,
    ground arith,
  )

-- An entry that does not clash is elsewhere, or is the chunk itself.
clashes-false :
    (m : Map ChunkMetadata) (c d : ChunkMetadata) (l : String)
    → ((k : String) (e : ChunkMetadata) → lookup k m ≡ some e → e.id ≡ k)
    → any_value (clashes c) m ≡ false
    → lookup l m ≡ some d
    → SamePlace c d
    → c.id ≡ l
clashes-false m c d l keyed h e (f, at) = ground (
  arith,
  any_value-false (clashes c) m l h e,
  eq_iff d.file_id c.file_id,
  eq_iff d.id c.id,
  eq_ℤ_iff d.index c.index,
  eq_ℤ_iff d.offset c.offset,
  keyed l d e,
)

module _ (files : Map FileMetadata) (chunks : Map ChunkMetadata) (t : IsChunked chunks) where
  insert-IsChunked :
      (pending : Map ChunkMetadata) (c : ChunkMetadata)
      → IsChunked pending
      → IsPlaced c
      → any_value (clashes c) pending ≡ false
      → IsChunked (insert c.id c pending)
  insert-IsChunked pending c p placed free = record {
    is_map = IsMap-insert c.id c pending p.is_map;
    keyed = λ k b e. elim (insert-cases c.id k c b pending e) [
      | inl (at, new) ↦ ap (λ (x : ChunkMetadata). x.id) new ∙ sym at
      | inr (_, old) ↦ p.keyed k b old
    ];
    placed = λ k b e. elim (insert-cases c.id k c b pending e) [
      | inl (at, new) ↦ subst IsPlaced (sym new) placed
      | inr (_, old) ↦ p.placed k b old
    ];
    distinct = λ k l b d e g q. elim (insert-cases c.id k c b pending e) [
      | inl (at, new) ↦ elim (insert-cases c.id l c d pending g) [
        | inl (at', _) ↦ at ∙ sym at'
        | inr (_, old) ↦
            at ∙ clashes-false pending c d l p.keyed free old (subst (λ x. SamePlace x d) new q)
      ]
      | inr (_, old) ↦ elim (insert-cases c.id l c d pending g) [
        | inl (at, new) ↦
            sym (
              clashes-false pending c b k p.keyed free old
                (subst (λ x. SamePlace x b) new (SamePlace-symm b d q)))
            ∙ sym at
        | inr (_, old') ↦ p.distinct k l b d old old' q
      ]
    ];
  }

  insert-Apart :
      (pending : Map ChunkMetadata) (c : ChunkMetadata)
      → Apart pending chunks
      → any_value (clashes c) chunks ≡ false
      → Apart (insert c.id c pending) chunks
  insert-Apart pending c p free k l b d e g q = elim (insert-cases c.id k c b pending e) [
    | inl (at, new) ↦
        at ∙ clashes-false chunks c d l t.keyed free g (subst (λ x. SamePlace x d) new q)
    | inr (_, old) ↦ p k l b d old g q
  ]

  pub collect-IsChunked :
      (pending : Map ChunkMetadata) (cs : List ChunkMetadata) {result : Map ChunkMetadata}
      → IsChunked pending
      → Apart pending chunks
      → collect files chunks pending cs ≡ ok result
      → IsChunked result × Apart result chunks
  unfolding collect
  collect-IsChunked pending [] p a h = subst (λ x. IsChunked x × Apart x chunks) (same_ok h) (p, a)
  collect-IsChunked pending (c ∷ cs) p a h =
      elim (Result-cases (check_chunk files chunks pending c)) [
        | inr (e, g) ↦ absurd (err-ne-ok (rw g at h))
        | inl (u, g) ↦
            let (placed, free, free') = check_chunk-ok files chunks pending c g in
            collect-IsChunked (insert c.id c pending) cs (insert-IsChunked pending c p placed free')
              (insert-Apart pending c a free) (rw g at h)
      ]

-- The last chunk of the batch with this id.
abbrev pub latest : String → List ChunkMetadata → Option ChunkMetadata
latest k [] = none
latest k (c ∷ cs) = elim (latest k cs) [
  | some d ↦ some d
  | none ↦ if c.id == k then some c else none
]

abbrev pub or_else : Option ChunkMetadata → Option ChunkMetadata → Option ChunkMetadata
or_else (some d) o = some d
or_else none o = o

pub collect-latest :
    (files : Map FileMetadata) (chunks pending : Map ChunkMetadata) (cs : List ChunkMetadata)
    (k : String) {result : Map ChunkMetadata}
    → collect files chunks pending cs ≡ ok result
    → lookup k result ≡ or_else (latest k cs) (lookup k pending)
unfolding collect
collect-latest files chunks pending [] k h = ap (lookup k) (sym (same_ok h))
collect-latest files chunks pending (c ∷ cs) k h =
    elim (Result-cases (check_chunk files chunks pending c)) [
      | inr (e, g) ↦ absurd (err-ne-ok (rw g at h))
      | inl (u, g) ↦
          collect-latest files chunks (insert c.id c pending) cs k (rw g at h)
          ∙ ground (arith, lookup-insert c.id k c pending)
    ]
