-- ===== src/Service/Upload/Coverage.antt =====
-- The coverage check of internal/mds/service_upload.go: which bytes of a file are in its chunks.
use astra_storage.Base.{
  ℕ, ◌+◌, ◌*◌, ◌^◌, ◌≤◌, ◌<◌, ◌≡◌, refl, sym, subst, ◌∙◌, ap, inl, inr, Bool, true, false, not,
  ◌&&◌, List, [], ◌∷◌, arith, length, All, Bool-cases, ltb,
}
use astra_storage.Base.Int.{
  ℤ, pos, negsuc, ◌≤ℤ◌, ◌<ℤ◌, eq_ℤ, eq_ℤ_iff, ltb_ℤ, add64, sub_ℕ, wrap64_of_IsInt64, wrap64,
}
use astra_storage.Base.Slice.Sorted.{Mem}
use astra_storage.Metadata.Object.{fixed_chunk_size_bytes}
use astra_storage.Metadata.Chunk.{ChunkMetadata}
use astra_storage.Store.State.{ok, conflict, same_ok, passed}
use astra_storage.Store.Chunk.Batch.{IsPlaced}
use astra_storage.Service.Upload.{
  check_coverage, check_readable, is_unreadable, has_more, checksum_ready, healthy_replica_count,
}

-- The chunk has the byte at this position of the file.
pub record HoldsByte (c : ChunkMetadata) (x : ℕ) : Type 0 where
  pub start : ℕ
  pub length : ℕ
  pub starts_at : c.offset ≡ pos start
  pub sized : c.size ≡ pos length
  pub begun : start ≤ x
  pub within : x < start + length

pub size-pos :
    (z : ℤ) → pos 0 ≤ℤ z → z ≤ℤ fixed_chunk_size_bytes → (n : ℕ) × (z ≡ pos n) × (n ≤ 4194304)
size-pos (pos n) a b = (n, refl, omega arith)
size-pos (negsuc n) a b = absurd (omega arith)

add64-pos : (a b : ℕ) → a + b < 2 ^ 63 → add64 (pos a) (pos b) ≡ pos (a + b)
add64-pos a b h =
    let same : sub_ℕ (a + b) (0 + 0) ≡ pos (a + b) = ground arith in
    ap wrap64 same ∙ wrap64_of_IsInt64 (pos (a + b)) (omega arith)

pub not-false : (b : Bool) → not b ≡ false → b ≡ true
not-false true h = refl
not-false false h = absurd (cc)

-- One round of the loop.
check_coverage-step :
    (next end : ℤ) (c : ChunkMetadata) (cs : List ChunkMetadata)
    → check_coverage next (c ∷ cs) ≡ ok end
    → (c.offset ≡ next)
      × (is_unreadable c ≡ false)
      × (check_coverage (add64 next c.size) cs ≡ ok end)
unfolding check_coverage
check_coverage-step next end c cs h =
    let (here, h1) = passed (not (eq_ℤ c.offset next)) conflict _ h in
    let (sized, h2) =
      passed (has_more cs && not (eq_ℤ c.size fixed_chunk_size_bytes)) conflict _ h1 in
    let (readable, h3) = passed (is_unreadable c) conflict _ h2 in
    ((eq_ℤ_iff c.offset next).0 (not-false (eq_ℤ c.offset next) here), readable, h3)

check_coverage-end : (next end : ℤ) → check_coverage next [] ≡ ok end → end ≡ next
unfolding check_coverage
check_coverage-end next end h = sym (same_ok h)

pub check_coverage-holds :
    (cs : List ChunkMetadata) (at : ℕ) (end : ℤ) (x : ℕ)
    → All IsPlaced cs
    → at + 4194304 * length cs < 2 ^ 63
    → check_coverage (pos at) cs ≡ ok end
    → at ≤ x
    → pos x <ℤ end
    → (c : ChunkMetadata) × Mem c cs × HoldsByte c x × (is_unreadable c ≡ false)
check_coverage-holds [] at end x p b h l g = absurd (
    let at_end : pos x <ℤ pos at = subst (λ z. pos x <ℤ z) (check_coverage-end (pos at) end h) g in
    omega arith)
check_coverage-holds (c ∷ cs) at end x p b h l g =
    let (n, sz, bound) = size-pos c.size p.0.nonneg p.0.bounded in
    let (here, readable, rest) = check_coverage-step (pos at) end c cs h in
    let next : add64 (pos at) c.size ≡ pos (at + n) = rw sz (add64-pos at n (omega arith)) in
    elim (Bool-cases (ltb x (at + n))) [
      | inl t ↦ (
        c,
        inl refl,
        record {
          start = at;
          length = n;
          starts_at = here;
          sized = sz;
          begun = l;
          within = ground arith;
        },
        readable,
      )
      | inr t ↦
          let (d, m, holds, ok') =
            check_coverage-holds cs (at + n) end x p.1 (omega arith)
              (subst (λ z. check_coverage z cs ≡ ok end) next rest) (ground arith) g in
          (d, inr m, holds, ok')
    ]

-- What the second loop makes sure of for each chunk.
pub check_readable-holds :
    (required : ℤ) (cs : List ChunkMetadata) (c : ChunkMetadata) {a : Unit {0}}
    → check_readable required cs ≡ ok a
    → Mem c cs
    → (checksum_ready c.checksum ≡ true) × (required ≤ℤ pos (healthy_replica_count c.replicas))
unfolding check_readable
check_readable-holds required [] c h m = absurd m
check_readable-holds required (d ∷ cs) c h m =
    let (ready, h1) = passed (not (checksum_ready d.checksum)) conflict _ h in
    let (many, h2) =
      passed (ltb_ℤ (pos (healthy_replica_count d.replicas)) required) conflict _ h1 in
    elim m [
      | inl e ↦ rw e (not-false (checksum_ready d.checksum) ready, ground arith)
      | inr later ↦ check_readable-holds required cs c h2 later
    ]
