-- ===== src/Allocator/Best.antt =====
-- internal/mds/allocator.go: the selected nodes and the candidates that are passed over.
use astra_storage.Base.{
  String, ◌≡◌, refl, sym, ap, ◌∙◌, subst, ◌⊎◌, inl, inr, Bool, true, false, ◌==◌, List, [], ◌∷◌,
  none, arith, length, All, Bool-cases, ◌≤◌, ◌+◌, ◌-◌,
}
use astra_storage.Base.Int.{
  ℤ, pos, negsuc, pos_part, ◌≤ℤ◌, ◌<ℤ◌, leb_ℤ, IsInt64, sub64, sub_ℕ, wrap64_of_IsInt64,
}
use astra_storage.Base.Map.{Map, lookup}
use astra_storage.Base.Text.{is_blank}
use astra_storage.Base.Slice.{sort_slice}
use astra_storage.Base.Slice.Sorted.{
  Mem, Mem-take, length-take_le, Mem-sort_slice_from, Mem-sort_slice_to, Descends,
  sort_slice-Descends, take-best,
}
use astra_storage.Metadata.Object.{NodeInfo}
use astra_storage.Metadata.Replica.{ReplicaMetadata}
use astra_storage.Metadata.Chunk.{ChunkMetadata}
use astra_storage.Allocator.{
  PlacementRequest, available_capacity, accepts, filter, goes_before, select_placement_targets,
  build_replica_exclusion_set,
}

-- A node that may take the replica: it is healthy, has an address and is not excluded, its sizes
-- are ones, and what is left of its capacity is not 0 and is at least what is asked for.
pub record IsEligible (req : PlacementRequest) (n : NodeInfo) : Type 0 where
  pub healthy : n.healthy ≡ true
  pub reachable : is_blank n.address ≡ false
  pub allowed : lookup n.id req.excluded ≡ none
  pub used_nonneg : pos 0 ≤ℤ n.used
  pub has_room : n.used <ℤ n.capacity
  pub fits : pos_part req.required_bytes + pos_part n.used ≤ pos_part n.capacity

sub64-exact :
    (a b : ℤ) → IsInt64 a → pos 0 ≤ℤ b → b ≤ℤ a → sub64 a b ≡ pos (pos_part a - pos_part b)
sub64-exact (pos a) (pos b) i n l =
    wrap64_of_IsInt64 (sub_ℕ (a + 0) (0 + b)) (ground arith) ∙ ground arith
sub64-exact (pos a) (negsuc b) i n l = ground arith
sub64-exact (negsuc a) (pos b) i n l = ground arith
sub64-exact (negsuc a) (negsuc b) i n l = ground arith

accepts-sizes :
    (req : PlacementRequest) (n : NodeInfo)
    → accepts req n ≡ true
    → (pos 0 ≤ℤ n.used) × (n.used ≤ℤ n.capacity)
unfolding accepts
accepts-sizes req n e = ground arith

accepts-IsEligible :
    (req : PlacementRequest) (n : NodeInfo)
    → IsInt64 n.capacity
    → accepts req n ≡ true
    → IsEligible req n
unfolding accepts
accepts-IsEligible req n i e =
    let (u, c) = accepts-sizes req n e in
    let r : sub64 n.capacity n.used ≡ pos (pos_part n.capacity - pos_part n.used) =
      sub64-exact n.capacity n.used i u c in
    ground arith

IsEligible-accepts :
    (req : PlacementRequest) (n : NodeInfo)
    → IsInt64 n.capacity
    → IsEligible req n
    → accepts req n ≡ true
unfolding accepts
IsEligible-accepts req n i e =
    let r : sub64 n.capacity n.used ≡ pos (pos_part n.capacity - pos_part n.used) =
      sub64-exact n.capacity n.used i e.used_nonneg (omega arith) in
    ground arith

Mem-filter_from :
    (p : NodeInfo → Bool) (ns : List NodeInfo) (a : NodeInfo)
    → Mem a (filter p ns)
    → Mem a ns × (p a ≡ true)
unfolding filter
Mem-filter_from p [] a h = elim h [ ]
Mem-filter_from p (n ∷ ns) a h = elim (Bool-cases (p n)) [
  | inl t ↦ elim (rw t at h) [
    | inl e ↦ (inl e, ap p e ∙ t)
    | inr m ↦ (inr (Mem-filter_from p ns a m).0, (Mem-filter_from p ns a m).1)
  ]
  | inr t ↦ (inr (Mem-filter_from p ns a (rw t at h)).0, (Mem-filter_from p ns a (rw t at h)).1)
]

Mem-filter_to :
    (p : NodeInfo → Bool) (ns : List NodeInfo) (a : NodeInfo)
    → Mem a ns
    → p a ≡ true
    → Mem a (filter p ns)
unfolding filter
Mem-filter_to p [] a h e = h
Mem-filter_to p (n ∷ ns) a (inl s) e = rw (ap p (sym s) ∙ e) (inl s)
Mem-filter_to p (n ∷ ns) a (inr m) e = elim (Bool-cases (p n)) [
  | inl t ↦ rw t (inr (Mem-filter_to p ns a m e))
  | inr t ↦ rw t (Mem-filter_to p ns a m e)
]

-- The first node has at least the room of the second.
abbrev pub AtLeast : NodeInfo → NodeInfo → Type 0
AtLeast a b = available_capacity b ≤ℤ available_capacity a

goes_before-AtLeast : (a b : NodeInfo) → goes_before a b ≡ true → AtLeast a b
unfolding goes_before
goes_before-AtLeast a b e = ground arith

goes_before_else : (a b : NodeInfo) → goes_before a b ≡ false → AtLeast b a
unfolding goes_before
goes_before_else a b e = ground arith

ranked : PlacementRequest → List NodeInfo
ranked req = sort_slice goes_before (filter (accepts req) req.candidates)

ranked-Descends : (req : PlacementRequest) → Descends AtLeast (ranked req)
unfolding ranked
ranked-Descends req =
    sort_slice-Descends AtLeast (λ a b c g h. omega arith) goes_before goes_before-AtLeast
      goes_before_else (filter (accepts req) req.candidates)

listed :
    (req : PlacementRequest) (n : NodeInfo)
    → Mem n (select_placement_targets req)
    → Mem n req.candidates × (accepts req n ≡ true)
unfolding select_placement_targets
listed req n h = elim (Bool-cases (leb_ℤ req.count (pos 0))) [
  | inl t ↦ elim (rw t at h) [ ]
  | inr t ↦ Mem-filter_from (accepts req) req.candidates n (
      Mem-sort_slice_from goes_before (filter (accepts req) req.candidates) n
        (Mem-take (pos_part req.count) _ n (rw t at h)))
]

pub select_placement_targets-Mem :
    (req : PlacementRequest) (n : NodeInfo)
    → Mem n (select_placement_targets req)
    → Mem n req.candidates
select_placement_targets-Mem req n h = (listed req n h).0

-- Every target with an int64 capacity is one of the candidates and may take the replica.
pub select_placement_targets-IsEligible :
    (req : PlacementRequest) (n : NodeInfo)
    → IsInt64 n.capacity
    → Mem n (select_placement_targets req)
    → Mem n req.candidates × IsEligible req n
select_placement_targets-IsEligible req n i h =
    let (m, e) = listed req n h in (m, accepts-IsEligible req n i e)

-- No better candidate is passed over: for a positive count, each candidate that may take the
-- replica is offered, or the list is full and every node of it has at least as much room left. The
-- list is never longer than the count.
pub select_placement_targets-best :
    (req : PlacementRequest) (n : NodeInfo)
    → IsInt64 n.capacity
    → pos 0 <ℤ req.count
    → Mem n req.candidates
    → IsEligible req n
    → (length (select_placement_targets req) ≤ pos_part req.count)
      × (Mem n (select_placement_targets req)
          ⊎ ((length (select_placement_targets req) ≡ pos_part req.count)
              × All (λ x. AtLeast x n) (select_placement_targets req)))
unfolding select_placement_targets ranked
select_placement_targets-best req n i c m e =
    let t : leb_ℤ req.count (pos 0) ≡ false = ground arith in
    rw t (
      length-take_le (pos_part req.count) (ranked req),
      take-best AtLeast (pos_part req.count) (ranked req) n (ranked-Descends req) (
          Mem-sort_slice_to goes_before (filter (accepts req) req.candidates) n
            (Mem-filter_to (accepts req) req.candidates n m (IsEligible-accepts req n i e))),
    )

lookup-exclusion :
    (m : Map ReplicaMetadata) (k : String)
    → lookup k (build_replica_exclusion_set m) ≡ none
    → lookup k m ≡ none
unfolding lookup build_replica_exclusion_set
lookup-exclusion [] k e = refl
lookup-exclusion ((j, r) ∷ m) k e = elim (Bool-cases (j == k)) [
  | inl t ↦ cc (rw t at e)
  | inr t ↦ rw t (lookup-exclusion m k (rw t at e))
]

-- A target with an int64 capacity that is selected with a chunk's exclusion set holds no replica of it.
pub select_placement_targets-new :
    (req : PlacementRequest) (c : ChunkMetadata) (n : NodeInfo)
    → IsInt64 n.capacity
    → req.excluded ≡ build_replica_exclusion_set c.replicas
    → Mem n (select_placement_targets req)
    → lookup n.id c.replicas ≡ none
select_placement_targets-new req c n i e h =
    lookup-exclusion c.replicas n.id (
      subst (λ x. lookup n.id x ≡ none) e (select_placement_targets-IsEligible req n i h).1.allowed)
