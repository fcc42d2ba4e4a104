-- ===== src/Allocator/Tests.antt =====
-- Runs of the selection on concrete nodes.
use astra_storage.Base.{[], ◌∷◌, none, ◌≡◌, refl, inl, inr, ◌⊎◌, arith, ◌≤◌, length, All}
use astra_storage.Base.Int.{pos, wrap64}
use astra_storage.Base.Map.{lookup}
use astra_storage.Base.Text.{is_blank}
use astra_storage.Base.Slice.{sort_slice}
use astra_storage.Base.Slice.Sorted.{Mem}
use astra_storage.Metadata.Chunk.{ChunkMetadata}
use astra_storage.Allocator.{
  PlacementRequest, select_placement_targets, accepts, filter, goes_before,
  build_replica_exclusion_set,
}
use astra_storage.Allocator.Best.{
  IsEligible, AtLeast, select_placement_targets-IsEligible, select_placement_targets-best,
  select_placement_targets-new,
}
use astra_storage.Store.Fixtures.{node, chunk}

abbrev first : ChunkMetadata
first = chunk "c0" (pos 0) (pos 0) (pos 4194304)

abbrev request : PlacementRequest
request = record {
  candidates =
      node "n1" (pos 9000000) (pos 0)
      ∷ node "n2" (pos 9000000) (pos 4000000)
      ∷ node "n3" (pos 9000000) (pos 1000000)
      ∷ node "n4" (pos 5000000) (pos 1000000)
      ∷ [];
  excluded = build_replica_exclusion_set first.replicas;
  required_bytes = pos 4194304;
  count = pos 1;
}

most_room : select_placement_targets request ≡ node "n3" (pos 9000000) (pos 1000000) ∷ []
unfolding select_placement_targets accepts filter goes_before lookup is_blank
    build_replica_exclusion_set wrap64 sort_slice
most_room = refl

selected : Mem (node "n3" (pos 9000000) (pos 1000000)) (select_placement_targets request)
selected = rw most_room (inl refl)

select_placement_targets-IsEligible_example :
    Mem (node "n3" (pos 9000000) (pos 1000000)) request.candidates
    × IsEligible request (node "n3" (pos 9000000) (pos 1000000))
select_placement_targets-IsEligible_example =
    select_placement_targets-IsEligible request (node "n3" (pos 9000000) (pos 1000000))
      (omega arith) selected

n2-IsEligible : IsEligible request (node "n2" (pos 9000000) (pos 4000000))
unfolding lookup is_blank build_replica_exclusion_set
n2-IsEligible = record {
  healthy = refl;
  reachable = refl;
  allowed = refl;
  used_nonneg = omega arith;
  has_room = omega arith;
  fits = omega arith;
}

select_placement_targets-best_example :
    (length (select_placement_targets request) ≤ 1)
    × (Mem (node "n2" (pos 9000000) (pos 4000000)) (select_placement_targets request)
        ⊎ ((length (select_placement_targets request) ≡ 1)
            × All
                (λ x. AtLeast x (node "n2" (pos 9000000) (pos 4000000)))
                (select_placement_targets request)))
select_placement_targets-best_example =
    select_placement_targets-best request (node "n2" (pos 9000000) (pos 4000000)) (omega arith)
      (omega arith) (inr (inl refl)) n2-IsEligible

select_placement_targets-new_example : lookup "n3" first.replicas ≡ none
select_placement_targets-new_example =
    select_placement_targets-new request first (node "n3" (pos 9000000) (pos 1000000)) (omega arith)
      refl selected
