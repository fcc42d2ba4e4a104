-- ===== src/Allocator.antt =====
-- internal/mds/allocator.go: which storage nodes are offered for a new replica.
pub mod Best
pub mod Tests
use astra_storage.Base.{
  String, Bool, true, false, not, ◌&&◌, ◌||◌, ◌==◌, List, [], ◌∷◌, Option, none, some, is_some,
  if◌then◌else◌, ℕ, suc,
}
use astra_storage.Base.Int.{ℤ, pos, eq_ℤ, ltb_ℤ, leb_ℤ, sub64, pos_part}
use astra_storage.Base.Map.{Map, lookup}
use astra_storage.Base.Text.{is_blank}
use astra_storage.Base.Slice.{sort_slice, take, text_lt}
use astra_storage.Metadata.Object.{NodeInfo}
use astra_storage.Metadata.Replica.{ReplicaMetadata, replica_state_ready}
use astra_storage.Metadata.Chunk.{ChunkMetadata}

-- `map[metadata.NodeID]struct{}`
abbrev pub NodeSet : Type 0
NodeSet = Map (Unit {0})

pub record NodeSelectionInput : Type 0 where
  pub candidates : List NodeInfo
  pub excluded : NodeSet
  pub count : ℤ

pub record PlacementRequest : Type 0 where
  pub candidates : List NodeInfo
  pub excluded : NodeSet
  pub required_bytes : ℤ
  pub count : ℤ

abbrev pub available_capacity : NodeInfo → ℤ
available_capacity n = sub64 n.capacity n.used

-- The candidates that the loop does not pass over.
unfoldable pub accepts : PlacementRequest → NodeInfo → Bool
accepts req n = not (
    not n.healthy
    || is_blank n.address
    || is_some (lookup n.id req.excluded)
    || (ltb_ℤ n.capacity (pos 0) || ltb_ℤ n.used (pos 0))
    || ltb_ℤ n.capacity n.used
    || leb_ℤ (available_capacity n) (pos 0)
    || ltb_ℤ (available_capacity n) req.required_bytes)

unfoldable pub filter : (NodeInfo → Bool) → List NodeInfo → List NodeInfo
filter p [] = []
filter p (n ∷ ns) = let rest = filter p ns in if p n then n ∷ rest else rest

-- The comparison of `sort.Slice`: more room first, then the lower id.
unfoldable pub goes_before : NodeInfo → NodeInfo → Bool
goes_before a b =
    if eq_ℤ (available_capacity a) (available_capacity b)
    then text_lt a.id b.id
    else ltb_ℤ (available_capacity b) (available_capacity a)

-- The slice expression `selected[:count]` is met with a count that is at least 1 only.
unfoldable pub select_placement_targets : PlacementRequest → List NodeInfo
select_placement_targets req =
    if leb_ℤ req.count (pos 0)
    then []
    else take (pos_part req.count) (sort_slice goes_before (filter (accepts req) req.candidates))

unfoldable pub select_capacity_aware_nodes : NodeSelectionInput → List NodeInfo
select_capacity_aware_nodes input = select_placement_targets (record {
  candidates = input.candidates;
  excluded = input.excluded;
  required_bytes = pos 0;
  count = input.count;
})

-- The loop over the replicas, from the greatest stored size of a ready replica so far.
unfoldable pub max_ready_stored_size : ℤ → Map ReplicaMetadata → ℤ
max_ready_stored_size best [] = best
max_ready_stored_size best ((k, r) ∷ m) =
    max_ready_stored_size
      (if r.state == replica_state_ready && ltb_ℤ best r.stored_size then r.stored_size else best) m

unfoldable pub required_placement_bytes : ChunkMetadata → ℤ
required_placement_bytes c =
    let best = max_ready_stored_size (pos 0) c.replicas in
    if ltb_ℤ (pos 0) best then best else if ltb_ℤ (pos 0) c.size then c.size else pos 0

-- A ready replica on a node that is known and healthy.
unfoldable pub is_effective : Map NodeInfo → String → ReplicaMetadata → Bool
is_effective nodes k r =
    r.state == replica_state_ready && elim (lookup k nodes) [ none ↦ false | some n ↦ n.healthy ]

unfoldable pub count_effective_ready_replicas : Map ReplicaMetadata → Map NodeInfo → ℕ
count_effective_ready_replicas [] nodes = 0
count_effective_ready_replicas ((k, r) ∷ m) nodes =
    let rest = count_effective_ready_replicas m nodes in
    if is_effective nodes k r then suc rest else rest

unfoldable pub build_replica_exclusion_set : Map ReplicaMetadata → NodeSet
build_replica_exclusion_set [] = []
build_replica_exclusion_set ((k, r) ∷ m) = (k, tt) ∷ build_replica_exclusion_set m
