-- ===== src/Coordinator/Repairer/Source.antt =====
-- internal/mds/coordinator/repairer.go: which node a chunk is copied from, and to which.
use astra_storage.Base.{
  Bool, false, not, ◌&&◌, ◌==◌, List, [], ◌∷◌, Option, none, some, if◌then◌else◌, ◌⊎◌, inl, inr,
}
use astra_storage.Base.Map.{Map, lookup}
use astra_storage.Base.Slice.{sort_slice, text_lt}
use astra_storage.Base.Text.{is_blank}
use astra_storage.Metadata.Object.{NodeId, NodeInfo}
use astra_storage.Metadata.Chunk.{ChunkMetadata}
use astra_storage.Metadata.Replica.{
  ReplicaMetadata, ReplicaSet, replica_role_primary, replica_state_ready, replica_state_pending,
}
use astra_storage.Metadata.Plan.{ReplicaPlan}
use astra_storage.Coordinator.{node_index}
use astra_storage.Coordinator.Repairer.Copy.{RepairError, no_source}

-- The nodes whose replica passes a test, in the order of the map.
unfoldable pub nodes_with : (NodeId → ReplicaMetadata → Bool) → ReplicaSet → List NodeId
nodes_with p [] = []
nodes_with p ((id, r) ∷ m) = let rest = nodes_with p m in if p id r then id ∷ rest else rest

abbrev pub is_ready : NodeId → ReplicaMetadata → Bool
is_ready id r = r.state == replica_state_ready

abbrev pub is_pending : NodeId → ReplicaMetadata → Bool
is_pending id r = r.state == replica_state_pending

-- The variable `primary` after the loop, from its value before.
unfoldable pub last_primary : NodeId → ReplicaSet → NodeId
last_primary id [] = id
last_primary id ((k, r) ∷ m) =
    last_primary
      (if r.state == replica_state_ready && r.role == replica_role_primary then k else id) m

abbrev pub sorted_ids : List NodeId → List NodeId
sorted_ids = sort_slice text_lt

abbrev pub first_id : List NodeId → NodeId
first_id [] = ""
first_id (id ∷ ids) = id

unfoldable pub repair_source : ReplicaSet → NodeId
repair_source m =
    if not (last_primary "" m == "")
    then last_primary "" m
    else first_id (sorted_ids (nodes_with is_ready m))

unfoldable pub select_repair_targets : ReplicaSet → NodeId × List NodeId
select_repair_targets m = (repair_source m, sorted_ids (nodes_with is_pending m))

-- The node is stored, healthy and has an address.
abbrev pub is_usable : Option NodeInfo → Bool
is_usable none = false
is_usable (some n) = n.healthy && not (is_blank n.address)

abbrev pub is_ready? : Option ReplicaMetadata → Bool
is_ready? none = false
is_ready? (some r) = r.state == replica_state_ready

abbrev pub can_copy : ReplicaPlan → Map NodeInfo → NodeId → ReplicaMetadata → Bool
can_copy plan nodes id r =
    not (id == plan.target_node_id) && r.state == replica_state_ready && is_usable (lookup id nodes)

abbrev pub first_source : List NodeId → RepairError ⊎ NodeId
first_source [] = inl no_source
first_source (id ∷ ids) = inr id

unfoldable pub select_replica_copy_source :
    ReplicaPlan → ChunkMetadata → List NodeInfo → RepairError ⊎ NodeId
select_replica_copy_source plan chunk nodes =
    if is_ready? (lookup plan.source_node_id chunk.replicas)
      && is_usable (lookup plan.source_node_id (node_index nodes))
    then inr plan.source_node_id
    else first_source (sorted_ids (nodes_with (can_copy plan (node_index nodes)) chunk.replicas))
