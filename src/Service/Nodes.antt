-- ===== src/Service/Nodes.antt =====
-- internal/mds/service_node.go: storage nodes that announce themselves, and the targets of an upload.
-- Reads through the read cache are reads of the repository, as after an invalidation.
use astra_storage.Base.{
  ℕ, String, Bool, true, ◌||◌, ◌&&◌, ◌==◌, Option, some, or_keep, if◌then◌else◌, List, [], ◌∷◌,
  ◌++◌, map,
}
use astra_storage.Base.Int.{ℤ, pos, ltb_ℤ, leb_ℤ}
use astra_storage.Base.Map.{Map}
use astra_storage.Base.Text.{is_blank, trim_space}
use astra_storage.Metadata.Object.{FileId, FileMetadata, NodeId, NodeInfo}
use astra_storage.Store.State.{
  MemoryState, Result, ok, err, invalid_argument, conflict, fail_if, ◌>>=◌, ◌>>◌,
}
use astra_storage.Store.Requests.{file_by_id, NodeHeartbeatPatch, NodeFilter}
use astra_storage.Store.File.{get_file}
use astra_storage.Store.Node.{upsert_node, get_node, update_node_heartbeat, list_nodes}
use astra_storage.Allocator.{select_capacity_aware_nodes}
use astra_storage.Service.Body
use astra_storage.Service.Body.{
  Body, reads, calls, Answer, use_case, ReadModel, invalidate, node_model, healthy_nodes_model,
  request_time,
}

pub record RegisterNodeRequest : Type 0 where
  pub id : NodeId
  pub address : String
  pub rack : String
  pub zone : String
  pub region : String
  pub labels : Map String
  pub capacity : ℤ
  pub used : ℤ
  pub healthy : Bool
  pub last_seen_at : Option ℕ
  pub updated_at : ℕ

abbrev pub bad_usage : ℤ → ℤ → Bool
bad_usage capacity used =
    ltb_ℤ capacity (pos 0) || ltb_ℤ used (pos 0) || (ltb_ℤ (pos 0) capacity && ltb_ℤ capacity used)

abbrev pub validate_register_node_request : RegisterNodeRequest → Result (Unit {0})
validate_register_node_request req =
    fail_if (req.id == "" || is_blank req.address || bad_usage req.capacity req.used)
      invalid_argument

abbrev pub registered : RegisterNodeRequest → ℕ → NodeInfo
registered req updated_at = record {
  id = req.id;
  address = trim_space req.address;
  rack = trim_space req.rack;
  zone = trim_space req.zone;
  region = trim_space req.region;
  labels = req.labels;
  capacity = req.capacity;
  used = req.used;
  healthy = req.healthy;
  last_seen_at = some (or_keep req.last_seen_at updated_at);
  updated_at = updated_at;
}

unfoldable pub register_body : RegisterNodeRequest → ℕ → Body NodeInfo
register_body req now =
    Body.◌>>◌ (calls upsert_node (registered req (request_time now req.updated_at)))
      (reads (λ s. get_node s req.id))

abbrev pub node_models : NodeInfo → List ReadModel
node_models n = invalidate node_model n.id ++ healthy_nodes_model ∷ []

unfoldable pub register_node : RegisterNodeRequest → ℕ → MemoryState → Answer NodeInfo
register_node req now =
    use_case (validate_register_node_request req) (register_body req now) node_models

pub record HeartbeatNodeRequest : Type 0 where
  pub node_id : NodeId
  pub healthy : Bool
  pub capacity : ℤ
  pub used : ℤ
  pub last_seen_at : ℕ

abbrev pub validate_heartbeat_node_request : HeartbeatNodeRequest → Result (Unit {0})
validate_heartbeat_node_request req =
    fail_if (req.node_id == "" || bad_usage req.capacity req.used) invalid_argument

abbrev pub heartbeat_patch : HeartbeatNodeRequest → ℕ → NodeHeartbeatPatch
heartbeat_patch req now = record {
  node_id = req.node_id;
  healthy = req.healthy;
  capacity = req.capacity;
  used = req.used;
  last_seen_at = request_time now req.last_seen_at;
}

unfoldable pub heartbeat_body : HeartbeatNodeRequest → ℕ → Body NodeInfo
heartbeat_body req now =
    Body.◌>>◌ (calls update_node_heartbeat (heartbeat_patch req now))
      (reads (λ s. get_node s req.node_id))

unfoldable pub heartbeat_node : HeartbeatNodeRequest → ℕ → MemoryState → Answer NodeInfo
heartbeat_node req now =
    use_case (validate_heartbeat_node_request req) (heartbeat_body req now) node_models

pub record UploadTarget : Type 0 where
  pub node_id : NodeId
  pub address : String

pub record AllocateUploadTargetsRequest : Type 0 where
  pub file_id : FileId
  pub chunk_index : ℤ

pub record AllocateUploadTargetsResponse : Type 0 where
  pub file_id : FileId
  pub chunk_index : ℤ
  pub targets : List UploadTarget

abbrev pub validate_allocate_upload_targets_request :
    AllocateUploadTargetsRequest → Result (Unit {0})
validate_allocate_upload_targets_request req =
    fail_if (req.file_id == "" || ltb_ℤ req.chunk_index (pos 0)) invalid_argument

abbrev pub healthy_filter : NodeFilter
healthy_filter = record {
  ids = [];
  healthy_only = true;
  zone = "";
  rack = "";
  labels = [];
  limit = pos 0;
  offset = pos 0;
}

abbrev pub list_healthy_nodes : MemoryState → List NodeInfo
list_healthy_nodes s = list_nodes s healthy_filter

abbrev pub target_count : FileMetadata → ℤ
target_count file =
    if leb_ℤ file.replica_policy.desired_replica_count (pos 0)
    then pos 1
    else file.replica_policy.desired_replica_count

abbrev pub upload_target : NodeInfo → UploadTarget
upload_target n = record { node_id = n.id; address = n.address }

abbrev pub upload_targets : List NodeInfo → Result (List UploadTarget)
upload_targets [] = err conflict
upload_targets (n ∷ ns) = ok (map upload_target (n ∷ ns))

unfoldable pub allocate_upload_targets :
    MemoryState → AllocateUploadTargetsRequest → Result AllocateUploadTargetsResponse
allocate_upload_targets s req = do
  validate_allocate_upload_targets_request req
  file ← get_file s (file_by_id req.file_id)
  targets ← upload_targets (
      select_capacity_aware_nodes
        (record { candidates = list_healthy_nodes s; excluded = []; count = target_count file }))
  ok (record { file_id = file.id; chunk_index = req.chunk_index; targets = targets })
