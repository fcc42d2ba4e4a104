-- ===== src/Store/Node.antt =====
-- internal/mds/store/memory_node.go: the storage nodes and their heartbeats.
pub mod Laws
pub mod Tests
use astra_storage.Base.{
  String, Bool, true, false, not, ◌&&◌, ◌||◌, ◌==◌, List, Option, none, some, if◌then◌else◌,
}
use astra_storage.Base.Int.{pos, ltb_ℤ}
use astra_storage.Base.Map.{lookup, insert, values_where}
use astra_storage.Base.Slice.{sort_slice, apply_list_window, text_lt}
use astra_storage.Metadata.Object.{NodeInfo, NodeId}
use astra_storage.Store.State.{
  MemoryState, Outcome, Result, ok, err, not_found, invalid_argument, ◌>>=◌, ◌>>◌, fail_if, commit,
}
use astra_storage.Store.Requests.{NodeFilter, NodeHeartbeatPatch}
use astra_storage.Store.Select.{or_error, has_labels}
use astra_storage.Store.File.{skips, skips_list}

unfoldable pub upsert_node : MemoryState → NodeInfo → Outcome (Unit {0})
upsert_node s n = commit s do
  fail_if (n.id == "") invalid_argument
  fail_if (ltb_ℤ n.capacity (pos 0) || ltb_ℤ n.used (pos 0)) invalid_argument
  ok (record s { nodes = insert n.id n s.nodes }, tt)

unfoldable pub get_node : MemoryState → NodeId → Result NodeInfo
get_node s id = or_error (lookup id s.nodes)

abbrev pub node_passes : NodeFilter → NodeInfo → Bool
node_passes q n = not (
    skips_list q.ids n.id
    || (q.healthy_only && not n.healthy)
    || skips q.zone (n.zone == q.zone)
    || skips q.rack (n.rack == q.rack)
    || not (has_labels n.labels q.labels))

unfoldable pub list_nodes : MemoryState → NodeFilter → List NodeInfo
list_nodes s q =
    apply_list_window (sort_slice (λ a b. text_lt a.id b.id) (values_where (node_passes q) s.nodes))
      q.limit q.offset

abbrev pub heartbeaten : NodeHeartbeatPatch → NodeInfo → NodeInfo
heartbeaten h n = record n {
  healthy = h.healthy;
  capacity = h.capacity;
  used = h.used;
  last_seen_at = some h.last_seen_at;
  updated_at = h.last_seen_at;
}

unfoldable pub update_node_heartbeat : MemoryState → NodeHeartbeatPatch → Outcome (Unit {0})
update_node_heartbeat s h = commit s do
  n ← or_error (lookup h.node_id s.nodes)
  fail_if (ltb_ℤ h.capacity (pos 0) || ltb_ℤ h.used (pos 0)) invalid_argument
  ok (record s { nodes = insert h.node_id (heartbeaten h n) s.nodes }, tt)
