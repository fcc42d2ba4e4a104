-- ===== src/Store/Node/Laws.antt =====
-- The storage nodes of internal/mds/store/memory_node.go: ids and the signs of the sizes.
use astra_storage.Base.{
  String, ◌≡◌, refl, sym, subst, ◌⊎◌, inl, inr, true, List, [], ◌∷◌, some, arith, Option-cases,
}
use astra_storage.Base.Int.{pos, ◌≤ℤ◌}
use astra_storage.Base.Map.{Map, lookup, insert, values_where, IsMap}
use astra_storage.Base.Map.Loops.{values_where-mem}
use astra_storage.Base.Slice.{sort_slice, text_lt}
use astra_storage.Base.Slice.Sorted.{Mem, All-at, Mem-apply_list_window, Mem-sort_slice_from}
use astra_storage.Base.Map.Laws.{insert-cases}
use astra_storage.Metadata.Object.{NodeInfo}
use astra_storage.Store.State.{MemoryState}
use astra_storage.Store.Requests.{NodeFilter, NodeHeartbeatPatch}
use astra_storage.Store.Node.{
  list_nodes, node_passes, upsert_node, update_node_heartbeat, heartbeaten,
}

pub record IsSized (k : String) (n : NodeInfo) : Type 0 where
  pub keyed : n.id ≡ k
  pub capacity_nonneg : pos 0 ≤ℤ n.capacity
  pub used_nonneg : pos 0 ≤ℤ n.used

abbrev pub AllSized : Map NodeInfo → Type 0
AllSized m = (k : String) (n : NodeInfo) → lookup k m ≡ some n → IsSized k n

-- A listed node is a stored one.
pub list_nodes-stored :
    (s : MemoryState) (q : NodeFilter) (n : NodeInfo)
    → IsMap s.nodes
    → Mem n (list_nodes s q)
    → (k : String) × (lookup k s.nodes ≡ some n)
unfolding list_nodes
list_nodes-stored s q n i h =
    let listed : Mem n (values_where (node_passes q) s.nodes) =
      Mem-sort_slice_from (λ a b. text_lt a.id b.id) (values_where (node_passes q) s.nodes) n
        (Mem-apply_list_window
          (sort_slice (λ a b. text_lt a.id b.id) (values_where (node_passes q) s.nodes)) q.limit
          q.offset n h) in
    let (k, e, p) =
      All-at (λ v. (k : String) × (lookup k s.nodes ≡ some v) × (node_passes q v ≡ true))
        (values_where (node_passes q) s.nodes) n (values_where-mem (node_passes q) s.nodes i)
        listed in
    (k, e)

pub data NodeCall : Type 0 where
  upsert : NodeInfo → NodeCall
  heartbeat : NodeHeartbeatPatch → NodeCall

pub after_node_call : MemoryState → NodeCall → MemoryState
after_node_call s (upsert n) = (upsert_node s n).0
after_node_call s (heartbeat h) = (update_node_heartbeat s h).0

pub run_node_calls : MemoryState → List NodeCall → MemoryState
run_node_calls s [] = s
run_node_calls s (c ∷ cs) = run_node_calls (after_node_call s c) cs

pub insert-AllSized :
    (m : Map NodeInfo) (x : String) (n' : NodeInfo)
    → AllSized m
    → IsSized x n'
    → AllSized (insert x n' m)
insert-AllSized m x n' t z k n e = elim (insert-cases x k n' n m e) [
  | inl (at, new) ↦ subst (λ y. IsSized y n) (sym at) (subst (IsSized x) (sym new) z)
  | inr (_, old) ↦ t k n old
]

pub upsert_node-cases :
    (s : MemoryState) (n : NodeInfo)
    → ((upsert_node s n).0 ≡ s)
      ⊎ ((pos 0 ≤ℤ n.capacity)
          × (pos 0 ≤ℤ n.used)
          × ((upsert_node s n).0 ≡ record s { nodes = insert n.id n s.nodes }))
unfolding upsert_node
upsert_node-cases s n = ground arith

update_node_heartbeat-cases :
    (s : MemoryState) (h : NodeHeartbeatPatch) (n : NodeInfo)
    → lookup h.node_id s.nodes ≡ some n
    → ((update_node_heartbeat s h).0 ≡ s)
      ⊎ ((pos 0 ≤ℤ h.capacity)
          × (pos 0 ≤ℤ h.used)
          × ((update_node_heartbeat s h).0
              ≡ record s { nodes = insert h.node_id (heartbeaten h n) s.nodes }))
unfolding update_node_heartbeat
update_node_heartbeat-cases s h n e = ground arith

pub update_node_heartbeat-AllSized :
    (s : MemoryState) (h : NodeHeartbeatPatch)
    → AllSized s.nodes
    → AllSized (update_node_heartbeat s h).0.nodes
update_node_heartbeat-AllSized s h t = elim (Option-cases (lookup h.node_id s.nodes)) [
  | inl e ↦ unfold update_node_heartbeat in rw e t
  | inr (n, e) ↦ elim (update_node_heartbeat-cases s h n e) [
    | inl same ↦ rw same t
    | inr (a, b, done) ↦ rw done (
        insert-AllSized s.nodes h.node_id (heartbeaten h n) t
          (record { keyed = (t h.node_id n e).keyed; capacity_nonneg = a; used_nonneg = b }))
  ]
]

pub upsert_node-AllSized :
    (s : MemoryState) (n : NodeInfo) → AllSized s.nodes → AllSized (upsert_node s n).0.nodes
upsert_node-AllSized s n t = elim (upsert_node-cases s n) [
  | inl same ↦ rw same t
  | inr (a, b, done) ↦ rw done (
      insert-AllSized s.nodes n.id n t
        (record { keyed = refl; capacity_nonneg = a; used_nonneg = b }))
]

pub after_node_call-AllSized :
    (s : MemoryState) (c : NodeCall) → AllSized s.nodes → AllSized (after_node_call s c).nodes
unfolding after_node_call
after_node_call-AllSized s (upsert n) t = upsert_node-AllSized s n t
after_node_call-AllSized s (heartbeat h) t = update_node_heartbeat-AllSized s h t

-- After any calls, each refused or not, every node is stored under its id with a capacity and a
-- used size that are not negative, if it was so before.
pub run_node_calls-AllSized :
    (s : MemoryState) (cs : List NodeCall) → AllSized s.nodes → AllSized (run_node_calls s cs).nodes
unfolding run_node_calls
run_node_calls-AllSized s [] t = t
run_node_calls-AllSized s (c ∷ cs) t =
    run_node_calls-AllSized (after_node_call s c) cs (after_node_call-AllSized s c t)
