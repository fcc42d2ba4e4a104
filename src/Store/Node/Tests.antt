-- ===== src/Store/Node/Tests.antt =====
-- Runs of the node operations on concrete nodes.
use astra_storage.Base.{[], ◌∷◌, false, ◌≡◌, refl}
use astra_storage.Base.Int.{pos, negsuc}
use astra_storage.Base.Map.{lookup}
use astra_storage.Base.Map.Laws.{none-ne-some}
use astra_storage.Store.State.{new_memory_state, err, invalid_argument}
use astra_storage.Store.Node.{upsert_node}
use astra_storage.Store.Node.Laws.{
  AllSized, upsert, heartbeat, run_node_calls, run_node_calls-AllSized,
}
use astra_storage.Store.Fixtures.{node}

negative_capacity :
    (upsert_node new_memory_state (node "n1" (negsuc 0) (pos 0))).1 ≡ err invalid_argument
unfolding upsert_node
negative_capacity = refl

AllSized-empty : AllSized []
unfolding lookup
AllSized-empty k n e = absurd (none-ne-some e)

sized_after :
    AllSized
      (run_node_calls new_memory_state (
        upsert (node "n1" (pos 100) (pos 7))
        ∷ heartbeat (record {
          node_id = "n1";
          healthy = false;
          capacity = pos 100;
          used = pos 9;
          last_seen_at = 5;
        })
        ∷ [])).nodes
sized_after =
    run_node_calls-AllSized new_memory_state
      (upsert (node "n1" (pos 100) (pos 7))
        ∷ heartbeat (record {
          node_id = "n1";
          healthy = false;
          capacity = pos 100;
          used = pos 9;
          last_seen_at = 5;
        })
        ∷ [])
      AllSized-empty
