-- ===== src/Store/Tx/Tests.antt =====
-- Transactions around concrete calls.
use astra_storage.Base.{String, List, [], ◌∷◌, ◌++◌, ◌≡◌, ◌≢◌, ◌⊎◌, arith, eq_iff}
use astra_storage.Base.Int.{pos}
use astra_storage.Store.State.{MemoryState, Outcome, StoreError, new_memory_state, ok, err}
use astra_storage.Store.Node.{upsert_node}
use astra_storage.Store.Tx.{
  TxCall, begins, writes, commits, rolls_back, TxSystem, run_tx_calls, in_tx, on_tx,
}
use astra_storage.Store.Tx.Atomic.{in_tx_atomic}
use astra_storage.Store.Tx.Interleaved.{run_tx_calls-isolated, run_tx_calls_last_wins, own_writes}
use astra_storage.Store.Fixtures.{node}

abbrev joins : String → MemoryState → Outcome (Unit {0})
joins id s = upsert_node s (node id (pos 100) (pos 7))

abbrev idle : TxSystem
idle = record { repo = new_memory_state; txs = [] }

in_tx_atomic_example :
    ((joins "n1" new_memory_state).1 ≡ ok tt
      × (in_tx (on_tx (joins "n1")) new_memory_state ≡ ((joins "n1" new_memory_state).0, ok tt)))
    ⊎ ((e : StoreError) × ((joins "n1" new_memory_state).1 ≡ err e)
        × (in_tx (on_tx (joins "n1")) new_memory_state ≡ (new_memory_state, err e)))
in_tx_atomic_example = in_tx_atomic (joins "n1") new_memory_state

run_tx_calls-isolated_example :
    (run_tx_calls idle
      (begins "a" ∷ writes "a" (joins "n1") ∷ begins "b" ∷ rolls_back "a" ∷ [])).repo
    ≡ new_memory_state
run_tx_calls-isolated_example =
    run_tx_calls-isolated idle
      (begins "a" ∷ writes "a" (joins "n1") ∷ begins "b" ∷ rolls_back "a" ∷ [])
      (tt, (tt, (tt, (tt, tt))))

abbrev between : List TxCall
between =
    begins "a"
    ∷ writes "a" (joins "n1")
    ∷ writes "b" (joins "n2")
    ∷ commits "a"
    ∷ writes "b" (joins "n3")
    ∷ []

run_tx_calls_last_wins_example :
    (run_tx_calls idle (begins "b" ∷ between ++ commits "b" ∷ [])).repo
    ≡ own_writes "b" between new_memory_state
run_tx_calls_last_wins_example =
    run_tx_calls_last_wins idle "b" between (ne, (tt, (tt, (ne, (tt, tt)))))
  where
    ne : ◌≢◌ {A = String} "a" "b"
    ne e = ground (arith, eq_iff "a" "b")
