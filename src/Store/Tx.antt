-- ===== src/Store/Tx.antt =====
-- internal/mds/store/memory_tx.go: transactions on a snapshot of the tables.
-- A deep copy of the tables is the value itself. Each call is one step, as the mutex makes it.
pub mod Atomic
pub mod Interleaved
pub mod Tests
use astra_storage.Base.{
  ℕ, String, Bool, true, false, List, [], ◌∷◌, Option, none, some, if◌then◌else◌,
}
use astra_storage.Base.Map.{Map, lookup, insert}
use astra_storage.Store.State.{MemoryState, Outcome, Result, ok, err, conflict}

pub record MemoryTx : Type 0 where
  pub state : MemoryState
  pub closed : Bool

abbrev pub begin_tx : MemoryState → MemoryTx
begin_tx repo = record { state = repo; closed = false }

-- The repository, the transaction, and the result of the call.
abbrev pub TxOutcome : Type 0
TxOutcome = (MemoryState × MemoryTx) × Result (Unit {0})

unfoldable pub commit_tx : MemoryState → MemoryTx → TxOutcome
commit_tx repo tx =
    if tx.closed
    then ((repo, tx), err conflict)
    else ((tx.state, record tx { closed = true }), ok tt)

unfoldable pub rollback_tx : MemoryTx → MemoryTx × Result (Unit {0})
rollback_tx tx = if tx.closed then (tx, err conflict) else (record tx { closed = true }, ok tt)

-- The callback may use the transaction and, beside it, the repository.
abbrev pub TxBody : Type 0
TxBody = MemoryState → MemoryTx → TxOutcome

-- An operation of the transaction works on its snapshot, also when it is closed.
abbrev pub on_tx : (MemoryState → Outcome (Unit {0})) → TxBody
on_tx f repo tx = ((repo, record tx { state = (f tx.state).0 }), (f tx.state).1)

-- The end of `InTx`: the result of a rollback is dropped.
finish_tx : TxOutcome → Outcome (Unit {0})
finish_tx ((repo, tx), err e) = (repo, err e)
finish_tx ((repo, tx), ok a) = ((commit_tx repo tx).0.0, (commit_tx repo tx).1)

unfoldable pub in_tx : TxBody → MemoryState → Outcome (Unit {0})
unfolding finish_tx
in_tx body repo = finish_tx (body repo (begin_tx repo))

-- The calls on a repository and on the transactions that are open on it, by name.
pub data TxCall : Type 0 where
  begins : String → TxCall
  writes : String → (MemoryState → Outcome (Unit {0})) → TxCall
  commits : String → TxCall
  rolls_back : String → TxCall

pub record TxSystem : Type 0 where
  pub repo : MemoryState
  pub txs : Map MemoryTx

abbrev pub with_tx : TxSystem → String → MemoryTx → TxSystem
with_tx y id tx = record y { txs = insert id tx y.txs }

unfoldable pub step_tx : TxSystem → String → MemoryTx → TxCall → TxSystem
step_tx y id tx (begins _) = y
step_tx y id tx (writes _ f) = record {
  repo = (on_tx f y.repo tx).0.0;
  txs = insert id (on_tx f y.repo tx).0.1 y.txs;
}
step_tx y id tx (commits _) = record {
  repo = (commit_tx y.repo tx).0.0;
  txs = insert id (commit_tx y.repo tx).0.1 y.txs;
}
step_tx y id tx (rolls_back _) = with_tx y id (rollback_tx tx).0

abbrev pub tx_of : TxCall → String
tx_of (begins id) = id
tx_of (writes id f) = id
tx_of (commits id) = id
tx_of (rolls_back id) = id

-- A call on a transaction that is not there does nothing.
unfoldable pub after_tx_call : TxSystem → TxCall → TxSystem
after_tx_call y (begins id) = with_tx y id (begin_tx y.repo)
after_tx_call y c = elim (lookup (tx_of c) y.txs) [ none ↦ y | some tx ↦ step_tx y (tx_of c) tx c ]

unfoldable pub run_tx_calls : TxSystem → List TxCall → TxSystem
run_tx_calls y [] = y
run_tx_calls y (c ∷ cs) = run_tx_calls (after_tx_call y c) cs
