-- ===== src/Store/Tx/Interleaved.antt =====
-- Transactions of internal/mds/store/memory_tx.go in any order of their calls.
use astra_storage.Base.{
  String, ◌≡◌, ◌≢◌, refl, sym, subst, ◌∙◌, false, ◌==◌, List, [], ◌∷◌, ◌++◌, some, Option-cases,
  Bool-cases, inl, inr, All, test-of-ne, ne-of-test, eq_iff, if◌then◌else◌,
}
use astra_storage.Base.Map.{Map, lookup, insert}
use astra_storage.Base.Map.Laws.{lookup-insert, lookup-insert_self}
use astra_storage.Store.State.{MemoryState, Outcome}
use astra_storage.Store.Tx.{
  MemoryTx, TxSystem, TxCall, begins, writes, commits, rolls_back, after_tx_call, run_tx_calls,
  step_tx, begin_tx, commit_tx, tx_of,
}

-- The call makes no write visible.
abbrev pub IsPrivate : TxCall → Type 0
IsPrivate (commits id) = ⊥
IsPrivate c = Unit

private-step : (y : TxSystem) (c : TxCall) → IsPrivate c → (after_tx_call y c).repo ≡ y.repo
unfolding after_tx_call step_tx
private-step y (begins id) h = refl
private-step y (writes id f) h = elim (Option-cases (lookup id y.txs)) [
  | inl e ↦ rw (e, after_tx_call) refl
  | inr (tx, e) ↦ rw (e, after_tx_call) refl
]
private-step y (commits id) h = elim h [ ]
private-step y (rolls_back id) h = elim (Option-cases (lookup id y.txs)) [
  | inl e ↦ rw (e, after_tx_call) refl
  | inr (tx, e) ↦ rw (e, after_tx_call) refl
]

-- Until a transaction commits, nothing that any transaction writes is seen in the repository.
pub run_tx_calls-isolated :
    (y : TxSystem) (cs : List TxCall) → All IsPrivate cs → (run_tx_calls y cs).repo ≡ y.repo
unfolding run_tx_calls
run_tx_calls-isolated y [] h = refl
run_tx_calls-isolated y (c ∷ cs) h =
    run_tx_calls-isolated (after_tx_call y c) cs h.1 ∙ private-step y c h.0

-- The call neither begins nor ends the transaction `b`.
abbrev pub LeavesOpen : String → TxCall → Type 0
LeavesOpen b (begins id) = id ≢ b
LeavesOpen b (writes id f) = Unit
LeavesOpen b (commits id) = id ≢ b
LeavesOpen b (rolls_back id) = id ≢ b

-- What the writes of the transaction `b` alone make of tables, in their order.
unfoldable pub own_writes : String → List TxCall → MemoryState → MemoryState
own_writes b [] s = s
own_writes b (writes id f ∷ cs) s = own_writes b cs (if id == b then (f s).0 else s)
own_writes b (begins id ∷ cs) s = own_writes b cs s
own_writes b (commits id ∷ cs) s = own_writes b cs s
own_writes b (rolls_back id ∷ cs) s = own_writes b cs s

at_other :
    (a b : String) (tx : MemoryTx) (m : Map MemoryTx)
    → a ≢ b
    → lookup b (insert a tx m) ≡ lookup b m
at_other a b tx m h = lookup-insert a b tx m ∙ rw (test-of-ne a b h) refl

-- A call on another transaction leaves this one alone.
other-kept :
    (y : TxSystem) (b : String) (c : TxCall)
    → tx_of c ≢ b
    → lookup b (after_tx_call y c).txs ≡ lookup b y.txs
unfolding after_tx_call step_tx
other-kept y b (begins id) d = at_other id b (begin_tx y.repo) y.txs d
other-kept y b (writes id f) d = elim (Option-cases (lookup id y.txs)) [
  | inl e ↦ rw (e, after_tx_call) refl
  | inr (tx, e) ↦ rw (e, after_tx_call) (at_other id b _ y.txs d)
]
other-kept y b (commits id) d = elim (Option-cases (lookup id y.txs)) [
  | inl e ↦ rw (e, after_tx_call) refl
  | inr (tx, e) ↦ rw (e, after_tx_call) (at_other id b _ y.txs d)
]
other-kept y b (rolls_back id) d = elim (Option-cases (lookup id y.txs)) [
  | inl e ↦ rw (e, after_tx_call) refl
  | inr (tx, e) ↦ rw (e, after_tx_call) (at_other id b _ y.txs d)
]

abbrev open_at : MemoryState → MemoryTx
open_at s = record { state = s; closed = false }

own-write :
    (y : TxSystem) (b : String) (s : MemoryState) (f : MemoryState → Outcome (Unit {0}))
    → lookup b y.txs ≡ some (open_at s)
    → lookup b (after_tx_call y (writes b f)).txs ≡ some (open_at (f s).0)
unfolding after_tx_call step_tx
own-write y b s f e = rw (e, after_tx_call) (lookup-insert_self b _ y.txs)

own-commit :
    (y : TxSystem) (b : String) (s : MemoryState)
    → lookup b y.txs ≡ some (open_at s)
    → (after_tx_call y (commits b)).repo ≡ s
unfolding after_tx_call step_tx commit_tx
own-commit y b s e = rw (e, after_tx_call) refl

open_run :
    (b : String) (cs : List TxCall) (y : TxSystem) (s : MemoryState)
    → All (LeavesOpen b) cs
    → lookup b y.txs ≡ some (open_at s)
    → (run_tx_calls y (cs ++ commits b ∷ [])).repo ≡ own_writes b cs s
unfolding run_tx_calls own_writes
open_run b [] y s h e = own-commit y b s e
open_run b (begins id ∷ cs) y s h e =
    open_run b cs (after_tx_call y (begins id)) s h.1 (other-kept y b (begins id) h.0 ∙ e)
open_run b (commits id ∷ cs) y s h e =
    open_run b cs (after_tx_call y (commits id)) s h.1 (other-kept y b (commits id) h.0 ∙ e)
open_run b (rolls_back id ∷ cs) y s h e =
    open_run b cs (after_tx_call y (rolls_back id)) s h.1 (other-kept y b (rolls_back id) h.0 ∙ e)
open_run b (writes id f ∷ cs) y s h e = elim (Bool-cases (id == b)) [
  | inl t ↦ rw t (
      open_run b cs (after_tx_call y (writes id f)) (f s).0 h.1 (
        subst (λ x. lookup b (after_tx_call y (writes x f)).txs ≡ some (open_at (f s).0))
          (sym ((eq_iff id b).0 t)) (own-write y b s f e)))
  | inr t ↦ rw t (
      open_run b cs (after_tx_call y (writes id f)) s h.1
        (other-kept y b (writes id f) (ne-of-test id b t) ∙ e))
]

-- After a transaction begins, makes any writes, and commits, the tables are what its own writes make
-- of those it began on: whatever other transactions write and commit in between is lost. The calls in
-- between are any but ones that begin or end this transaction.
pub run_tx_calls_last_wins :
    (y : TxSystem) (b : String) (cs : List TxCall)
    → All (LeavesOpen b) cs
    → (run_tx_calls y (begins b ∷ cs ++ commits b ∷ [])).repo ≡ own_writes b cs y.repo
unfolding run_tx_calls after_tx_call
run_tx_calls_last_wins y b cs h =
    open_run b cs (after_tx_call y (begins b)) y.repo h
      (lookup-insert_self b (begin_tx y.repo) y.txs)
