-- ===== src/Store/Tx/Atomic.antt =====
-- `InTx` of internal/mds/store/memory_tx.go: the callback's writes and its errors.
use astra_storage.Base.{◌≡◌, refl, ◌⊎◌, inl, inr}
use astra_storage.Store.State.{MemoryState, Outcome, ok, err, StoreError, Result-cases}
use astra_storage.Store.Tx.{in_tx, on_tx, commit_tx, finish_tx}

-- A callback that works on its transaction runs as a whole or not at all: the repository is left as
-- the callback leaves its snapshot if it succeeds, and as it was if the callback fails, with the
-- same result.
pub in_tx_atomic :
    (f : MemoryState → Outcome (Unit {0})) (s : MemoryState)
    → (((f s).1 ≡ ok tt) × (in_tx (on_tx f) s ≡ ((f s).0, ok tt)))
      ⊎ ((e : StoreError) × ((f s).1 ≡ err e) × (in_tx (on_tx f) s ≡ (s, err e)))
unfolding in_tx finish_tx commit_tx
in_tx_atomic f s = elim (Result-cases (f s).1) [
  | inl (tt, h) ↦ inl (h, rw h refl)
  | inr (e, h) ↦ inr (e, h, rw h refl)
]

pub committed :
    (f : MemoryState → Outcome (Unit {0})) (s t : MemoryState)
    → f s ≡ (t, ok tt)
    → in_tx (on_tx f) s ≡ (t, ok tt)
unfolding in_tx finish_tx commit_tx
committed f s t h = rw h refl

pub rolled_back :
    (f : MemoryState → Outcome (Unit {0})) (s t : MemoryState) (e : StoreError)
    → f s ≡ (t, err e)
    → in_tx (on_tx f) s ≡ (s, err e)
unfolding in_tx finish_tx commit_tx
rolled_back f s t e h = rw h refl
