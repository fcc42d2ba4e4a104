-- ===== src/Service/Body.antt =====
-- The callbacks that internal/mds/service*.go gives to `InTx`: calls on the transaction one after the
-- other, ended by the first error; and what surrounds the transaction in each use case.
pub mod Keeps
pub mod Runs
pub mod Ends
use astra_storage.Base.{ℕ, String, Bool, List, [], ◌∷◌, if◌then◌else◌, eq_ℕ, ◌==◌}
use astra_storage.Metadata.Inode.{InodeId}
use astra_storage.Metadata.Object.{FileId, NodeId}
use astra_storage.Store.State.{MemoryState, Outcome, Result, ok, err, StoreError, fail_if}
use astra_storage.Store.Tx.{in_tx, on_tx}

abbrev pub Body : Type 0 → Type 0
Body A = MemoryState → Outcome A

abbrev pub continue : {A B : Type 0} → Outcome A → (A → Body B) → Outcome B
continue (s, err why) next = (s, err why)
continue (s, ok a) next = next a s

infixl 5 ◌>>=◌ ◌>>◌
unfoldable pub ◌>>=◌ : {A B : Type 0} → Body A → (A → Body B) → Body B
◌>>=◌ first next s = continue (first s) next

abbrev pub ◌>>◌ : {B : Type 0} → Body (Unit {0}) → Body B → Body B
first >> next = first >>= λ done. next

unfoldable pub gives : {A : Type 0} → A → Body A
gives a s = (s, ok a)

-- A call that reads.
unfoldable pub reads : {A : Type 0} → (MemoryState → Result A) → Body A
reads f s = (s, f s)

-- A computation beside the transaction that can fail.
unfoldable pub checks : {A : Type 0} → Result A → Body A
checks r s = (s, r)

unfoldable pub refuse_if : Bool → StoreError → Body (Unit {0})
refuse_if b why s = (s, fail_if b why)

-- A call that writes.
unfoldable pub calls : {A P : Type 0} → (MemoryState → P → Outcome A) → P → Body A
calls op p s = op s p

unfoldable pub for_each : {X : Type 0} → List X → (X → Body (Unit {0})) → Body (Unit {0})
unfolding gives ◌>>=◌
for_each [] f = gives tt
for_each (x ∷ xs) f = f x >> for_each xs f

abbrev pub forget : {A : Type 0} → Outcome A → Outcome (Unit {0})
forget (s, ok a) = (s, ok tt)
forget (s, err why) = (s, err why)

abbrev pub with_result : {A : Type 0} → Outcome (Unit {0}) → Result A → Outcome A
with_result (s, ok a) r = (s, r)
with_result (s, err why) r = (s, err why)

-- `InTx` with a callback that also sets the variable which the use case returns.
unfoldable pub transact : {A : Type 0} → Body A → MemoryState → Outcome A
transact body s = with_result (in_tx (on_tx (λ t. forget (body t))) s) (body s).1

-- What a use case drops from the read cache, where one is set; the cache's errors are ignored.
pub data ReadModel : Type 0 where
  file_model : FileId → ReadModel
  directory_model : InodeId → ReadModel
  node_model : NodeId → ReadModel
  healthy_nodes_model : ReadModel

-- An empty id is not passed to the cache.
abbrev pub invalidate : (String → ReadModel) → String → List ReadModel
invalidate model id = if id == "" then [] else model id ∷ []

abbrev pub Answer : Type 0 → Type 0
Answer A = Outcome A × List ReadModel

abbrev pub invalidated : {A : Type 0} → Result A → (A → List ReadModel) → List ReadModel
invalidated (err why) models = []
invalidated (ok a) models = models a

-- A use case: the request's check, the transaction, and the read models that it drops if it succeeds.
unfoldable pub use_case :
    {A : Type 0} → Result (Unit {0}) → Body A → (A → List ReadModel) → MemoryState → Answer A
use_case (err why) body models s = ((s, err why), [])
use_case (ok done) body models s = (transact body s, invalidated (transact body s).1 models)

-- `t.IsZero()` is the year 1.
abbrev pub request_time : ℕ → ℕ → ℕ
request_time now t = if eq_ℕ t 0 then now else t
