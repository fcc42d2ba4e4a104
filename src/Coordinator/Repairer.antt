-- ===== src/Coordinator/Repairer.antt =====
-- internal/mds/coordinator/repairer.go: the back-off of repair targets. The table of next attempts is
-- the state, and the mutex makes each function one step. A back-off is positive by construction.
pub mod Backoff
pub mod Copy
pub mod Source
pub mod Loop
pub mod Upserts
pub mod Reports
pub mod CopyTests
pub mod Attempts
pub mod Asked
pub mod Limit
pub mod Tests
use astra_storage.Base.{
  ℕ, suc, ◌+◌, String, Bool, true, false, List, [], ◌∷◌, Option, none, some, ltb,
}
use astra_storage.Base.Int.{ℤ, pos, eq_ℤ}
use astra_storage.Base.Map.{Map, lookup, insert, erase}
use astra_storage.Base.Text.{◌++◌}
use astra_storage.Metadata.Object.{ChunkId, NodeId}

abbrev pub repair_target_key : ChunkId → NodeId → String
repair_target_key chunk_id node_id = chunk_id ++ "::" ++ node_id

abbrev pub is_after : Option ℕ → ℕ → Bool
is_after none now = false
is_after (some next) now = ltb now next

-- `taken` is the number of targets taken so far.
unfoldable pub take_due : Map ℕ → ChunkId → ℤ → ℕ → ℕ → List NodeId → List NodeId
take_due m chunk_id limit now taken [] = []
take_due m chunk_id limit now taken (n ∷ ns) = elim (eq_ℤ (pos taken) limit) [
  | true ↦ []
  | false ↦ elim (is_after (lookup (repair_target_key chunk_id n) m) now) [
    | true ↦ take_due m chunk_id limit now taken ns
    | false ↦ n ∷ take_due m chunk_id limit now (suc taken) ns
  ]
]

unfoldable pub select_due_targets : Map ℕ → ChunkId → List NodeId → ℤ → ℕ → List NodeId
select_due_targets m chunk_id node_ids limit now = take_due m chunk_id limit now 0 node_ids

unfoldable pub set_attempts : Map ℕ → ChunkId → ℕ → List NodeId → Map ℕ
set_attempts m chunk_id retry_at [] = m
set_attempts m chunk_id retry_at (n ∷ ns) =
    set_attempts (insert (repair_target_key chunk_id n) retry_at m) chunk_id retry_at ns

unfoldable pub defer_targets : Map ℕ → ℕ → ChunkId → List NodeId → ℕ → Map ℕ
defer_targets m retry_backoff chunk_id node_ids now =
    set_attempts m chunk_id (now + retry_backoff) node_ids

unfoldable pub clear_retry : Map ℕ → ChunkId → NodeId → Map ℕ
clear_retry m chunk_id node_id = erase (repair_target_key chunk_id node_id) m
