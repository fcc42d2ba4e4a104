-- ===== src/Coordinator/Repairer/Limit.antt =====
-- How many replicas a run of internal/mds/coordinator/repairer.go attempts.
use astra_storage.Base.{ℕ, ◌+◌, ◌≡◌, length}
use astra_storage.Base.Int.{pos}
use astra_storage.Coordinator.Repairer.Loop.{RunState}

-- The limit is what was attempted and what is left of it; and what was attempted was asked for.
record IsWithin (limit before : ℕ) (v : RunState) : Type 0 where
  left : ℕ
  remains : v.remaining ≡ pos left
  adds_up : left + v.total.attempted ≡ limit
  asked : length v.repair.2 ≡ v.total.attempted + before
