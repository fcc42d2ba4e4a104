-- ===== src/Coordinator/Repairer/Tests.antt =====
-- Runs of the back-off of internal/mds/coordinator/repairer.go.
use astra_storage.Base.{◌≡◌, refl, arith, ℕ, ◌≤◌, List, [], ◌∷◌, inl, false, length, All}
use astra_storage.Base.Int.{pos}
use astra_storage.Base.Map.{Map, lookup, insert, erase}
use astra_storage.Base.Slice.Sorted.{Mem}
use astra_storage.Metadata.Object.{NodeId}
use astra_storage.Coordinator.Repairer.{
  repair_target_key, is_after, take_due, select_due_targets, set_attempts, defer_targets,
  clear_retry,
}
use astra_storage.Coordinator.Repairer.Backoff.{select_due_targets-due, defer_targets_waits}

abbrev no_attempts : Map ℕ
no_attempts = []

abbrev asked : List NodeId
asked = "n1" ∷ "n2" ∷ "n3" ∷ []

abbrev deferred : Map ℕ
deferred = defer_targets no_attempts 30 "c1" ("n1" ∷ []) 100

skips_deferred : select_due_targets deferred "c1" asked (pos 1) 129 ≡ "n2" ∷ []
unfolding select_due_targets defer_targets take_due set_attempts lookup insert
skips_deferred = refl

due_again : select_due_targets deferred "c1" asked (pos 2) 130 ≡ "n1" ∷ "n2" ∷ []
unfolding select_due_targets defer_targets take_due set_attempts lookup insert
due_again = refl

cleared : select_due_targets (clear_retry deferred "c1" "n1") "c1" asked (pos 1) 101 ≡ "n1" ∷ []
unfolding select_due_targets defer_targets take_due set_attempts clear_retry lookup insert erase
cleared = refl

due_within :
    (length (select_due_targets deferred "c1" asked (pos 1) 129) ≤ 1)
    × All
        (λ n. Mem n asked × (is_after (lookup (repair_target_key "c1" n) deferred) 129 ≡ false))
        (select_due_targets deferred "c1" asked (pos 1) 129)
due_within = select_due_targets-due deferred "c1" asked 1 129

defer_targets_waits_example : ¬ Mem "n1" (select_due_targets deferred "c1" asked (pos 2) 129)
defer_targets_waits_example =
    defer_targets_waits no_attempts 30 "c1" ("n1" ∷ []) asked 100 129 (pos 2) "n1" (inl refl)
      (omega arith)
