-- ===== src/Store/Plan/Tests.antt =====
-- Runs of the plan operations on concrete plans.
use astra_storage.Base.{List, [], ◌∷◌, none, some, ◌≡◌, refl}
use astra_storage.Base.Map.{lookup, insert, any_value}
use astra_storage.Base.Map.Laws.{none-ne-some}
use astra_storage.Base.Text.{is_blank}
use astra_storage.Metadata.Plan.{replica_plan_state_done}
use astra_storage.Store.State.{MemoryState, new_memory_state, err, already_exists}
use astra_storage.Store.Requests.{ReplicaPlanPatch}
use astra_storage.Store.Plan.{create_replica_plan, with_plan, is_terminal}
use astra_storage.Store.Plan.Laws.{
  IsScheduled, PlanCall, create, update, delete, run_plan_calls, AllKeepFinished,
  run_plan_calls-IsScheduled,
}
use astra_storage.Store.Fixtures.{plan}

abbrev planned : MemoryState
planned = with_plan new_memory_state "p1" (plan "p1" "n2")

second_plan_refused :
    create_replica_plan planned (some (plan "p2" "n2")) ≡ (planned, err already_exists)
unfolding create_replica_plan insert lookup any_value is_terminal is_blank
second_plan_refused = refl

pub IsScheduled-empty : IsScheduled []
unfolding lookup
IsScheduled-empty = record {
  keyed = λ k p e. absurd (none-ne-some e);
  moves = λ k p e. absurd (none-ne-some e);
  one_job = λ k l p q e. absurd (none-ne-some e);
}

abbrev to_done : ReplicaPlanPatch
to_done = record {
  id = "p1";
  state = some replica_plan_state_done;
  last_error_code = none;
  last_error_message = none;
  retry_count = none;
  next_retry_at = none;
  completed_at = none;
  updated_at = 9;
}

abbrev calls : List PlanCall
calls =
    create (some (plan "p1" "n2"))
    ∷ create (some (plan "p2" "n2"))
    ∷ update to_done
    ∷ create (some (plan "p2" "n2"))
    ∷ delete "p1"
    ∷ []

calls-AllKeepFinished : AllKeepFinished new_memory_state calls
unfolding is_terminal
calls-AllKeepFinished = (tt, (tt, ((λ p e t. refl), (tt, (tt, tt)))))

run_plan_calls-IsScheduled_example :
    IsScheduled (run_plan_calls new_memory_state calls).replica_plans
run_plan_calls-IsScheduled_example =
    run_plan_calls-IsScheduled new_memory_state calls IsScheduled-empty calls-AllKeepFinished
