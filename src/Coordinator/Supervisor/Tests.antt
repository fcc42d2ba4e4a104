-- ===== src/Coordinator/Supervisor/Tests.antt =====
-- Runs of internal/mds/coordinator/supervisor.go.
use astra_storage.Base.{◌≡◌, refl, arith, ◌⊎◌, inl, List, [], ◌∷◌, Option, none, some, true}
use astra_storage.Base.Int.{pos}
use astra_storage.Coordinator.Supervisor.{
  LeaderLoop, running, closed, starting, World, new_world, start_leading, spawn_loops, stop_leading,
  end_loops, present, start, spawn, stop, finish, Reaches, begin, then,
}
use astra_storage.Coordinator.Supervisor.Single.{leading_once, stop_leading_ends, waiting_for_begun}

abbrev given : List (Option LeaderLoop)
given = some "failover" ∷ none ∷ some "cleanup" ∷ []

given_present : present given ≡ "failover" ∷ "cleanup" ∷ []
unfolding present
given_present = refl

no_loops_no_start : (start_leading (new_world (none ∷ [])) (pos 5)).next ≡ 0
unfolding start_leading present
no_loops_no_start = refl

abbrev leading : World
leading = spawn_loops (start_leading (new_world given) (pos 5)) 0

leading-Reaches : Reaches given leading
unfolding start_leading present
leading-Reaches = then (then begin (start (pos 5) refl)) (spawn none 0 refl (λ g e. absurd cc))

abbrev again : World
again = start_leading leading (pos 6)

again-Reaches : Reaches given again
unfolding spawn_loops
again-Reaches = then leading-Reaches (start (pos 6) refl)

again_cancels : (again.cancelled 0 ≡ true) × (again.caller ≡ starting (some 0) 1)
unfolding start_leading spawn_loops present
again_cancels = (refl, refl)

abbrev taken_over : World
taken_over = spawn_loops (end_loops again 0) 1

taken_over-Reaches : Reaches given taken_over
unfolding start_leading spawn_loops end_loops present
taken_over-Reaches =
    then (then again-Reaches (finish 0 refl))
      (spawn (some 0) 1 refl (λ g e. let same : g ≡ 0 = cc in rw same refl))

leading_once_example : ¬ (taken_over.phase 0 ≡ running)
unfolding start_leading spawn_loops end_loops present
leading_once_example =
    leading_once given taken_over 1 0 taken_over-Reaches refl (λ e. absurd (omega arith))

waiting_for_begun_example : (again.phase 0 ≡ running) ⊎ (again.phase 0 ≡ closed)
unfolding start_leading spawn_loops present
waiting_for_begun_example = waiting_for_begun given again 0 again-Reaches (inl (1, refl))

abbrev ending : World
ending = end_loops (stop_leading leading) 0

ending-Reaches : Reaches given ending
unfolding start_leading spawn_loops stop_leading present
ending-Reaches = then (then leading-Reaches (stop refl)) (finish 0 refl)

stop_leading_ends_example : ¬ (ending.phase 0 ≡ running)
unfolding start_leading spawn_loops stop_leading end_loops present
stop_leading_ends_example =
    stop_leading_ends given ending (some 0) ending-Reaches refl
      (λ g e. let same : g ≡ 0 = cc in rw same refl) 0
