-- ===== src/Coordinator/Supervisor/Single.antt =====
-- The starts and stops of internal/mds/coordinator/supervisor.go: whose loops run.
use astra_storage.Base.{
  ℕ, suc, ◌≡◌, ◌⊎◌, refl, sym, subst, ◌∙◌, inl, inr, List, Option, none, some, arith, ap, eq_ℕ,
  Bool-cases, Option-cases,
}
use astra_storage.Base.Int.{ℤ}
use astra_storage.Coordinator.Supervisor.{
  Supervisor, LeaderLoop, Phase, unborn, running, closed, Caller, idle, starting, stopping, World,
  wait_for, call_cancel, start_leading, spawn_loops, stop_leading, end_loops, IsReceived, Step,
  start, spawn, stop, stopped, finish, Reaches, begin, then,
}

-- The loops that may run: the last start's, or those that the caller waits for.
abbrev held : Caller → Option ℕ → Option ℕ
held idle o = o
held (starting w n) o = w
held (stopping w) o = w

record IsLed (w : World) : Type 0 where
  pub paired : w.supervisor.cancel ≡ w.supervisor.done
  pub only_held : (g : ℕ) → w.phase g ≡ running → held w.caller w.supervisor.done ≡ some g
  pub own : (o : Option ℕ) (n : ℕ) → w.caller ≡ starting o n → w.supervisor.done ≡ some n
  pub left : (o : Option ℕ) → w.caller ≡ stopping o → w.supervisor.done ≡ none
  pub begun : (g : ℕ) → held w.caller w.supervisor.done ≡ some g → w.phase g ≡ unborn → ⊥

Phase-cases : (p : Phase) → (p ≡ unborn) ⊎ ((p ≡ running) ⊎ (p ≡ closed))
Phase-cases unborn = inl refl
Phase-cases running = inr (inl refl)
Phase-cases closed = inr (inr refl)

wait_for-done : (s : Supervisor) → s.cancel ≡ s.done → wait_for s ≡ s.done
wait_for-done s h = elim (Option-cases s.cancel) [
  | inl e ↦ rw e (sym e ∙ h)
  | inr (c, e) ↦ rw e refl
]

abbrev started : World → ℤ → World
started w term = record w {
  supervisor = record w.supervisor { cancel = some w.next; done = some w.next; term = term };
  next = suc w.next;
  cancelled = call_cancel w.supervisor.cancel w.cancelled;
  caller = starting (wait_for w.supervisor) w.next;
}

start_leading-cases :
    (w : World) (term : ℤ) → (start_leading w term ≡ w) ⊎ (start_leading w term ≡ started w term)
unfolding start_leading
start_leading-cases w term = ground arith

start_leading-IsLed :
    (w : World) (term : ℤ) → w.caller ≡ idle → IsLed w → IsLed (start_leading w term)
start_leading-IsLed w term h l = elim (start_leading-cases w term) [
  | inl same ↦ rw same l
  | inr made ↦ rw made (
      let waits : (g : ℕ)
          → wait_for w.supervisor ≡ some g
          → held w.caller w.supervisor.done ≡ some g =
        λ g e. rw h (sym (wait_for-done w.supervisor l.paired) ∙ e) in
      record {
        paired = refl;
        only_held = λ g e.
            wait_for-done w.supervisor l.paired
            ∙ subst (λ c. held c w.supervisor.done ≡ some g) h (l.only_held g e);
        own = λ o n e. cc;
        left = λ o e. absurd cc;
        begun = λ g e u. l.begun g (waits g e) u;
      })
]

spawn_loops-IsLed :
    (w : World) (o : Option ℕ) (n : ℕ)
    → w.caller ≡ starting o n
    → IsReceived w o
    → IsLed w
    → IsLed (spawn_loops w n)
unfolding spawn_loops
spawn_loops-IsLed w o n h r l =
    let mine : w.supervisor.done ≡ some n = l.own o n h in
    record {
      paired = l.paired;
      only_held = λ g e. elim (Bool-cases (eq_ℕ g n)) [
        | inl t ↦ mine ∙ ap some (ground arith)
        | inr t ↦
            let runs : w.phase g ≡ running = ground arith in
            let waited : o ≡ some g =
              subst (λ c. held c w.supervisor.done ≡ some g) h (l.only_held g runs) in
            let ended : w.phase g ≡ closed = r g waited in absurd cc
      ];
      own = λ o' n' e. absurd cc;
      left = λ o' e. absurd cc;
      begun = λ g e u. let same : g ≡ n = cc in ground arith;
    }

stop_leading-IsLed : (w : World) → w.caller ≡ idle → IsLed w → IsLed (stop_leading w)
unfolding stop_leading
stop_leading-IsLed w h l = record {
  paired = refl;
  only_held = λ g e. subst (λ c. held c w.supervisor.done ≡ some g) h (l.only_held g e);
  own = λ o n e. absurd cc;
  left = λ o e. refl;
  begun = λ g e u. l.begun g (rw h e) u;
}

none_running :
    (w : World) (o : Option ℕ)
    → w.caller ≡ stopping o
    → IsReceived w o
    → IsLed w
    → (g : ℕ) → w.phase g ≡ running
    → ⊥
none_running w o h r l g e =
    let waited : o ≡ some g = subst (λ c. held c w.supervisor.done ≡ some g) h (l.only_held g e) in
    let ended : w.phase g ≡ closed = r g waited in absurd cc

stopped-IsLed :
    (w : World) (o : Option ℕ)
    → w.caller ≡ stopping o
    → IsReceived w o
    → IsLed w
    → IsLed (record w { caller = idle })
stopped-IsLed w o h r l = record {
  paired = l.paired;
  only_held = λ g e. absurd (none_running w o h r l g e);
  own = λ o' n e. absurd cc;
  left = λ o' e. absurd cc;
  begun = λ g e u. let gone : w.supervisor.done ≡ none = l.left o h in absurd cc;
}

end_loops-IsLed : (w : World) (n : ℕ) → IsLed w → IsLed (end_loops w n)
unfolding end_loops
end_loops-IsLed w n l = record {
  paired = l.paired;
  only_held = λ g e. l.only_held g (ground arith);
  own = l.own;
  left = l.left;
  begun = λ g e u. l.begun g e (ground arith);
}

Step-IsLed : (w v : World) → Step w v → IsLed w → IsLed v
Step-IsLed w v (start term h) l = start_leading-IsLed w term h l
Step-IsLed w v (spawn o n h r) l = spawn_loops-IsLed w o n h r l
Step-IsLed w v (stop h) l = stop_leading-IsLed w h l
Step-IsLed w v (stopped o h r) l = stopped-IsLed w o h r l
Step-IsLed w v (finish n h) l = end_loops-IsLed w n l

reached-IsLed : (ls : List (Option LeaderLoop)) (w : World) → Reaches ls w → IsLed w
reached-IsLed ls w begin = record {
  paired = refl;
  only_held = λ g e. absurd cc;
  own = λ o n e. absurd cc;
  left = λ o e. refl;
  begun = λ g e u. absurd cc;
}
reached-IsLed ls w (then {w = v} r s) = Step-IsLed v w s (reached-IsLed ls v r)

-- While the loops of one start run, the loops of no other start run.
pub leading_once :
    (ls : List (Option LeaderLoop)) (w : World) (g h : ℕ)
    → Reaches ls w
    → w.phase g ≡ running
    → (g ≡ h → ⊥)
    → ¬ (w.phase h ≡ running)
leading_once ls w g h r a other b =
    let l : IsLed w = reached-IsLed ls w r in
    let one : some g ≡ some h = sym (l.only_held g a) ∙ l.only_held h b in other cc

-- Where a stop has received what it waits for, so that it can return, no loops run.
pub stop_leading_ends :
    (ls : List (Option LeaderLoop)) (w : World) (o : Option ℕ)
    → Reaches ls w
    → w.caller ≡ stopping o
    → IsReceived w o
    → (g : ℕ) → ¬ (w.phase g ≡ running)
stop_leading_ends ls w o r h c = none_running w o h c (reached-IsLed ls w r)

-- A call that waits for a channel waits for loops that were begun: they run, or the channel is
-- closed.
pub waiting_for_begun :
    (ls : List (Option LeaderLoop)) (w : World) (g : ℕ)
    → Reaches ls w
    → ((n : ℕ) × (w.caller ≡ starting (some g) n)) ⊎ (w.caller ≡ stopping (some g))
    → (w.phase g ≡ running) ⊎ (w.phase g ≡ closed)
waiting_for_begun ls w g r k =
    let l : IsLed w = reached-IsLed ls w r in
    let waited : held w.caller w.supervisor.done ≡ some g = elim k [
      | inl (n, e) ↦ rw e refl
      | inr e ↦ rw e refl
    ] in
    elim (Phase-cases (w.phase g)) [ inl u ↦ absurd (l.begun g waited u) | inr rest ↦ rest ]
