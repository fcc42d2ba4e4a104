-- ===== src/Coordinator/Supervisor.antt =====
-- internal/mds/coordinator/supervisor.go: the loops of the leader start and stop with leadership.
-- One caller makes the calls one after the other; the loops run and end beside it. Each start makes a
-- new context and a new channel, and a number stands for both. The work up to a receive from the
-- channel of an earlier start is one step, the work after it another. A nil supervisor is left out.
pub mod Single
pub mod Tests
use astra_storage.Base.{
  ℕ, suc, ◌≡◌, String, Bool, true, false, List, [], ◌∷◌, Option, none, some, if◌then◌else◌, eq_ℕ,
}
use astra_storage.Base.Int.{ℤ, pos}

-- A loop is known by a name; what it does is its own planner's model.
abbrev pub LeaderLoop : Type 0
LeaderLoop = String

pub record Supervisor : Type 0 where
  pub loops : List LeaderLoop
  pub cancel : Option ℕ
  pub done : Option ℕ
  pub term : ℤ

unfoldable pub present : List (Option LeaderLoop) → List LeaderLoop
present [] = []
present (none ∷ ls) = present ls
present (some l ∷ ls) = l ∷ present ls

abbrev pub new_supervisor : List (Option LeaderLoop) → Supervisor
new_supervisor ls = record { loops = present ls; cancel = none; done = none; term = pos 0 }

-- The loops of one start: not begun, running until the last of them returns, or ended with the
-- channel closed.
pub data Phase : Type 0 where
  unborn running closed : Phase

-- Where the caller is: between calls, or in a call that waits for the channel `waits_for`. A start
-- that waits has the number of its own loops.
pub data Caller : Type 0 where
  idle : Caller
  starting : Option ℕ → ℕ → Caller
  stopping : Option ℕ → Caller

pub record World : Type 0 where
  pub supervisor : Supervisor
  pub next : ℕ
  pub cancelled : ℕ → Bool
  pub phase : ℕ → Phase
  pub caller : Caller

abbrev pub set_phase : ℕ → Phase → (ℕ → Phase) → ℕ → Phase
set_phase n p f g = if eq_ℕ g n then p else f g

abbrev pub call_cancel : Option ℕ → (ℕ → Bool) → ℕ → Bool
call_cancel none f g = f g
call_cancel (some n) f g = if eq_ℕ g n then true else f g

-- The channel that a start waits for: it is read where there is a context to cancel.
abbrev pub wait_for : Supervisor → Option ℕ
wait_for s = elim s.cancel [ none ↦ none | some c ↦ s.done ]

unfoldable pub start_leading : World → ℤ → World
start_leading w term = elim w.supervisor.loops [
  | [] ↦ w
  | _ ∷ _ ↦ record w {
    supervisor = record w.supervisor { cancel = some w.next; done = some w.next; term = term };
    next = suc w.next;
    cancelled = call_cancel w.supervisor.cancel w.cancelled;
    caller = starting (wait_for w.supervisor) w.next;
  }
]

unfoldable pub spawn_loops : World → ℕ → World
spawn_loops w n = record w { phase = set_phase n running w.phase; caller = idle }

unfoldable pub stop_leading : World → World
stop_leading w = record w {
  supervisor = record w.supervisor { cancel = none; done = none; term = pos 0 };
  cancelled = call_cancel w.supervisor.cancel w.cancelled;
  caller = stopping w.supervisor.done;
}

unfoldable pub end_loops : World → ℕ → World
end_loops w n = record w { phase = set_phase n closed w.phase }

-- A receive from the channel returns: there is none, or it is closed.
abbrev pub IsReceived : World → Option ℕ → Type 0
IsReceived w o = (g : ℕ) → o ≡ some g → w.phase g ≡ closed

pub data Step (w : World) : World → Type 0 where
  start : (term : ℤ) → w.caller ≡ idle → Step w (start_leading w term)
  spawn :
      (o : Option ℕ) (n : ℕ) → w.caller ≡ starting o n → IsReceived w o → Step w (spawn_loops w n)
  stop : w.caller ≡ idle → Step w (stop_leading w)
  stopped :
      (o : Option ℕ) → w.caller ≡ stopping o → IsReceived w o → Step w (record w { caller = idle })
  finish : (n : ℕ) → w.phase n ≡ running → Step w (end_loops w n)

abbrev pub new_world : List (Option LeaderLoop) → World
new_world ls = record {
  supervisor = new_supervisor ls;
  next = 0;
  cancelled = λ g. false;
  phase = λ g. unborn;
  caller = idle;
}

pub data Reaches (ls : List (Option LeaderLoop)) : World → Type 0 where
  begin : Reaches ls (new_world ls)
  then : {w v : World} → Reaches ls w → Step w v → Reaches ls v
