-- ===== src/Coordinator/Repairer/Backoff.antt =====
-- `selectDueTargets` and `deferTargets` of internal/mds/coordinator/repairer.go.
use astra_storage.Base.{
  ℕ, suc, ◌+◌, ◌<◌, ◌≤◌, ◌≡◌, refl, subst, ◌⊎◌, String, true, false, List, [], ◌∷◌, some, arith,
  ltb, length, All, Bool-cases, inl, inr, ◌==◌,
}
use astra_storage.Base.Int.{ℤ, pos, eq_ℤ}
use astra_storage.Base.Map.{Map, lookup, insert}
use astra_storage.Base.Map.Laws.{lookup-insert, lookup-insert_self}
use astra_storage.Base.Slice.Sorted.{Mem, All-Mem}
use astra_storage.Metadata.Object.{ChunkId, NodeId}
use astra_storage.Coordinator.Repairer.{
  repair_target_key, is_after, take_due, select_due_targets, set_attempts, defer_targets,
}

set_attempts_kept :
    (m : Map ℕ) (c : ChunkId) (at : ℕ) (ns : List NodeId) (k : String)
    → lookup k m ≡ some at
    → lookup k (set_attempts m c at ns) ≡ some at
unfolding set_attempts
set_attempts_kept m c at [] k h = h
set_attempts_kept m c at (n ∷ ns) k h =
    set_attempts_kept (insert (repair_target_key c n) at m) c at ns k (
      rw (lookup-insert (repair_target_key c n) k at m)
        (elim (Bool-cases (repair_target_key c n == k)) [ inl t ↦ rw t refl | inr t ↦ rw t h ]))

set_attempts-lookup :
    (m : Map ℕ) (c : ChunkId) (at : ℕ) (ns : List NodeId) (n : NodeId)
    → Mem n ns
    → lookup (repair_target_key c n) (set_attempts m c at ns) ≡ some at
unfolding set_attempts
set_attempts-lookup m c at [] n h = absurd h
set_attempts-lookup m c at (n' ∷ ns) n (inl e) =
    set_attempts_kept (insert (repair_target_key c n') at m) c at ns (repair_target_key c n)
      (rw e (lookup-insert_self (repair_target_key c n') at m))
set_attempts-lookup m c at (n' ∷ ns) n (inr h) =
    set_attempts-lookup (insert (repair_target_key c n') at m) c at ns n h

-- One round of the loop: it ends, passes a target over, or takes it.
take_due-cases :
    (m : Map ℕ) (c : ChunkId) (limit : ℤ) (now taken : ℕ) (x : NodeId) (ns : List NodeId)
    → (take_due m c limit now taken (x ∷ ns) ≡ [])
      ⊎ ((take_due m c limit now taken (x ∷ ns) ≡ take_due m c limit now taken ns)
          ⊎ ((eq_ℤ (pos taken) limit ≡ false)
              × (is_after (lookup (repair_target_key c x) m) now ≡ false)
              × (take_due m c limit now taken (x ∷ ns)
                  ≡ x ∷ take_due m c limit now (suc taken) ns)))
unfolding take_due
take_due-cases m c limit now taken x ns = elim (Bool-cases (eq_ℤ (pos taken) limit)) [
  | inl t ↦ inl (rw (take_due, t) refl)
  | inr t ↦ elim (Bool-cases (is_after (lookup (repair_target_key c x) m) now)) [
    | inl a ↦ inr (inl (rw (take_due, t, a) refl))
    | inr a ↦ inr (inr (t, a, rw (take_due, t, a) refl))
  ]
]

take_due-due :
    (m : Map ℕ) (c : ChunkId) (limit : ℤ) (now taken : ℕ) (ns : List NodeId) (n : NodeId)
    → Mem n (take_due m c limit now taken ns)
    → Mem n ns × (is_after (lookup (repair_target_key c n) m) now ≡ false)
unfolding take_due
take_due-due m c limit now taken [] n h = absurd h
take_due-due m c limit now taken (x ∷ ns) n h = elim (take_due-cases m c limit now taken x ns) [
  | inl e ↦ absurd (subst (Mem n) e h)
  | inr (inl e) ↦
      let (listed, due) = take_due-due m c limit now taken ns n (subst (Mem n) e h) in
      (inr listed, due)
  | inr (inr (_, a, e)) ↦ elim (subst (Mem n) e h) [
    | inl same ↦ (inl same, rw same a)
    | inr later ↦
        let (listed, due) = take_due-due m c limit now (suc taken) ns n later in (inr listed, due)
  ]
]

length-take_due :
    (m : Map ℕ) (c : ChunkId) (l now taken : ℕ) (ns : List NodeId)
    → taken ≤ l
    → taken + length (take_due m c (pos l) now taken ns) ≤ l
unfolding take_due
length-take_due m c l now taken [] h = omega arith
length-take_due m c l now taken (x ∷ ns) h = elim (take_due-cases m c (pos l) now taken x ns) [
  | inl e ↦ rw e (omega arith)
  | inr (inl e) ↦ rw e (length-take_due m c l now taken ns h)
  | inr (inr (t, _, e)) ↦
      let room : suc taken ≤ l = ground arith in
      let rest : suc taken + length (take_due m c (pos l) now (suc taken) ns) ≤ l =
        length-take_due m c l now (suc taken) ns room in
      rw e (omega arith)
]

-- For a limit that is not negative, at most as many targets are selected as it says, and each is one
-- of the given and has no next attempt after the time of the run.
pub select_due_targets-due :
    (m : Map ℕ) (c : ChunkId) (ns : List NodeId) (limit now : ℕ)
    → (length (select_due_targets m c ns (pos limit) now) ≤ limit)
      × All
          (λ n. Mem n ns × (is_after (lookup (repair_target_key c n) m) now ≡ false))
          (select_due_targets m c ns (pos limit) now)
unfolding select_due_targets
select_due_targets-due m c ns limit now = (
  (let bound : 0 + length (take_due m c (pos limit) now 0 ns) ≤ limit =
        length-take_due m c limit now 0 ns (omega arith) in
      omega arith),
  All-Mem (take_due m c (pos limit) now 0 ns) (λ n h. take_due-due m c (pos limit) now 0 ns n h),
)

-- A target that was deferred is not selected again for the chunk before the back-off is over,
-- whatever targets are asked for and whatever the limit.
pub defer_targets_waits :
    (m : Map ℕ) (backoff : ℕ) (c : ChunkId) (ns asked : List NodeId) (now later : ℕ) (limit : ℤ)
    (n : NodeId)
    → Mem n ns
    → later < now + backoff
    → ¬ Mem n (select_due_targets (defer_targets m backoff c ns now) c asked limit later)
unfolding select_due_targets defer_targets
defer_targets_waits m backoff c ns asked now later limit n h early taken =
    let (_, due) =
      take_due-due (set_attempts m c (now + backoff) ns) c limit later 0 asked n taken in
    let at : lookup (repair_target_key c n) (set_attempts m c (now + backoff) ns)
        ≡ some (now + backoff) =
      set_attempts-lookup m c (now + backoff) ns n h in
    let waiting : ltb later (now + backoff) ≡ true = ground arith in
    let due' : is_after (some (now + backoff)) later ≡ false =
      subst (λ o. is_after o later ≡ false) at due in
    absurd cc
