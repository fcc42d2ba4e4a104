-- ===== src/Store/Plan/Laws.antt =====
-- The replica plans of internal/mds/store/memory_plan.go: the invariant of their table.
use astra_storage.Base.{
  String, ◌≡◌, ◌≢◌, refl, sym, ap, subst, ◌∙◌, ◌⊎◌, inl, inr, true, false, ◌==◌, List, [], ◌∷◌,
  Option, none, some, arith, eq_iff, Option-cases, Bool-cases, ne-of-test, true-ne-false,
}
use astra_storage.Base.Map.{Map, lookup, insert, erase, any_value, values_where}
use astra_storage.Base.Map.Laws.{insert-cases, erase-some}
use astra_storage.Base.Map.Loops.{any_value-false, values_where-Mem}
use astra_storage.Base.Int.{pos}
use astra_storage.Base.Slice.{sort_slice, apply_list_window}
use astra_storage.Base.Slice.Sorted.{Mem, Mem-sort_slice_to}
use astra_storage.Metadata.Plan.{ReplicaPlan}
use astra_storage.Store.State.{MemoryState, ok}
use astra_storage.Store.Requests.{ReplicaPlanPatch, ReplicaPlanFilter}
use astra_storage.Store.Plan.{
  list_replica_plans, plan_passes, created_before, create_replica_plan, update_replica_plan,
  delete_replica_plan, is_terminal, blocks, with_plan, patch_plan,
}

-- The plans are stored under their ids, and copy to another node than they copy from.
-- Two unfinished plans differ in type, chunk or target.
pub record IsScheduled (m : Map ReplicaPlan) : Type 0 where
  pub keyed : (k : String) (p : ReplicaPlan) → lookup k m ≡ some p → p.id ≡ k
  pub moves :
      (k : String) (p : ReplicaPlan) → lookup k m ≡ some p → p.source_node_id ≢ p.target_node_id
  pub one_job :
      (k l : String) (p q : ReplicaPlan)
      → lookup k m ≡ some p
      → lookup l m ≡ some q
      → blocks p q ≡ true
      → is_terminal p.state ≡ false
      → k ≡ l

create_replica_plan-cases :
    (s : MemoryState) (p : ReplicaPlan)
    → ((create_replica_plan s (some p)).0 ≡ s)
      ⊎ (((p.source_node_id == p.target_node_id) ≡ false)
          × (any_value (blocks p) s.replica_plans ≡ false)
          × ((create_replica_plan s (some p)).0 ≡ with_plan s p.id p))
unfolding create_replica_plan
create_replica_plan-cases s p = ground arith

pub create_replica_plan-ok :
    (s : MemoryState) (p : ReplicaPlan)
    → (create_replica_plan s (some p)).1 ≡ ok tt
    → ((p.chunk_id == "") ≡ false)
      × (lookup p.id s.replica_plans ≡ none)
      × (create_replica_plan s (some p) ≡ (with_plan s p.id p, ok tt))
unfolding create_replica_plan
create_replica_plan-ok s p h = (ground arith, ground arith, ground arith)

pub delete_replica_plan-at :
    (s : MemoryState) (id : String) (p : ReplicaPlan)
    → lookup id s.replica_plans ≡ some p
    → delete_replica_plan s id ≡ (record s { replica_plans = erase id s.replica_plans }, ok tt)
unfolding delete_replica_plan
delete_replica_plan-at s id p e = rw (e, delete_replica_plan) refl

window-nonempty :
    (xs : List ReplicaPlan) (p : ReplicaPlan)
    → Mem p xs
    → (y : ReplicaPlan) × (ys : List ReplicaPlan) × (apply_list_window xs (pos 0) (pos 0) ≡ y ∷ ys)
unfolding apply_list_window
window-nonempty [] p h = elim h [ ]
window-nonempty (x ∷ xs) p h = (x, xs, ground arith)

-- A filter with no window lists something where a stored plan passes it.
pub list_replica_plans-nonempty :
    (s : MemoryState) (q : ReplicaPlanFilter) (k : String) (p : ReplicaPlan)
    → q.limit ≡ pos 0
    → q.offset ≡ pos 0
    → lookup k s.replica_plans ≡ some p
    → plan_passes q p ≡ true
    → (y : ReplicaPlan) × (ys : List ReplicaPlan) × (list_replica_plans s q ≡ y ∷ ys)
unfolding list_replica_plans
list_replica_plans-nonempty s q k p l o h t =
    rw (l, o)
      (window-nonempty (sort_slice created_before (values_where (plan_passes q) s.replica_plans)) p
        (Mem-sort_slice_to created_before (values_where (plan_passes q) s.replica_plans) p
          (values_where-Mem (plan_passes q) s.replica_plans k p h t)))

pub update_replica_plan-at :
    (s : MemoryState) (q : ReplicaPlanPatch) (p : ReplicaPlan)
    → lookup q.id s.replica_plans ≡ some p
    → update_replica_plan s q ≡ (with_plan s q.id (patch_plan q p), ok tt)
unfolding update_replica_plan
update_replica_plan-at s q p e = rw (e, update_replica_plan) refl

-- A change of a plan leaves the chunks alone.
pub update_replica_plan-chunks :
    (s : MemoryState) (q : ReplicaPlanPatch) → (update_replica_plan s q).0.chunks ≡ s.chunks
unfolding update_replica_plan
update_replica_plan-chunks s q = ground arith

blocks_symm :
    (p q : ReplicaPlan) → blocks p q ≡ true → is_terminal p.state ≡ false → blocks q p ≡ true
blocks_symm p q b u = ground (
  arith,
  eq_iff p.type q.type,
  eq_iff q.type p.type,
  eq_iff p.chunk_id q.chunk_id,
  eq_iff q.chunk_id p.chunk_id,
  eq_iff p.target_node_id q.target_node_id,
  eq_iff q.target_node_id p.target_node_id,
)

blocks-open : (p q : ReplicaPlan) → blocks p q ≡ true → is_terminal q.state ≡ false
blocks-open p q b = ground arith

-- The plan at `x` is written, and blocks no other.
insert-IsScheduled :
    (m : Map ReplicaPlan) (x : String) (p' : ReplicaPlan)
    → IsScheduled m
    → p'.id ≡ x
    → p'.source_node_id ≢ p'.target_node_id
    → ((k : String) (q : ReplicaPlan)
        → lookup k m ≡ some q
        → blocks p' q ≡ true
        → is_terminal p'.state ≡ false
        → x ≡ k)
    → IsScheduled (insert x p' m)
insert-IsScheduled m x p' t named apart alone = record {
  keyed = λ k p e. elim (insert-cases x k p' p m e) [
    | inl (at, new) ↦ ap (λ (y : ReplicaPlan). y.id) new ∙ named ∙ sym at
    | inr (_, old) ↦ t.keyed k p old
  ];
  moves = λ k p e. elim (insert-cases x k p' p m e) [
    | inl (at, new) ↦
        subst (λ (y : ReplicaPlan). y.source_node_id ≢ y.target_node_id) (sym new) apart
    | inr (_, old) ↦ t.moves k p old
  ];
  one_job = λ k l p q e g b u. elim (insert-cases x k p' p m e) [
    | inl (at, new) ↦ elim (insert-cases x l p' q m g) [
      | inl (at', _) ↦ at ∙ sym at'
      | inr (_, old) ↦
          at
          ∙ alone l q old (subst (λ y. blocks y q ≡ true) new b)
              (subst (λ (y : ReplicaPlan). is_terminal y.state ≡ false) new u)
    ]
    | inr (_, old) ↦ elim (insert-cases x l p' q m g) [
      | inl (at, new) ↦
          let b' : blocks p p' ≡ true = subst (λ y. blocks p y ≡ true) new b in
          sym (alone k p old (blocks_symm p p' b' u) (blocks-open p p' b')) ∙ sym at
      | inr (_, old') ↦ t.one_job k l p q old old' b u
    ]
  ];
}

pub data PlanCall : Type 0 where
  create : Option ReplicaPlan → PlanCall
  update : ReplicaPlanPatch → PlanCall
  delete : String → PlanCall

pub after_plan_call : MemoryState → PlanCall → MemoryState
after_plan_call s (create p) = (create_replica_plan s p).0
after_plan_call s (update q) = (update_replica_plan s q).0
after_plan_call s (delete id) = (delete_replica_plan s id).0

pub run_plan_calls : MemoryState → List PlanCall → MemoryState
run_plan_calls s [] = s
run_plan_calls s (c ∷ cs) = run_plan_calls (after_plan_call s c) cs

-- A patch does not take a finished plan up again.
abbrev pub KeepsFinished : MemoryState → PlanCall → Type 0
KeepsFinished s (update q) =
    (p : ReplicaPlan)
    → lookup q.id s.replica_plans ≡ some p
    → is_terminal p.state ≡ true
    → is_terminal (patch_plan q p).state ≡ true
KeepsFinished s _ = Unit

abbrev pub AllKeepFinished : MemoryState → List PlanCall → Type 0
AllKeepFinished s [] = Unit
AllKeepFinished s (c ∷ cs) = KeepsFinished s c × AllKeepFinished (after_plan_call s c) cs

module _ (s : MemoryState) (t : IsScheduled s.replica_plans) where
  create_replica_plan-IsScheduled :
      (p : ReplicaPlan) → IsScheduled (create_replica_plan s (some p)).0.replica_plans
  create_replica_plan-IsScheduled p = elim (create_replica_plan-cases s p) [
    | inl same ↦ rw same t
    | inr (apart, free, done) ↦ rw done (
        insert-IsScheduled s.replica_plans p.id p t refl
          (ne-of-test p.source_node_id p.target_node_id apart)
          (λ k q e b u.
            absurd (true-ne-false (sym b ∙ any_value-false (blocks p) s.replica_plans k free e))))
  ]

  still_open :
      (q : ReplicaPlanPatch) (p : ReplicaPlan)
      → (is_terminal p.state ≡ true → is_terminal (patch_plan q p).state ≡ true)
      → is_terminal (patch_plan q p).state ≡ false
      → is_terminal p.state ≡ false
  still_open q p keeps u = elim (Bool-cases (is_terminal p.state)) [
    | inl done ↦ absurd (true-ne-false (sym (keeps done) ∙ u))
    | inr open' ↦ open'
  ]

  update_replica_plan-IsScheduled :
      (q : ReplicaPlanPatch)
      → KeepsFinished s (update q)
      → IsScheduled (update_replica_plan s q).0.replica_plans
  unfolding update_replica_plan
  update_replica_plan-IsScheduled q keeps = elim (Option-cases (lookup q.id s.replica_plans)) [
    | inl e ↦ rw e t
    | inr (p, e) ↦ rw e (
        insert-IsScheduled s.replica_plans q.id (patch_plan q p) t (t.keyed q.id p e)
          (t.moves q.id p e)
          (λ k r g b u. t.one_job q.id k p r e g b (still_open q p (keeps p e) u)))
  ]

  delete_replica_plan-IsScheduled :
      (id : String) → IsScheduled (delete_replica_plan s id).0.replica_plans
  unfolding delete_replica_plan
  delete_replica_plan-IsScheduled id = elim (Option-cases (lookup id s.replica_plans)) [
    | inl e ↦ rw e t
    | inr (p, e) ↦ rw e (record {
      keyed = λ k q g. t.keyed k q (erase-some id k q s.replica_plans g).1;
      moves = λ k q g. t.moves k q (erase-some id k q s.replica_plans g).1;
      one_job = λ k l q r g h.
          t.one_job k l q r (erase-some id k q s.replica_plans g).1
            (erase-some id l r s.replica_plans h).1;
    })
  ]

after_plan_call-IsScheduled :
    (s : MemoryState) (c : PlanCall)
    → KeepsFinished s c
    → IsScheduled s.replica_plans
    → IsScheduled (after_plan_call s c).replica_plans
unfolding after_plan_call
after_plan_call-IsScheduled s (create none) k t = unfold create_replica_plan in t
after_plan_call-IsScheduled s (create (some p)) k t = create_replica_plan-IsScheduled s t p
after_plan_call-IsScheduled s (update q) k t = update_replica_plan-IsScheduled s t q k
after_plan_call-IsScheduled s (delete id) k t = delete_replica_plan-IsScheduled s t id

-- After any calls, each refused or not, that take no finished plan up again, every plan is stored
-- under its id and moves between two nodes, and no two unfinished plans have one type, chunk and
-- target, if it was so before.
pub run_plan_calls-IsScheduled :
    (s : MemoryState) (cs : List PlanCall)
    → IsScheduled s.replica_plans
    → AllKeepFinished s cs
    → IsScheduled (run_plan_calls s cs).replica_plans
unfolding run_plan_calls
run_plan_calls-IsScheduled s [] t k = t
run_plan_calls-IsScheduled s (c ∷ cs) t k =
    run_plan_calls-IsScheduled (after_plan_call s c) cs (after_plan_call-IsScheduled s c k.0 t) k.1
