-- ===== src/Service/Body/Keeps.antt =====
-- What a callback of `InTx` keeps, from what its calls keep; `InTx` and the use cases around it.
use astra_storage.Base.{
  ◌≡◌, refl, sym, subst, ◌⊎◌, inl, inr, Bool, true, false, List, [], ◌∷◌, if◌then◌else◌,
}
use astra_storage.Store.State.{MemoryState, Outcome, Result, ok, err, StoreError, Result-cases}
use astra_storage.Store.Tx.Atomic.{committed, rolled_back}
use astra_storage.Service.Body.{
  Body, continue, ◌>>=◌, gives, reads, checks, refuse_if, for_each, forget, transact, use_case,
  ReadModel,
}

-- The callback leaves tables with the property, however it ends, if it found such tables.
pub record Keeps {A : Type 0} (P : MemoryState → Type 0) (m : Body A) : Type 0 where
  pub after : (s : MemoryState) → P s → P (m s).0

module _ {P : MemoryState → Type 0} where
  pub Keeps-gives : {A : Type 0} (a : A) → Keeps P (gives a)
  unfolding gives
  Keeps-gives a = record { after = λ s p. p }

  pub Keeps-reads : {A : Type 0} (f : MemoryState → Result A) → Keeps P (reads f)
  unfolding reads
  Keeps-reads f = record { after = λ s p. p }

  pub Keeps-checks : {A : Type 0} (r : Result A) → Keeps P (checks r)
  unfolding checks
  Keeps-checks r = record { after = λ s p. p }

  pub Keeps-refuse_if : (b : Bool) (why : StoreError) → Keeps P (refuse_if b why)
  unfolding refuse_if
  Keeps-refuse_if b why = record { after = λ s p. p }

  pub Keeps-if :
      {A : Type 0} (b : Bool) (m n : Body A) → Keeps P m → Keeps P n → Keeps P (if b then m else n)
  Keeps-if true m n k l = k
  Keeps-if false m n k l = l

  continue-after :
      {A B : Type 0} (o : Outcome A) (f : A → Body B)
      → ((a : A) → Keeps P (f a))
      → P o.0
      → P (continue o f).0
  continue-after (s, ok a) f k p = (k a).after s p
  continue-after (s, err why) f k p = p

  -- The rest of a block, from what its first call leaves in the case at hand.
  pub bind-after :
      {A B : Type 0} (m : Body A) (f : A → Body B) (s : MemoryState)
      → ((a : A) → Keeps P (f a))
      → P (m s).0
      → P ((m >>= f) s).0
  unfolding ◌>>=◌
  bind-after m f s k p = continue-after (m s) f k p

  pub Keeps-bind :
      {A B : Type 0} (m : Body A) (f : A → Body B)
      → Keeps P m
      → ((a : A) → Keeps P (f a))
      → Keeps P (m >>= f)
  unfolding ◌>>=◌
  Keeps-bind m f k l = record { after = λ s p. continue-after (m s) f l (k.after s p) }

  pub Keeps-for_each :
      {X : Type 0} (xs : List X) (f : X → Body (Unit {0}))
      → ((x : X) → Keeps P (f x))
      → Keeps P (for_each xs f)
  unfolding for_each
  Keeps-for_each [] f k = Keeps-gives tt
  Keeps-for_each (x ∷ xs) f k =
      Keeps-bind (f x) (λ done. for_each xs f) (k x) (λ done. Keeps-for_each xs f k)

start_again :
    {A B : Type 0} (P : MemoryState → Type 0) (o : Outcome A) (f : A → Body B) (s : MemoryState)
    → o.0 ≡ s
    → P s
    → ((a : A) → P (f a s).0)
    → P (continue o f).0
start_again P (t, ok a) f s e p k = subst (λ x. P (f a x).0) (sym e) (k a)
start_again P (t, err why) f s e p k = subst P (sym e) p

-- A block whose first part changes nothing.
pub after_reading :
    {A B : Type 0} (P : MemoryState → Type 0) (m : Body A) (f : A → Body B) (s : MemoryState)
    → ((t : MemoryState) → Keeps (λ x. x ≡ t) m)
    → P s
    → ((a : A) → P (f a s).0)
    → P ((m >>= f) s).0
unfolding ◌>>=◌
after_reading P m f s k p l = start_again P (m s) f s ((k s).after s refl) p l

pub ruleset keeps_rules =
    (Keeps-gives, Keeps-reads, Keeps-checks, Keeps-refuse_if, Keeps-if, Keeps-bind, Keeps-for_each)

forget-ok : {A : Type 0} (o : Outcome A) {a : A} → o.1 ≡ ok a → forget o ≡ (o.0, ok tt)
forget-ok (s, ok b) h = refl
forget-ok (s, err why) h = absurd cc

forget-err :
    {A : Type 0} (o : Outcome A) {why : StoreError} → o.1 ≡ err why → forget o ≡ (o.0, err why)
forget-err (s, ok b) h = absurd cc
forget-err (s, err why) h = cc

-- The transaction runs as a whole, with the callback's result, or leaves the tables as they were,
-- with the callback's error.
pub transact-cases :
    {A : Type 0} (body : Body A) (s : MemoryState)
    → ((a : A) × ((body s).1 ≡ ok a) × (transact body s ≡ ((body s).0, ok a)))
      ⊎ ((why : StoreError) × ((body s).1 ≡ err why) × (transact body s ≡ (s, err why)))
unfolding transact
transact-cases body s = elim (Result-cases (body s).1) [
  | inl (a, h) ↦
      inl (a, h, rw (committed (λ t. forget (body t)) s (body s).0 (forget-ok (body s) h), h) refl)
  | inr (why, h) ↦ inr (
    why,
    h,
    rw (rolled_back (λ t. forget (body t)) s (body s).0 why (forget-err (body s) h)) refl,
  )
]

pub transact-Keeps :
    {A : Type 0} (P : MemoryState → Type 0) (body : Body A) (s : MemoryState)
    → Keeps P body
    → P s
    → P (transact body s).0
transact-Keeps P body s k p = elim (transact-cases body s) [
  | inl (a, h, e) ↦ rw e (k.after s p)
  | inr (why, h, e) ↦ rw e p
]

pub use_case-Keeps :
    {A : Type 0} (P : MemoryState → Type 0) (r : Result (Unit {0})) (body : Body A)
    (models : A → List ReadModel) (s : MemoryState)
    → Keeps P body
    → P s
    → P (use_case r body models s).0.0
unfolding use_case
use_case-Keeps P (err why) body models s k p = p
use_case-Keeps P (ok done) body models s k p = transact-Keeps P body s k p
