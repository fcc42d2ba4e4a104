-- ===== src/Service/Body/Ends.antt =====
-- Callbacks of `InTx` that never run out of fuel.
use astra_storage.Base.{◌≡◌, refl, ◌∙◌, Bool, true, false, List, [], ◌∷◌, if◌then◌else◌, inl, inr}
use astra_storage.Base.Slice.Sorted.{Mem}
use astra_storage.Store.State.{MemoryState, Outcome, Result, ok, err, StoreError, diverged}
use astra_storage.Service.Body.{
  Body, continue, ◌>>=◌, gives, reads, refuse_if, for_each, use_case, transact, ReadModel,
}
use astra_storage.Service.Body.Keeps.{Keeps, transact-cases}

-- On tables with the property the callback comes to a result, and leaves such tables.
pub record Ends {A : Type 0} (P : MemoryState → Type 0) (m : Body A) : Type 0 where
  pub keeps : Keeps P m
  pub ends : (s : MemoryState) → P s → (m s).1 ≡ err diverged → ⊥

module _ {P : MemoryState → Type 0} where
  pub Ends-gives : {A : Type 0} (a : A) → Ends P (gives a)
  unfolding gives
  Ends-gives a = record { keeps = record { after = λ s p. p }; ends = λ s p e. absurd cc }

  pub Ends-reads :
      {A : Type 0} (f : MemoryState → Result A)
      → ((s : MemoryState) → f s ≡ err diverged → ⊥)
      → Ends P (reads f)
  unfolding reads
  Ends-reads f n = record { keeps = record { after = λ s p. p }; ends = λ s p e. n s e }

  pub Ends-refuse_if :
      (b : Bool) (why : StoreError) → (why ≡ diverged → ⊥) → Ends P (refuse_if b why)
  unfolding refuse_if
  Ends-refuse_if true why n = record { keeps = record { after = λ s p. p }; ends = λ s p e. n cc }
  Ends-refuse_if false why n = record {
    keeps = record { after = λ s p. p };
    ends = λ s p e. absurd cc;
  }

  pub Ends-if :
      {A : Type 0} (b : Bool) (m n : Body A) → Ends P m → Ends P n → Ends P (if b then m else n)
  Ends-if true m n k l = k
  Ends-if false m n k l = l

  continue-after :
      {A B : Type 0} (o : Outcome A) (f : A → Body B)
      → ((a : A) → Ends P (f a))
      → P o.0
      → P (continue o f).0
  continue-after (s, ok a) f k p = (k a).keeps.after s p
  continue-after (s, err why) f k p = p

  continue-ends :
      {A B : Type 0} (o : Outcome A) (f : A → Body B)
      → ((a : A) → Ends P (f a))
      → P o.0
      → (o.1 ≡ err diverged → ⊥)
      → (continue o f).1 ≡ err diverged
      → ⊥
  continue-ends (s, ok a) f k p n e = (k a).ends s p e
  continue-ends (s, err why) f k p n e = n cc

  pub Ends-bind :
      {A B : Type 0} (m : Body A) (f : A → Body B)
      → Ends P m
      → ((a : A) → Ends P (f a))
      → Ends P (m >>= f)
  unfolding ◌>>=◌
  Ends-bind m f k l = record {
    keeps = record { after = λ s p. continue-after (m s) f l (k.keeps.after s p) };
    ends = λ s p e. continue-ends (m s) f l (k.keeps.after s p) (k.ends s p) e;
  }

  pub Ends-for_each :
      {X : Type 0} (xs : List X) (f : X → Body (Unit {0}))
      → ((x : X) → Mem x xs → Ends P (f x))
      → Ends P (for_each xs f)
  unfolding for_each
  Ends-for_each [] f k = Ends-gives tt
  Ends-for_each (x ∷ xs) f k =
      Ends-bind (f x) (λ done. for_each xs f) (k x (inl refl))
        (λ done. Ends-for_each xs f (λ y m. k y (inr m)))

  module _ {A B : Type 0} (g : MemoryState → Result A) (f : A → Body B)
      (n : (s : MemoryState) → g s ≡ err diverged → ⊥)
      (k : (s : MemoryState) (a : A) → P s → g s ≡ ok a → Ends P (f a)) where
    reading-after : (s : MemoryState) (r : Result A) → g s ≡ r → P s → P (continue (s, r) f).0
    reading-after s (ok a) e p = (k s a p e).keeps.after s p
    reading-after s (err why) e p = p

    reading-ends :
        (s : MemoryState) (r : Result A) → g s ≡ r → P s → (continue (s, r) f).1 ≡ err diverged → ⊥
    reading-ends s (ok a) e p h = (k s a p e).ends s p h
    reading-ends s (err why) e p h = n s (e ∙ h')
      where
        h' : Path (Result A) (err why) (err diverged)
        h' = cc

    -- A read whose result matters to the rest.
    pub Ends-reading : Ends P (reads g >>= f)
    unfolding reads ◌>>=◌
    Ends-reading = record {
      keeps = record { after = λ s p. reading-after s (g s) refl p };
      ends = λ s p e. reading-ends s (g s) refl p e;
    }

-- The first calls of a block, on the tables at hand.
module _ {A B : Type 0} where
  continue_reading :
      (r : Result A) (f : A → Body B) (s : MemoryState)
      → (r ≡ err diverged → ⊥)
      → ((a : A) → r ≡ ok a → (f a s).1 ≡ err diverged → ⊥)
      → (continue (s, r) f).1 ≡ err diverged
      → ⊥
  continue_reading (ok a) f s n k h = k a refl h
  continue_reading (err why) f s n k h = n cc

  pub reading_ends :
      (g : MemoryState → Result A) (f : A → Body B) (s : MemoryState)
      → (g s ≡ err diverged → ⊥)
      → ((a : A) → g s ≡ ok a → (f a s).1 ≡ err diverged → ⊥)
      → ((reads g >>= f) s).1 ≡ err diverged
      → ⊥
  unfolding reads ◌>>=◌
  reading_ends g f s n k h = continue_reading (g s) f s n k h

pub refusing_ends :
    {B : Type 0} (b : Bool) (why : StoreError) (f : Unit {0} → Body B) (s : MemoryState)
    → (why ≡ diverged → ⊥)
    → ((f tt s).1 ≡ err diverged → ⊥)
    → ((refuse_if b why >>= f) s).1 ≡ err diverged
    → ⊥
unfolding refuse_if ◌>>=◌
refusing_ends true why f s n k h = n cc
refusing_ends false why f s n k h = k h

pub transact_ends :
    {A : Type 0} (body : Body A) (s : MemoryState)
    → ((body s).1 ≡ err diverged → ⊥)
    → (transact body s).1 ≡ err diverged
    → ⊥
transact_ends body s n h = elim (transact-cases body s) [
  | inl (a, g, e) ↦ absurd (cc)
  | inr (why, g, e) ↦ n cc
]

pub ruleset ends_rules = (Ends-gives, Ends-reads, Ends-refuse_if, Ends-if, Ends-bind, Ends-for_each)

pub use_case-ends :
    {A : Type 0} (r : Result (Unit {0})) (body : Body A) (models : A → List ReadModel)
    (s : MemoryState)
    → ((body s).1 ≡ err diverged → ⊥)
    → (r ≡ err diverged → ⊥)
    → (use_case r body models s).0.1 ≡ err diverged
    → ⊥
unfolding use_case
use_case-ends (err why) body models s k n h = n cc
use_case-ends (ok done) body models s k n h = transact_ends body s k h
