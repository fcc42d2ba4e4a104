-- ===== src/Service/Body/Runs.antt =====
-- What a callback that succeeds has gone through, one call at a time.
use astra_storage.Base.{◌≡◌, refl, sym, subst, inl, inr, [], ap, ◌∙◌, Bool, true, false, List}
use astra_storage.Store.State.{MemoryState, Outcome, Result, ok, err, StoreError, err-ne-ok}
use astra_storage.Service.Body.{
  Body, continue, ◌>>=◌, reads, checks, refuse_if, use_case, ReadModel,
}
use astra_storage.Service.Body.Keeps.{transact-cases}

module _ {A B : Type 0} where
  continue-ok :
      (o : Outcome A) (f : A → Body B) {b : B}
      → (continue o f).1 ≡ ok b
      → (a : A) × (o.1 ≡ ok a) × ((f a o.0).1 ≡ ok b) × (continue o f ≡ f a o.0)
  continue-ok (s, ok a) f h = (a, refl, h, refl)
  continue-ok (s, err why) f h = absurd (err-ne-ok h)

  -- A block that succeeds: its first call does, and the rest runs from what that leaves.
  pub ran :
      (m : Body A) (f : A → Body B) (s : MemoryState) {b : B}
      → ((m >>= f) s).1 ≡ ok b
      → (a : A) × ((m s).1 ≡ ok a) × ((f a (m s).0).1 ≡ ok b) × ((m >>= f) s ≡ f a (m s).0)
  unfolding ◌>>=◌
  ran m f s h = continue-ok (m s) f h

  pub ran_reads :
      (g : MemoryState → Result A) (f : A → Body B) (s : MemoryState) {b : B}
      → ((reads g >>= f) s).1 ≡ ok b
      → (a : A) × (g s ≡ ok a) × ((f a s).1 ≡ ok b) × ((reads g >>= f) s ≡ f a s)
  unfolding reads
  ran_reads g f s h = ran (reads g) f s h

  pub ran_checks :
      (r : Result A) (f : A → Body B) (s : MemoryState) {b : B}
      → ((checks r >>= f) s).1 ≡ ok b
      → (a : A) × (r ≡ ok a) × ((f a s).1 ≡ ok b) × ((checks r >>= f) s ≡ f a s)
  unfolding checks
  ran_checks r f s h = ran (checks r) f s h

-- What every successful run of a callback returns, and with which tables.
pub record Returns {B : Type 0} (Q : B → MemoryState → Type 0) (m : Body B) : Type 0 where
  pub at_end : (s : MemoryState) (b : B) → (m s).1 ≡ ok b → Q b (m s).0

pub Returns-bind :
    {A B : Type 0} (Q : B → MemoryState → Type 0) (m : Body A) (f : A → Body B)
    → ((a : A) → Returns Q (f a))
    → Returns Q (m >>= f)
Returns-bind {A} {B} Q m f k = record {
  at_end = λ s b h.
      let (a, _, tail, same) = ran m f s h in
      subst (λ (o : Outcome B). Q b o.0) (sym same) ((k a).at_end (m s).0 b tail);
}

pub ran_refuse :
    {B : Type 0} (c : Bool) (why : StoreError) (f : Unit {0} → Body B) (s : MemoryState) {b : B}
    → ((refuse_if c why >>= f) s).1 ≡ ok b
    → (c ≡ false) × ((f tt s).1 ≡ ok b) × ((refuse_if c why >>= f) s ≡ f tt s)
unfolding refuse_if ◌>>=◌
ran_refuse true why f s h = absurd (err-ne-ok h)
ran_refuse false why f s h = (refl, h, refl)

-- A use case that succeeds has run its callback to the end, and kept what that left.
pub use_case-ok :
    {A : Type 0} (r : Result (Unit {0})) (body : Body A) (models : A → List ReadModel)
    (s : MemoryState) {a : A}
    → (use_case r body models s).0.1 ≡ ok a
    → ((body s).1 ≡ ok a) × ((use_case r body models s).0.0 ≡ (body s).0)
unfolding use_case
use_case-ok (err why) body models s h = absurd (err-ne-ok h)
use_case-ok {A} (ok done) body models s {a} h = elim (transact-cases body s) [
  | inl (b, g, e) ↦ (g ∙ sym (ap (λ (o : Outcome A). o.1) e) ∙ h, ap (λ (o : Outcome A). o.0) e)
  | inr (why, g, e) ↦ absurd (err-ne-ok (sym (ap (λ (o : Outcome A). o.1) e) ∙ h))
]

-- A use case that fails leaves the tables as they were, and drops nothing from the read cache.
pub use_case-err :
    {A : Type 0} (r : Result (Unit {0})) (body : Body A) (models : A → List ReadModel)
    (s : MemoryState) {why : StoreError}
    → (use_case r body models s).0.1 ≡ err why
    → use_case r body models s ≡ ((s, err why), [])
unfolding use_case
use_case-err (err e) body models s h = ap (λ (r : Result _). ((s, r), [])) h
use_case-err {A} (ok done) body models s h = elim (transact-cases body s) [
  | inl (b, g, e) ↦ absurd (err-ne-ok (sym h ∙ ap (λ (o : Outcome A). o.1) e))
  | inr (e, g, same) ↦
      let alike : Path (Result A) (err e) (err _) = sym (ap (λ (o : Outcome A). o.1) same) ∙ h in
      rw same (ap (λ (r : Result A). ((s, r), [])) alike)
]

-- A use case that succeeds has passed the check of its request.
pub use_case-checked :
    {A : Type 0} (r : Result (Unit {0})) (body : Body A) (models : A → List ReadModel)
    (s : MemoryState) {a : A}
    → (use_case r body models s).0.1 ≡ ok a
    → r ≡ ok tt
unfolding use_case
use_case-checked (err why) body models s h = absurd (err-ne-ok h)
use_case-checked (ok done) body models s h = refl
