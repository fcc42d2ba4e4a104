-- ===== src/Store/Inode/Walk.antt =====
-- The walk to the root in `isDescendant` of internal/mds/store/memory_helpers.go: where it ends,
-- what it decides, and what keeps it finite.
use astra_storage.Base.{
  ℕ, zero, suc, ◌≤◌, ◌<◌, ◌≡◌, refl, subst, ◌∙◌, inl, inr, Bool, true, false, ◌==◌, Option, none,
  some, arith, eq_iff, ap, Bool-cases, Option-cases,
}
use astra_storage.Base.Map.{Map, lookup, erase, size}
use astra_storage.Base.Map.Laws.{lookup-erase, size-erase-lt}
use astra_storage.Metadata.Inode.{InodeMetadata, InodeId}
use astra_storage.Store.Select.{is_descendant}

-- From `k` the parents end after `n` inodes.
pub data Ascends (m : Map InodeMetadata) : InodeId → ℕ → Type 0 where
  stop : {k : InodeId} → lookup k m ≡ none → Ascends m k zero
  up :
      {k : InodeId} {n : ℕ} (i : InodeMetadata)
      → lookup k m ≡ some i
      → Ascends m i.parent_id n
      → Ascends m k (suc n)

-- `c` lies in the subtree of `a`, below it.
pub data Below (m : Map InodeMetadata) (a : InodeId) : InodeId → Type 0 where
  child : {c : InodeId} (i : InodeMetadata) → lookup c m ≡ some i → i.parent_id ≡ a → Below m a c
  deeper :
      {c : InodeId} (i : InodeMetadata) → lookup c m ≡ some i → Below m a i.parent_id → Below m a c

abbrev pub IsRooted : Map InodeMetadata → Type 0
IsRooted m = (k : InodeId) → (n : ℕ) × Ascends m k n

pub same_inode : {o : Option InodeMetadata} {i j : InodeMetadata} → o ≡ some i → o ≡ some j → i ≡ j
same_inode p q = cc

pub Ascends-unique :
    (m : Map InodeMetadata) {k : InodeId} {n n' : ℕ} → Ascends m k n → Ascends m k n' → n ≡ n'
Ascends-unique m (stop e) (stop f) = refl
Ascends-unique m (stop e) (up i f r) = cc
Ascends-unique m (up i e r) (stop f) = cc
Ascends-unique m (up i e r) (up {n = l} j f q) =
    ap suc (
      Ascends-unique m r
        (subst (λ (x : InodeMetadata). Ascends m x.parent_id l) (same_inode f e) q))

-- A shorter walk does not meet the inode that a longer one starts from.
Ascends-erase :
    (m : Map InodeMetadata) {k : InodeId} {n : ℕ}
    → Ascends m k n
    → {q : InodeId} {n' : ℕ} → Ascends m q n'
    → n' < n
    → Ascends (erase k m) q n'
Ascends-erase m {k} a {q} (stop e) h = stop (lookup-erase k q m ∙ ground arith)
Ascends-erase m {k} {n} a {q} (up {n = l} i e r) h = elim (Bool-cases (k == q)) [
  | inl t ↦
      let same : n ≡ suc l =
        Ascends-unique m (subst (λ x. Ascends m x n) ((eq_iff k q).0 t) a) (up i e r) in
      absurd (omega arith)
  | inr t ↦ up i (lookup-erase k q m ∙ rw t e) (Ascends-erase m a r (omega arith))
]

-- A walk that ends meets each inode at most once.
pub Ascends-le-size : (n : ℕ) (m : Map InodeMetadata) (k : InodeId) → Ascends m k n → n ≤ size m
Ascends-le-size zero m k a = omega arith
Ascends-le-size (suc n) m k (up i e r) = omega (
  arith,
  Ascends-le-size n (erase k m) i.parent_id (Ascends-erase m (up i e r) r (omega arith)),
  size-erase-lt k m e,
)

is_descendant-up :
    (f : ℕ) (m : Map InodeMetadata) (c a : InodeId) (i : InodeMetadata)
    → lookup c m ≡ some i
    → (i.parent_id == a) ≡ false
    → is_descendant (suc f) m c a ≡ is_descendant f m i.parent_id a
unfolding is_descendant
is_descendant-up f m c a i e t = ground arith

pub is_descendant_total :
    (f n : ℕ) (m : Map InodeMetadata) (c a : InodeId)
    → Ascends m c n
    → n < f
    → (b : Bool) × (is_descendant f m c a ≡ some b)
unfolding is_descendant
is_descendant_total zero n m c a w h = absurd (omega arith)
is_descendant_total (suc f) zero m c a (stop e) h = (false, rw (e, is_descendant))
is_descendant_total (suc f) (suc n) m c a (up i e r) h = elim (Bool-cases (i.parent_id == a)) [
  | inl t ↦ (true, ground arith)
  | inr t ↦
      let rest : (b : Bool) × (is_descendant f m i.parent_id a ≡ some b) =
        is_descendant_total f n m i.parent_id a r (omega arith) in
      (rest.0, is_descendant-up f m c a i e t ∙ rest.1)
]

pub is_descendant-true :
    (f : ℕ) (m : Map InodeMetadata) (c a : InodeId)
    → is_descendant f m c a ≡ some true
    → Below m a c
unfolding is_descendant
is_descendant-true zero m c a h = cc
is_descendant-true (suc f) m c a h = elim (Option-cases (lookup c m)) [
  | inl e ↦ absurd (ground arith)
  | inr (i, e) ↦ elim (Bool-cases (i.parent_id == a)) [
    | inl t ↦ child i e ((eq_iff i.parent_id a).0 t)
    | inr t ↦ deeper i e (is_descendant-true f m i.parent_id a (ground arith))
  ]
]

pub is_descendant-false :
    (f : ℕ) (m : Map InodeMetadata) (c a : InodeId)
    → is_descendant f m c a ≡ some false
    → Below m a c
    → ⊥
unfolding is_descendant
is_descendant-false zero m c a h b = cc
is_descendant-false (suc f) m c a h (child i e p) = ground (arith, eq_iff i.parent_id a)
is_descendant-false (suc f) m c a h (deeper i e b) =
    is_descendant-false f m i.parent_id a (ground arith) b
