-- ===== src/Store/Inode/Tree.antt =====
-- The shape of the directory tree: what hangs an inode elsewhere keeps every walk finite.
use astra_storage.Base.{
  ℕ, zero, suc, ◌<◌, String, ◌≡◌, ◌≢◌, sym, subst, ◌∙◌, inl, inr, false, ◌==◌, Option, none, some,
  arith, ap, Bool-cases, test-of-ne,
}
use astra_storage.Base.Map.{Map, lookup, insert, erase}
use astra_storage.Base.Map.Laws.{lookup-insert, lookup-erase}
use astra_storage.Metadata.Inode.{InodeMetadata, InodeId}
use astra_storage.Store.Inode.Walk.{
  Ascends, stop, up, Below, child, deeper, IsRooted, Ascends-unique, same_inode,
}

some-ne-none : {o : Option InodeMetadata} {i : InodeMetadata} → o ≡ some i → o ≡ none → ⊥
some-ne-none e f = cc

lookup-insert_ne :
    (k j : String) (i : InodeMetadata) (m : Map InodeMetadata)
    → (k == j) ≡ false
    → lookup j (insert k i m) ≡ lookup j m
lookup-insert_ne k j i m h = lookup-insert k j i m ∙ rw h

-- A walk that starts outside the subtree of `x` does not see what is written at `x`.
Ascends-outside :
    (m : Map InodeMetadata) (x : InodeId) (i' : InodeMetadata) {q : InodeId} {n : ℕ}
    → Ascends m q n
    → q ≢ x
    → (Below m x q → ⊥)
    → Ascends (insert x i' m) q n
Ascends-outside m x i' {q} (stop e) d b =
    stop (lookup-insert_ne x q i' m (test-of-ne x q (λ p. d (sym p))) ∙ e)
Ascends-outside m x i' {q} (up i e r) d b =
    up i (lookup-insert_ne x q i' m (test-of-ne x q (λ p. d (sym p))) ∙ e)
      (Ascends-outside m x i' r (λ p. b (child i e p)) (λ c. b (deeper i e c)))

-- Writing an inode whose parent is neither itself nor below it.
graft :
    (m : Map InodeMetadata) (x : InodeId) (i' : InodeMetadata) {q : InodeId} {n p : ℕ}
    → Ascends (insert x i' m) i'.parent_id p
    → Ascends m q n
    → (k : ℕ) × Ascends (insert x i' m) q k
graft m x i' {q} base (stop e) = elim (Bool-cases (x == q)) [
  | inl t ↦ (suc _, up i' (lookup-insert x q i' m ∙ rw t) base)
  | inr t ↦ (zero, stop (lookup-insert_ne x q i' m t ∙ e))
]
graft m x i' {q} base (up i e r) = elim (Bool-cases (x == q)) [
  | inl t ↦ (suc _, up i' (lookup-insert x q i' m ∙ rw t) base)
  | inr t ↦
      let rest : (k : ℕ) × Ascends (insert x i' m) i.parent_id k = graft m x i' base r in
      (suc rest.0, up i (lookup-insert_ne x q i' m t ∙ e) rest.1)
]

pub IsRooted-insert :
    (m : Map InodeMetadata) (x : InodeId) (i' : InodeMetadata)
    → IsRooted m
    → i'.parent_id ≢ x
    → (Below m x i'.parent_id → ⊥)
    → IsRooted (insert x i' m)
IsRooted-insert m x i' r d b q =
    graft m x i' (Ascends-outside m x i' (r i'.parent_id).1 d b) (r q).1

cut :
    (m : Map InodeMetadata) (x : InodeId) {q : InodeId} {n : ℕ}
    → Ascends m q n
    → (k : ℕ) × Ascends (erase x m) q k
cut m x {q} (stop e) = (zero, stop (lookup-erase x q m ∙ ground arith))
cut m x {q} (up i e r) = elim (Bool-cases (x == q)) [
  | inl t ↦ (zero, stop (lookup-erase x q m ∙ rw t))
  | inr t ↦
      let rest : (k : ℕ) × Ascends (erase x m) i.parent_id k = cut m x r in
      (suc rest.0, up i (lookup-erase x q m ∙ rw t e) rest.1)
]

pub IsRooted-erase : (m : Map InodeMetadata) (x : InodeId) → IsRooted m → IsRooted (erase x m)
IsRooted-erase m x r q = cut m x (r q).1

-- The walk from an inode passes its ancestors, at a smaller distance from the end.
Ascends-ancestor :
    (m : Map InodeMetadata) {a c : InodeId} {n : ℕ}
    → Below m a c
    → Ascends m c n
    → (k : ℕ) × Ascends m a k × (k < n)
Ascends-ancestor m {a} (child i e p) (stop f) = absurd (some-ne-none e f)
Ascends-ancestor m {a} (child i e p) (up {n = l} j f r) = (
  l,
  subst (λ x. Ascends m x l) (ap (λ (x : InodeMetadata). x.parent_id) (same_inode f e) ∙ p) r,
  omega arith,
)
Ascends-ancestor m {a} (deeper i e b) (stop f) = absurd (some-ne-none e f)
Ascends-ancestor m {a} (deeper i e b) (up {n = l} j f r) =
    let rest : (k : ℕ) × Ascends m a k × (k < l) =
      Ascends-ancestor m b
        (subst (λ (x : InodeMetadata). Ascends m x.parent_id l) (same_inode f e) r) in
    (rest.0, rest.1, omega arith)

pub IsRooted-acyclic : (m : Map InodeMetadata) (a : InodeId) → IsRooted m → Below m a a → ⊥
IsRooted-acyclic m a r b =
    let w : (n : ℕ) × Ascends m a n = r a in
    let v : (k : ℕ) × Ascends m a k × (k < w.0) = Ascends-ancestor m b w.1 in
    let same : w.0 ≡ v.0 = Ascends-unique m w.1 v.1 in absurd (omega arith)

-- The two tables have the same inodes, under the same parents.
pub record SameParents (m m' : Map InodeMetadata) : Type 0 where
  pub missing : (k : InodeId) → lookup k m ≡ none → lookup k m' ≡ none
  pub present :
      (k : InodeId) (i : InodeMetadata)
      → lookup k m ≡ some i
      → (i' : InodeMetadata) × (lookup k m' ≡ some i') × (i'.parent_id ≡ i.parent_id)

Ascends-SameParents :
    (m m' : Map InodeMetadata) {q : InodeId} {n : ℕ}
    → SameParents m m'
    → Ascends m q n
    → Ascends m' q n
Ascends-SameParents m m' {q} s (stop e) = stop (s.missing q e)
Ascends-SameParents m m' {q} s (up {n = l} i e r) =
    let new : (i' : InodeMetadata) × (lookup q m' ≡ some i') × (i'.parent_id ≡ i.parent_id) =
      s.present q i e in
    up new.0 new.1 (subst (λ x. Ascends m' x l) (sym new.2) (Ascends-SameParents m m' s r))

pub IsRooted-SameParents : (m m' : Map InodeMetadata) → SameParents m m' → IsRooted m → IsRooted m'
IsRooted-SameParents m m' s r q = ((r q).0, Ascends-SameParents m m' s (r q).1)
