-- ===== src/Base/Map/Laws.antt =====
-- What a lookup gives after each change of a map, and the sizes.
use astra_storage.Base.Names.{
  ◌<◌, ◌≤◌, ◌≡◌, refl, false, Option, none, some, List, [], ◌∷◌, String, ◌==◌, eq_iff, eq_refl,
  arith, inl, inr, ◌∙◌, sym, ◌⊎◌, subst, ap,
}
use astra_storage.Base.Tests.{if◌then◌else◌, Bool-cases, Option-cases, contains, test_symm}
use astra_storage.Base.Map.{
  Map, lookup, insert, erase, insert_all, erase_all, map_values, IsMap, size,
}

pub none-ne-some {ℓ} : {A : Type ℓ} {a : A} → none ≡ some a → ⊥
none-ne-some h = cc

pub same_value {ℓ} : {A : Type ℓ} {o : Option A} {a b : A} → o ≡ some a → o ≡ some b → a ≡ b
same_value p q = cc

module _ {ℓ} {V : Type ℓ} where
  pub lookup-insert :
      (k j : String) (v : V) (m : Map V)
      → lookup j (insert k v m) ≡ (if k == j then some v else lookup j m)
  unfolding lookup insert
  lookup-insert key other new [] = refl
  lookup-insert key other new ((at, old) ∷ rest) =
      ground
        (arith, lookup-insert key other new rest, eq_iff at other, eq_iff at key, eq_iff key other)

  pub lookup-erase :
      (k j : String) (m : Map V) → lookup j (erase k m) ≡ (if k == j then none else lookup j m)
  unfolding lookup erase
  lookup-erase k j [] = ground arith
  lookup-erase k j ((i, w) ∷ m) =
      ground (arith, eq_iff k j, eq_iff i k, eq_iff i j, lookup-erase k j m)

  pub lookup-insert_self : (k : String) (v : V) (m : Map V) → lookup k (insert k v m) ≡ some v
  lookup-insert_self k v m = simp (lookup-insert, eq_refl)

  pub lookup-erase_self : (k : String) (m : Map V) → lookup k (erase k m) ≡ none
  lookup-erase_self k m = simp (lookup-erase, eq_refl)

  -- To take back a write at a new key is to have written nothing.
  pub erase-insert :
      (j k : String) (v : V) (m : Map V)
      → lookup k m ≡ none
      → lookup j (erase k (insert k v m)) ≡ lookup j m
  erase-insert j k v m h = lookup-erase k j (insert k v m) ∙ elim (Bool-cases (k == j)) [
    | inl e ↦ rw e (sym (subst (λ x. lookup x m ≡ none) ((eq_iff k j).0 e) h))
    | inr e ↦ rw e (lookup-insert k j v m ∙ rw e refl)
  ]

  pub IsMap-insert : (k : String) (v : V) (m : Map V) → IsMap m → IsMap (insert k v m)
  unfolding insert lookup
  IsMap-insert k v [] h = (refl, tt)
  IsMap-insert k v ((j, w) ∷ m) h = elim (Bool-cases (j == k)) [
    | inl e ↦ rw e (rw ((eq_iff j k).0 e) at h)
    | inr e ↦ rw e (rw lookup-insert (rw (test_symm j k e) h.0), IsMap-insert k v m h.1)
  ]

  pub IsMap-erase : (k : String) (m : Map V) → IsMap m → IsMap (erase k m)
  unfolding erase
  IsMap-erase k [] h = h
  IsMap-erase k ((j, w) ∷ m) h = elim (Bool-cases (j == k)) [
    | inl e ↦ rw e (IsMap-erase k m h.1)
    | inr e ↦ rw e (lookup-erase k j m ∙ (rw (test_symm j k e) h.0), IsMap-erase k m h.1)
  ]

  pub size-erase-le : (k : String) (m : Map V) → size (erase k m) ≤ size m
  unfolding erase
  size-erase-le k [] = omega arith
  size-erase-le k ((j, w) ∷ m) = elim (Bool-cases (j == k)) [
    | inl e ↦ rw e (omega (arith, size-erase-le k m))
    | inr e ↦ rw e (omega (arith, size-erase-le k m))
  ]

  pub size-erase-lt :
      (k : String) (m : Map V) {v : V} → lookup k m ≡ some v → size (erase k m) < size m
  unfolding erase lookup
  size-erase-lt k [] h = cc
  size-erase-lt k ((j, w) ∷ m) h = elim (Bool-cases (j == k)) [
    | inl e ↦ rw e (omega (arith, size-erase-le k m))
    | inr e ↦ rw e (omega (arith, size-erase-lt k m (rw e at h)))
  ]

  pub lookup-erase_all :
      (ks : List String) (k : String) (m : Map V)
      → lookup k (erase_all ks m) ≡ (if contains ks k then none else lookup k m)
  unfolding erase_all
  lookup-erase_all [] k m = refl
  lookup-erase_all (j ∷ ks) k m =
      ground (arith, lookup-erase_all ks k (erase j m), lookup-erase j k m)

  pub lookup-map_values :
      (f : V → V) (k : String) (m : Map V)
      → lookup k (map_values f m) ≡ elim (lookup k m) [ none ↦ none | some v ↦ some (f v) ]
  unfolding lookup map_values
  lookup-map_values f k [] = refl
  lookup-map_values f k ((j, w) ∷ m) = ground (arith, lookup-map_values f k m)

  pub IsMap-map_values : (f : V → V) (m : Map V) → IsMap m → IsMap (map_values f m)
  unfolding map_values
  IsMap-map_values f [] h = h
  IsMap-map_values f ((j, w) ∷ m) h = (lookup-map_values f j m ∙ (rw h.0), IsMap-map_values f m h.1)

  pub IsMap-erase_all : (ks : List String) (m : Map V) → IsMap m → IsMap (erase_all ks m)
  unfolding erase_all
  IsMap-erase_all [] m h = h
  IsMap-erase_all (k ∷ ks) m h = IsMap-erase_all ks (erase k m) (IsMap-erase k m h)

  pub IsMap-insert_all : (us m : Map V) → IsMap m → IsMap (insert_all us m)
  unfolding insert_all
  IsMap-insert_all [] m h = h
  IsMap-insert_all ((j, v) ∷ us) m h = IsMap-insert_all us (insert j v m) (IsMap-insert j v m h)

  -- What a map holds after a write was written, or was there.
  pub insert-cases :
      (k j : String) (v w : V) (m : Map V)
      → lookup j (insert k v m) ≡ some w
      → ((j ≡ k) × (w ≡ v)) ⊎ (((k == j) ≡ false) × (lookup j m ≡ some w))
  insert-cases k j v w m h = elim (Bool-cases (k == j)) [
    | inl e ↦
        let now : lookup j (insert k v m) ≡ some v = lookup-insert k j v m ∙ rw e in
        inl (sym ((eq_iff k j).0 e), same_value h now)
    | inr e ↦
        let now : lookup j (insert k v m) ≡ lookup j m = lookup-insert k j v m ∙ rw e in
        inr (e, sym now ∙ h)
  ]

  pub erase-some :
      (k j : String) (w : V) (m : Map V)
      → lookup j (erase k m) ≡ some w
      → ((k == j) ≡ false) × (lookup j m ≡ some w)
  erase-some k j w m h = elim (Bool-cases (k == j)) [
    | inl e ↦
        let now : lookup j (erase k m) ≡ none = lookup-erase k j m ∙ rw e in
        absurd (none-ne-some (sym now ∙ h))
    | inr e ↦
        let now : lookup j (erase k m) ≡ lookup j m = lookup-erase k j m ∙ rw e in (e, sym now ∙ h)
  ]

  pub map_values-some :
      (f : V → V) (k : String) (w : V) (m : Map V)
      → lookup k (map_values f m) ≡ some w
      → (v : V) × (lookup k m ≡ some v) × (w ≡ f v)
  map_values-some f k w m e = elim (Option-cases (lookup k m)) [
    | inl n ↦
        let now : lookup k (map_values f m) ≡ none = lookup-map_values f k m ∙ rw n in
        absurd (none-ne-some (sym now ∙ e))
    | inr (v, o) ↦
        let now : lookup k (map_values f m) ≡ some (f v) = lookup-map_values f k m ∙ rw o in
        (v, o, same_value e now)
  ]

  -- The written entries hide the old ones.
  pub lookup-insert_all :
      (k : String) (us m : Map V)
      → IsMap us
      → lookup k (insert_all us m) ≡ elim (lookup k us) [ some v ↦ some v | none ↦ lookup k m ]
  unfolding insert_all lookup
  lookup-insert_all k [] m i = refl
  lookup-insert_all k ((j, v) ∷ us) m i = elim (Bool-cases (j == k)) [
    | inl e ↦
        let here : lookup k us ≡ none = subst (λ x. lookup x us ≡ none) ((eq_iff j k).0 e) i.0 in
        rw e (lookup-insert_all k us (insert j v m) i.1 ∙ rw here (lookup-insert j k v m ∙ rw e))
    | inr e ↦ rw e (
        lookup-insert_all k us (insert j v m) i.1
        ∙ ap
            (λ (o : Option V). elim (lookup k us) as (λ x. Option V) [ some w ↦ some w | none ↦ o ])
            (lookup-insert j k v m ∙ rw e))
  ]

  pub insert_all-cases :
      (k : String) (w : V) (us m : Map V)
      → IsMap us
      → lookup k (insert_all us m) ≡ some w
      → (lookup k us ≡ some w) ⊎ ((lookup k us ≡ none) × (lookup k m ≡ some w))
  insert_all-cases k w us m i h = elim (Option-cases (lookup k us)) [
    | inl e ↦
        let now : lookup k (insert_all us m) ≡ lookup k m = lookup-insert_all k us m i ∙ rw e in
        inr (e, sym now ∙ h)
    | inr (v, e) ↦
        let now : lookup k (insert_all us m) ≡ some v = lookup-insert_all k us m i ∙ rw e in
        inl (e ∙ ap some (same_value now h))
  ]
