-- ===== src/Base/Map/Loops.antt =====
-- What the loops over a map find: an entry of the map, and only one that passes the test.
use astra_storage.Base.Names.{
  ◌≡◌, refl, Bool, true, false, Option, none, some, [], ◌∷◌, String, ◌==◌, eq_iff, eq_refl, arith,
  inl, inr, ap, sym, ◌∙◌,
}
use astra_storage.Base.Tests.{Bool-cases, All, All-imp}
use astra_storage.Base.Slice.Sorted.{Mem}
use astra_storage.Base.Map.{Map, lookup, any_value, find_value, values_where, IsMap}

module _ {ℓ} {V : Type ℓ} where
  pub any_value-false :
      (p : V → Bool) (m : Map V) (k : String) {v : V}
      → any_value p m ≡ false
      → lookup k m ≡ some v
      → p v ≡ false
  unfolding lookup any_value
  any_value-false p [] k h e = cc
  any_value-false p ((j, w) ∷ m) k {v} h e = elim (Bool-cases (p w)) [
    | inl t ↦ cc (rw t at h)
    | inr t ↦ elim (Bool-cases (j == k)) [
      | inl s ↦ cc (rw s at e)
      | inr s ↦ any_value-false p m k (rw t at h) (rw s at e)
    ]
  ]

  pub any_value-never : (p : V → Bool) (m : Map V) → ((v : V) → p v ≡ false) → any_value p m ≡ false
  unfolding any_value
  any_value-never p [] h = refl
  any_value-never p ((j, w) ∷ m) h = rw (h w) (any_value-never p m h)

  -- A key that the rest of the map lacks is another one.
  other_key :
      (j k : String) (m : Map V) {v : V}
      → lookup j m ≡ none
      → lookup k m ≡ some v
      → (j == k) ≡ false
  other_key j k m h e = elim (Bool-cases (j == k)) [
    | inl s ↦ cc (rw ((eq_iff j k).0 s) at h)
    | inr s ↦ s
  ]

  same_entry :
      {j k : String} {w v : V}
      → Path (Option (String × V)) (some (j, w)) (some (k, v))
      → (j ≡ k) × (w ≡ v)
  same_entry h = ground arith

  pub find_value-some :
      (p : V → Bool) (m : Map V) {k : String} {v : V}
      → IsMap m
      → find_value p m ≡ some (k, v)
      → (lookup k m ≡ some v) × (p v ≡ true)
  unfolding lookup find_value
  find_value-some p [] i h = cc
  find_value-some p ((j, w) ∷ m) {k} {v} i h = elim (Bool-cases (p w)) [
    | inl t ↦
        let same : (j ≡ k) × (w ≡ v) = same_entry (rw t at h) in
        (rw ((eq_iff j k).1 same.0) (ap some same.1), rw (← same.1) t)
    | inr t ↦
        let rest : (lookup k m ≡ some v) × (p v ≡ true) = find_value-some p m i.1 (rw t at h) in
        (rw (other_key j k m i.0 rest.0) rest.0, rest.1)
  ]

  pub same_some : {v w : V} → some v ≡ some w → v ≡ w
  same_some h = cc

  -- A value that such a loop collects is a value of the map, and passes the test.
  pub values_where-mem :
      (p : V → Bool) (m : Map V)
      → IsMap m
      → All (λ v. (k : String) × (lookup k m ≡ some v) × (p v ≡ true)) (values_where p m)
  unfolding values_where
  values_where-mem p [] i = tt
  values_where-mem p ((j, w) ∷ m) i =
      let shift : All (λ v. (k : String) × (lookup k ((j, w) ∷ m) ≡ some v) × (p v ≡ true))
          (values_where p m) =
        All-imp {P = λ v. (k : String) × (lookup k m ≡ some v) × (p v ≡ true)} (values_where p m)
          (λ v e. (e.0, unfold lookup in rw (other_key j e.0 m i.0 e.1) e.1, e.2))
          (values_where-mem p m i.1) in
      elim (Bool-cases (p w)) [
        | inl t ↦ rw t ((j, unfold lookup in rw (eq_refl j) refl, t), shift)
        | inr t ↦ rw t shift
      ]

-- Every value that passes the test is collected.
pub values_where-Mem :
    {V : Type 0} (p : V → Bool) (m : Map V) (k : String) (v : V)
    → lookup k m ≡ some v
    → p v ≡ true
    → Mem v (values_where p m)
unfolding lookup values_where
values_where-Mem p [] k v h t = cc
values_where-Mem p ((j, w) ∷ m) k v h t = elim (Bool-cases (j == k)) [
  | inl e ↦ let same : w ≡ v = same_some (rw e at h) in rw (ap p same ∙ t) (inl (sym same))
  | inr e ↦
      let rest : Mem v (values_where p m) = values_where-Mem p m k v (rw e at h) t in
      elim (Bool-cases (p w)) [ inl f ↦ rw f (inr rest) | inr f ↦ rw f rest ]
]
