-- ===== src/Base/Slice/Sorted.antt =====
-- What `sort.Slice` and a cut at a count keep and order, for any order that the comparison follows.
use astra_storage.Base.Names.{
  ℕ, zero, suc, ◌≤◌, Bool, true, false, List, [], ◌∷◌, ◌≡◌, refl, sym, ap, arith, inl, inr, ◌⊎◌,
  subst, ◌||◌,
}
use astra_storage.Base.Tests.{length, All, All-imp, Bool-cases, leb}
use astra_storage.Base.Int.{ℤ, pos, pos_part, leb_ℤ}
use astra_storage.Base.Slice.{take, drop, apply_list_window, sort_slice, insert_sorted}

module _ {A : Type 0} where
  -- The places at which an item stands.
  abbrev pub Mem : A → List A → Type 0
  Mem a [] = ⊥
  Mem a (x ∷ xs) = (a ≡ x) ⊎ Mem a xs

  pub All-Mem {κ} : {P : A → Type κ} (xs : List A) → ((a : A) → Mem a xs → P a) → All P xs
  All-Mem [] f = tt
  All-Mem (x ∷ xs) f = (f x (inl refl), All-Mem xs (λ a h. f a (inr h)))

  pub Mem-take : (n : ℕ) (xs : List A) (a : A) → Mem a (take n xs) → Mem a xs
  Mem-take zero xs a h = elim h [ ]
  Mem-take (suc n) [] a h = h
  Mem-take (suc n) (x ∷ xs) a (inl e) = inl e
  Mem-take (suc n) (x ∷ xs) a (inr h) = inr (Mem-take n xs a h)

  Mem-drop : (n : ℕ) (xs : List A) (a : A) → Mem a (drop n xs) → Mem a xs
  Mem-drop zero xs a h = h
  Mem-drop (suc n) [] a h = h
  Mem-drop (suc n) (x ∷ xs) a h = inr (Mem-drop n xs a h)

  pub Mem-apply_list_window :
      (xs : List A) (limit offset : ℤ) (a : A)
      → Mem a (apply_list_window xs limit offset)
      → Mem a xs
  unfolding apply_list_window
  Mem-apply_list_window xs limit offset a h =
      elim (Bool-cases (leb (length xs) (pos_part offset))) [
        | inl e ↦ elim (rw e at h) [ ]
        | inr e ↦
            elim (Bool-cases
              (leb_ℤ limit (pos 0) || leb (length (drop (pos_part offset) xs)) (pos_part limit))) [
                | inl f ↦ Mem-drop (pos_part offset) xs a (rw (e, f) at h)
                | inr f ↦
                    Mem-drop (pos_part offset) xs a
                      (Mem-take (pos_part limit) (drop (pos_part offset) xs) a (rw (e, f) at h))
              ]
      ]

  pub length-take_le : (n : ℕ) (xs : List A) → length (take n xs) ≤ n
  length-take_le zero xs = omega arith
  length-take_le (suc n) [] = omega arith
  length-take_le (suc n) (x ∷ xs) = omega (arith, length-take_le n xs)

  module _ (less : A → A → Bool) where
    Mem-insert_sorted_from :
        (x : A) (ys : List A) (a : A) → Mem a (insert_sorted less x ys) → (a ≡ x) ⊎ Mem a ys
    unfolding insert_sorted
    Mem-insert_sorted_from x [] a h = h
    Mem-insert_sorted_from x (y ∷ ys) a h = elim (Bool-cases (less x y)) [
      | inl t ↦ rw t at h
      | inr t ↦ elim (rw t at h) [
        | inl e ↦ inr (inl e)
        | inr g ↦ elim (Mem-insert_sorted_from x ys a g) [ inl e ↦ inl e | inr m ↦ inr (inr m) ]
      ]
    ]

    Mem-insert_sorted_to :
        (x : A) (ys : List A) (a : A) → (a ≡ x) ⊎ Mem a ys → Mem a (insert_sorted less x ys)
    unfolding insert_sorted
    Mem-insert_sorted_to x [] a h = h
    Mem-insert_sorted_to x (y ∷ ys) a h = elim (Bool-cases (less x y)) [
      | inl t ↦ rw t h
      | inr t ↦ rw t (elim h [
        | inl e ↦ inr (Mem-insert_sorted_to x ys a (inl e))
        | inr (inl e) ↦ inl e
        | inr (inr m) ↦ inr (Mem-insert_sorted_to x ys a (inr m))
      ])
    ]

    pub Mem-sort_slice_from : (xs : List A) (a : A) → Mem a (sort_slice less xs) → Mem a xs
    unfolding sort_slice
    Mem-sort_slice_from [] a h = h
    Mem-sort_slice_from (x ∷ xs) a h = elim (Mem-insert_sorted_from x (sort_slice less xs) a h) [
      | inl e ↦ inl e
      | inr m ↦ inr (Mem-sort_slice_from xs a m)
    ]

    pub Mem-sort_slice_to : (xs : List A) (a : A) → Mem a xs → Mem a (sort_slice less xs)
    unfolding sort_slice
    Mem-sort_slice_to [] a h = h
    Mem-sort_slice_to (x ∷ xs) a (inl e) = Mem-insert_sorted_to x (sort_slice less xs) a (inl e)
    Mem-sort_slice_to (x ∷ xs) a (inr h) =
        Mem-insert_sorted_to x (sort_slice less xs) a (inr (Mem-sort_slice_to xs a h))

  -- Each item is in the relation to every later one.
  abbrev pub Descends {κ} : (A → A → Type κ) → List A → Type κ
  Descends R [] = Unit
  Descends R (x ∷ xs) = All (R x) xs × Descends R xs

  module _ {κ} (R : A → A → Type κ) (trans : (a b c : A) → R a b → R b c → R a c)
      (less : A → A → Bool) (follows : (a b : A) → less a b ≡ true → R a b)
      (else_back : (a b : A) → less a b ≡ false → R b a) where
    All-insert_sorted :
        (r x : A) (ys : List A) → R r x → All (R r) ys → All (R r) (insert_sorted less x ys)
    unfolding insert_sorted
    All-insert_sorted r x [] h g = (h, tt)
    All-insert_sorted r x (y ∷ ys) h g = elim (Bool-cases (less x y)) [
      | inl t ↦ rw t (h, g)
      | inr t ↦ rw t (g.0, All-insert_sorted r x ys h g.1)
    ]

    Descends-insert_sorted :
        (x : A) (ys : List A) → Descends R ys → Descends R (insert_sorted less x ys)
    unfolding insert_sorted
    Descends-insert_sorted x [] h = (tt, tt)
    Descends-insert_sorted x (y ∷ ys) h = elim (Bool-cases (less x y)) [
      | inl t ↦ rw t ((follows x y t, All-imp ys (λ z g. trans x y z (follows x y t) g) h.0), h)
      | inr t ↦
          rw t (All-insert_sorted y x ys (else_back x y t) h.0, Descends-insert_sorted x ys h.1)
    ]

    pub sort_slice-Descends : (xs : List A) → Descends R (sort_slice less xs)
    unfolding sort_slice
    sort_slice-Descends [] = tt
    sort_slice-Descends (x ∷ xs) =
        Descends-insert_sorted x (sort_slice less xs) (sort_slice-Descends xs)

  pub All-at {κ} : (P : A → Type κ) (ys : List A) (b : A) → All P ys → Mem b ys → P b
  All-at P [] b g m = elim m [ ]
  All-at P (y ∷ ys) b g (inl e) = subst P (sym e) g.0
  All-at P (y ∷ ys) b g (inr m) = All-at P ys b g.1 m

  -- What a cut leaves out is behind everything that it keeps, and then the cut is full.
  pub take-best {κ} :
      (R : A → A → Type κ) (n : ℕ) (xs : List A) (a : A)
      → Descends R xs
      → Mem a xs
      → Mem a (take n xs) ⊎ ((length (take n xs) ≡ n) × All (λ x. R x a) (take n xs))
  take-best R zero xs a d h = inr (refl, tt)
  take-best R (suc n) [] a d h = elim h [ ]
  take-best R (suc n) (x ∷ xs) a d (inl e) = inl (inl e)
  take-best R (suc n) (x ∷ xs) a d (inr h) = elim (take-best R n xs a d.1 h) [
    | inl m ↦ inl (inr m)
    | inr (full, behind) ↦ inr (ap suc full, (All-at (λ y. R x y) xs a d.0 h, behind))
  ]
