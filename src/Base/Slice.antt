-- ===== src/Base/Slice.antt =====
-- Go's slices: `sort.Slice`, and the window that the list operations cut out.
pub mod Sorted
use Prim.Native.String.{compare}
use text.Mathlib.Text.{is_lt}
use astra_storage.Base.Names.{
  ℕ, zero, suc, ◌+◌, ◌-◌, ◌≤◌, ◌<◌, String, Bool, true, false, Option, none, some, List, [], ◌∷◌,
  ◌++◌, ◌≡◌, refl, arith, inl, inr, ◌⊎◌, ◌||◌,
}
use astra_storage.Base.Tests.{ltb, leb, if◌then◌else◌, length, All, All-imp, Bool-cases}
use astra_storage.Base.Int.{ℤ, pos, negsuc, pos_part, leb_ℤ, ltb_ℤ}

-- Go's < on strings. Code points are compared, which orders valid UTF-8 as bytes do.
abbrev pub text_lt : String → String → Bool
text_lt a b = is_lt (compare a b)

module _ {ℓ} {A : Type ℓ} where
  abbrev pub take : ℕ → List A → List A
  take zero xs = []
  take (suc n) [] = []
  take (suc n) (x ∷ xs) = x ∷ take n xs

  abbrev pub drop : ℕ → List A → List A
  drop zero xs = xs
  drop (suc n) [] = []
  drop (suc n) (x ∷ xs) = drop n xs

  -- A negative offset counts as 0, and a limit that is not positive as no limit.
  unfoldable pub apply_list_window : List A → ℤ → ℤ → List A
  apply_list_window items limit offset =
      let rest = drop (pos_part offset) items in
      if leb (length items) (pos_part offset)
      then []
      else if leb_ℤ limit (pos 0) || leb (length rest) (pos_part limit)
      then rest
      else take (pos_part limit) rest

  module _ (less : A → A → Bool) where
    insert_sorted : A → List A → List A
    insert_sorted x [] = x ∷ []
    insert_sorted x (y ∷ ys) =
        let rest = insert_sorted x ys in if less x y then x ∷ y ∷ ys else y ∷ rest

    -- sort.Slice. It leaves the order of ties open; here an item goes behind its ties.
    unfoldable pub sort_slice : List A → List A
    unfolding insert_sorted
    sort_slice [] = []
    sort_slice (x ∷ xs) = insert_sorted x (sort_slice xs)
