-- ===== src/Base/Text.antt =====
-- The functions of Go's package strings that the program calls, on texts as lists of characters.
use Prim.Native.Char.{code}
pub use Prim.Native.String.{◌++◌}
use astra_storage.Base.Names.{
  ℕ, String, Bool, true, false, Option, none, some, ◌&&◌, ◌||◌, ◌≡◌, refl, arith,
}
use astra_storage.Base.Tests.{leb, eq_ℕ, if◌then◌else◌, is_some}

-- s[len(p):] if `p` is a prefix of `s`.
unfoldable pub strip_prefix : String → String → Option String
strip_prefix s String.[] = some s
strip_prefix String.[] (String.◌∷◌ d p) = none
strip_prefix (String.◌∷◌ c s) (String.◌∷◌ d p) =
    let rest = strip_prefix s p in if eq_ℕ (code c) (code d) then rest else none

-- strings.HasPrefix
abbrev pub has_prefix : String → String → Bool
has_prefix s p = is_some (strip_prefix s p)

-- strings.TrimPrefix
unfoldable pub trim_prefix : String → String → String
trim_prefix s p = elim (strip_prefix s p) [ none ↦ s | some rest ↦ rest ]

unfoldable pub is_empty : String → Bool
is_empty String.[] = true
is_empty (String.◌∷◌ c s) = false

-- strings.TrimRight(s, "/")
unfoldable pub trim_right_slash : String → String
unfolding is_empty
trim_right_slash String.[] = ""
trim_right_slash (String.◌∷◌ c s) =
    let rest = trim_right_slash s in
    if is_empty rest && eq_ℕ (code c) b'/' then "" else String.◌∷◌ c rest

-- s[:strings.LastIndex(s, "/")], which panics where `s` has no slash.
unfoldable pub before_last_slash : String → Option String
before_last_slash String.[] = none
before_last_slash (String.◌∷◌ c s) = elim (before_last_slash s) [
  | some p ↦ some (String.◌∷◌ c p)
  | none ↦ if eq_ℕ (code c) b'/' then some "" else none
]

-- unicode.IsSpace
is_space : ℕ → Bool
is_space c =
    (leb 9 c && leb c 13)
    || eq_ℕ c 32
    || eq_ℕ c 0x85
    || eq_ℕ c 0xa0
    || eq_ℕ c 0x1680
    || (leb 0x2000 c && leb c 0x200a)
    || eq_ℕ c 0x2028
    || eq_ℕ c 0x2029
    || eq_ℕ c 0x202f
    || eq_ℕ c 0x205f
    || eq_ℕ c 0x3000

-- strings.TrimSpace(s) == ""
unfoldable pub is_blank : String → Bool
unfolding is_space
is_blank String.[] = true
is_blank (String.◌∷◌ c s) = is_space (code c) && is_blank s

trim_left_space : String → String
trim_left_space String.[] = ""
trim_left_space (String.◌∷◌ c s) =
    let rest = trim_left_space s in if is_space (code c) then rest else String.◌∷◌ c s

trim_right_space : String → String
trim_right_space String.[] = ""
trim_right_space (String.◌∷◌ c s) =
    let rest = trim_right_space s in
    if is_empty rest && is_space (code c) then "" else String.◌∷◌ c rest

-- strings.TrimSpace
unfoldable pub trim_space : String → String
unfolding is_space is_empty trim_left_space trim_right_space
trim_space s = trim_right_space (trim_left_space s)

pub strip_prefix_self : (s : String) → strip_prefix s s ≡ some ""
unfolding strip_prefix
strip_prefix_self String.[] = refl
strip_prefix_self (String.◌∷◌ c s) = ground (arith, strip_prefix_self s)
