-- ===== src/Common/Text.antt =====
-- Texts as lists of Unicode code points, and the methods of `str` that the program calls.
-- Indices count code points where Rust counts bytes; both stand for the same places.
pub mod Laws
use Prim.Native.Nat.{ℕ, suc}
use Prim.Native.Char.{code}
use Prim.Native.String.{String}
use mathlib.Core.Bool.{Bool, true, false, ◌&&◌, ◌||◌}
use mathlib.Core.Option.{Option, none, some}
use mathlib.Core.List.{List, [], ◌∷◌}
use hwprivacy.Common.Equality.{◌==◌, nat_eq, list_eq, leb, contains, if◌then◌else◌}
use hwprivacy.Common.Lists.{is_empty}

abbrev pub Text : Type 0
Text = List ℕ

-- The code points of a literal.
abbrev pub codes : String → Text
codes String.[] = []
codes (String.◌∷◌ c s) = code c ∷ codes s

-- `char::is_whitespace`: the code points with the property `White_Space`.
abbrev pub is_whitespace : ℕ → Bool
is_whitespace c =
    (leb 9 c && leb c 13)
    || contains (0x20 ∷ 0x85 ∷ 0xa0 ∷ 0x1680 ∷ []) c
    || (leb 0x2000 c && leb c 0x200a)
    || contains (0x2028 ∷ 0x2029 ∷ 0x202f ∷ 0x205f ∷ 0x3000 ∷ []) c

unfoldable pub trim_start : Text → Text
trim_start [] = []
trim_start (c ∷ s) = let rest = trim_start s in if is_whitespace c then rest else c ∷ s

unfoldable pub trim_end : Text → Text
trim_end [] = []
trim_end (c ∷ s) =
    let rest = trim_end s in if is_empty rest && is_whitespace c then [] else c ∷ rest

unfoldable pub trim : Text → Text
unfolding trim_start trim_end
trim s = trim_end (trim_start s)

-- `s.strip_prefix(prefix)`
unfoldable pub strip_prefix : Text → Text → Option Text
strip_prefix [] s = some s
strip_prefix (p ∷ prefix) [] = none
strip_prefix (p ∷ prefix) (c ∷ s) =
    let rest = strip_prefix prefix s in if p == c then rest else none

abbrev pub starts_with : Text → Text → Bool
starts_with s prefix = elim (strip_prefix prefix s) [ none ↦ false | some _ ↦ true ]

-- `s.ends_with(c)` for a character
unfoldable pub ends_with : Text → ℕ → Bool
ends_with [] c = false
ends_with (x ∷ s) c = let rest = ends_with s c in if is_empty s then x == c else rest

-- `s.find(c)` for a character: the first place
unfoldable pub find_char : ℕ → Text → Option ℕ
find_char c [] = none
find_char c (x ∷ s) =
    let rest = find_char c s in
    if x == c then some 0 else elim rest [ none ↦ none | some i ↦ some (suc i) ]

-- `s.rfind(pat)`: the last place
unfoldable pub rfind : Text → Text → Option ℕ
unfolding strip_prefix
rfind pat [] = if is_empty pat then some 0 else none
rfind pat (x ∷ s) = elim (rfind pat s) [
  | some i ↦ some (suc i)
  | none ↦ if starts_with (x ∷ s) pat then some 0 else none
]

-- `s.rsplit(c).next()`: what follows the last `c`
unfoldable pub after_last : ℕ → Text → Text
after_last c [] = []
after_last c (x ∷ s) =
    let rest = after_last c s in if contains s c then rest else if x == c then s else x ∷ s
