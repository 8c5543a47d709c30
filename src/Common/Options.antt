-- ===== src/Common/Options.antt =====
-- The combinators of `Option` that the program chains, and the numbers that `parse` reads.
use Prim.Native.Nat.{ℕ, ◌+◌, ◌*◌, ◌-◌, ◌^◌}
use mathlib.Core.Bool.{Bool, true, false, not, ◌&&◌}
use mathlib.Core.Option.{Option, none, some}
use mathlib.Core.List.{[], ◌∷◌}
use hwprivacy.Common.Equality.{◌==◌, nat_eq, if◌then◌else◌, leb, ltb}
use hwprivacy.Common.Lists.{is_empty, all}
use hwprivacy.Common.Text.{Text}

module _ {ℓ κ} {A : Type ℓ} {B : Type κ} where
  abbrev pub and_then : Option A → (A → Option B) → Option B
  and_then none f = none
  and_then (some a) f = f a

  abbrev pub map_some : Option A → (A → B) → Option B
  map_some none f = none
  map_some (some a) f = some (f a)

module _ {ℓ} {A : Type ℓ} where
  abbrev pub or_else : Option A → Option A → Option A
  or_else none other = other
  or_else (some a) other = some a

  abbrev pub unwrap_or : Option A → A → A
  unwrap_or none default = default
  unwrap_or (some a) default = a

  abbrev pub filter_some : Option A → (A → Bool) → Option A
  filter_some none test = none
  filter_some (some a) test = if test a then some a else none

  abbrev pub is_some : Option A → Bool
  is_some none = false
  is_some (some a) = true

abbrev pub is_digit : ℕ → Bool
is_digit c = leb b'0' c && leb c b'9'

-- The value of a text of digits, from what was read before.
abbrev pub digits_value : ℕ → Text → ℕ
digits_value acc [] = acc
digits_value acc (c ∷ s) = digits_value (acc * 10 + (c - b'0')) s

abbrev pub without_plus : Text → Text
without_plus [] = []
without_plus (c ∷ s) = if c == b'+' then s else c ∷ s

-- `s.parse()` for the unsigned type of so many bits: one `+` is read over, and a text that is not
-- digits, that is empty or that is out of range is an error.
unfoldable pub parse_unsigned : ℕ → Text → Option ℕ
parse_unsigned bits s =
    let digits = without_plus s in
    if not (is_empty digits) && all is_digit digits && ltb (digits_value 0 digits) (2 ^ bits)
    then some (digits_value 0 digits)
    else none
