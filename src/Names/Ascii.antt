-- ===== src/Names/Ascii.antt =====
-- `to_lowercase` on ASCII: a `Lowercase` that evaluates, for tests and witnesses.
use hwprivacy.Common.{
  ℕ, ◌+◌, ◌≡◌, refl, ap, ◌∙◌, true, not, [], ◌∷◌, map, arith, All, is_empty, if◌then◌else◌, nat_eq,
}
use hwprivacy.Common.Text.{Text, trim, trim_start, trim_end, is_whitespace}
use hwprivacy.Names.{Lowercase, is_ascii_uppercase}

unfoldable pub lower_char : ℕ → ℕ
lower_char c = if is_ascii_uppercase c then c + 32 else c

pub lower_char-is_lower : (c : ℕ) → not (is_ascii_uppercase (lower_char c)) ≡ true
unfolding lower_char
lower_char-is_lower c = ground arith

pub lower_char-is_whitespace : (c : ℕ) → is_whitespace (lower_char c) ≡ is_whitespace c
unfolding lower_char
lower_char-is_whitespace c = ground arith

pub lowered : (s : Text) → All (λ c. not (is_ascii_uppercase c) ≡ true) (map lower_char s)
lowered [] = tt
lowered (c ∷ s) = (lower_char-is_lower c, lowered s)

pub unchanged : (s : Text) → All (λ c. not (is_ascii_uppercase c) ≡ true) s → map lower_char s ≡ s
unfolding lower_char
unchanged [] h = refl
unchanged (c ∷ s) (p, h) = ground (arith, unchanged s h)

pub trim_start-map : (s : Text) → trim_start (map lower_char s) ≡ map lower_char (trim_start s)
unfolding trim_start
trim_start-map [] = refl
trim_start-map (c ∷ s) = rw (lower_char-is_whitespace c) (ground (arith, trim_start-map s))

pub is_empty-map : (s : Text) → is_empty (map lower_char s) ≡ is_empty s
is_empty-map [] = refl
is_empty-map (c ∷ s) = refl

pub trim_end-map : (s : Text) → trim_end (map lower_char s) ≡ map lower_char (trim_end s)
unfolding trim_end
trim_end-map [] = refl
trim_end-map (c ∷ s) =
    rw (lower_char-is_whitespace c, trim_end-map s, is_empty-map (trim_end s)) (ground arith)

pub trimmed : (s : Text) → trim s ≡ s → trim (map lower_char s) ≡ map lower_char s
unfolding trim
trimmed s h = ap trim_end (trim_start-map s) ∙ trim_end-map (trim_start s) ∙ ap (map lower_char) h

instance unfoldable pub ascii_lowercase : Lowercase
unfolding lower_char
ascii_lowercase = record {
  to_lowercase = map lower_char;
  is_lower = λ c. not (is_ascii_uppercase c);
  lowered = lowered;
  unchanged = unchanged;
  ascii = λ c h. refl;
  trimmed = trimmed;
}
