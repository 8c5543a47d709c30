-- ===== src/Common/Text/Laws.antt =====
-- What trimming, cutting and searching do to a text.
use Prim.Native.Nat.{ℕ, zero, suc, ◌≤◌, ◌<◌}
use mathlib.Core.Path.{◌≡◌, refl, ap, subst, sym, ◌∙◌}
use mathlib.Core.Logic.{◌≢◌, inl, inr}
use mathlib.Core.Bool.{true, false, ◌&&◌}
use mathlib.Core.Option.{none, some}
use mathlib.Core.List.{[], ◌∷◌, ◌++◌, append-nil, append_assoc}
use native.Mathlib.Omega.{arith}
use hwprivacy.Common.Equality.{nat_eq, ==_refl, Option-cases, Bool-cases}
use hwprivacy.Common.Lists.{length, take, drop, take-append-drop, All, is_empty}
use hwprivacy.Common.Text.{
  Text, is_whitespace, trim_start, trim_end, trim, strip_prefix, ends_with, find_char, rfind,
}

-- `k` is the beginning of `s`.
abbrev pub IsPrefix : Text → Text → Type 0
IsPrefix k s = (t : Text) × (s ≡ k ++ t)

pub prefix_refl : (s : Text) → IsPrefix s s
prefix_refl s = ([], sym (append-nil s))

pub prefix_trans : (k l m : Text) → IsPrefix k l → IsPrefix l m → IsPrefix k m
prefix_trans k l m (t, p) (u, q) = (t ++ u, rw (q, p) (append_assoc k t u))

pub take-prefix : (n : ℕ) (s : Text) → IsPrefix (take n s) s
take-prefix n s = (drop n s, sym (take-append-drop n s))

pub trim_end-prefix : (s : Text) → IsPrefix (trim_end s) s
unfolding trim_end
trim_end-prefix [] = ([], refl)
trim_end-prefix (c ∷ s) =
    let (t, e) = trim_end-prefix s in
    elim (Bool-cases (is_empty (trim_end s) && is_whitespace c)) [
      | inl h ↦ rw h (c ∷ s, refl)
      | inr h ↦ rw h (t, ap (◌∷◌ c) e)
    ]

pub All-prefix {κ} : (P : ℕ → Type κ) (k t : Text) → All P (k ++ t) → All P k
All-prefix P [] t h = tt
All-prefix P (c ∷ k) t (p, h) = (p, All-prefix P k t h)

pub trim_end_idem : (s : Text) → trim_end (trim_end s) ≡ trim_end s
unfolding trim_end
trim_end_idem [] = refl
trim_end_idem (c ∷ s) = ground (arith, trim_end_idem s)

pub length-trim_end : (s : Text) → length (trim_end s) ≤ length s
unfolding trim_end
length-trim_end [] = omega arith
length-trim_end (c ∷ s) = ground (arith, length-trim_end s)

length-trim_start : (s : Text) → length (trim_start s) ≤ length s
unfolding trim_start
length-trim_start [] = omega arith
length-trim_start (c ∷ s) = ground (arith, length-trim_start s)

trim_start_head : (c : ℕ) (s : Text) → trim_start (c ∷ s) ≡ c ∷ s → is_whitespace c ≡ false
unfolding trim_start
trim_start_head c s h = elim (Bool-cases (is_whitespace c)) [
  | inl e ↦ absurd (omega (arith, length-trim_start s, ap length (rw e at h)))
  | inr e ↦ e
]

pub trim_start-prefix : (k t : Text) → trim_start (k ++ t) ≡ k ++ t → trim_start k ≡ k
unfolding trim_start
trim_start-prefix [] t h = refl
trim_start-prefix (c ∷ k) t h = rw (trim_start_head c (k ++ t) h)

pub trim_start_idem : (s : Text) → trim_start (trim_start s) ≡ trim_start s
unfolding trim_start
trim_start_idem [] = refl
trim_start_idem (c ∷ s) = ground (arith, trim_start_idem s)

trim_start-trim_end : (s : Text) → trim_start s ≡ s → trim_start (trim_end s) ≡ trim_end s
trim_start-trim_end s h =
    let (t, e) = trim_end-prefix s in
    trim_start-prefix (trim_end s) t (subst (λ u. trim_start u ≡ u) e h)

-- Trimming leaves nothing to trim at either side.
pub trim_start-trim : (s : Text) → trim_start (trim s) ≡ trim s
unfolding trim
trim_start-trim s = trim_start-trim_end (trim_start s) (trim_start_idem s)

pub trim_end-trim : (s : Text) → trim_end (trim s) ≡ trim s
unfolding trim
trim_end-trim s = trim_end_idem (trim_start s)

pub trim_start-fixed : (s : Text) → trim s ≡ s → trim_start s ≡ s
trim_start-fixed s h = subst (λ u. trim_start u ≡ u) h (trim_start-trim s)

pub trim_end-fixed : (s : Text) → trim s ≡ s → trim_end s ≡ s
trim_end-fixed s h = subst (λ u. trim_end u ≡ u) h (trim_end-trim s)

pub trim_of_parts : (s : Text) → trim_start s ≡ s → trim_end s ≡ s → trim s ≡ s
unfolding trim
trim_of_parts s h k = ap trim_end h ∙ k

pub trim_idem : (s : Text) → trim (trim s) ≡ trim s
trim_idem s = trim_of_parts (trim s) (trim_start-trim s) (trim_end-trim s)

pub strip_prefix-append : (p s : Text) → strip_prefix p (p ++ s) ≡ some s
unfolding strip_prefix
strip_prefix-append [] s = refl
strip_prefix-append (c ∷ p) s = rw (==_refl c) (strip_prefix-append p s)

pub strip_prefix-some : (p s r : Text) → strip_prefix p s ≡ some r → s ≡ p ++ r
unfolding strip_prefix
strip_prefix-some [] s r h = ground arith
strip_prefix-some (c ∷ p) [] r h = cc
strip_prefix-some (c ∷ p) (x ∷ s) r h = ground (arith, strip_prefix-some p s r)

pub find_char-append :
    (c : ℕ) (s t : Text) (i : ℕ) → find_char c s ≡ some i → find_char c (s ++ t) ≡ some i
unfolding find_char
find_char-append c [] t i h = cc
find_char-append c (x ∷ s) t i h = elim (Option-cases (find_char c s)) [
  | inl e ↦ ground arith
  | inr (j, e) ↦ ground (arith, find_char-append c s t j e)
]

pub find_char-cut :
    (c : ℕ) (s : Text) (i : ℕ)
    → find_char c s ≡ some i
    → (find_char c (take i s ++ c ∷ []) ≡ some i)
      × (take i (take i s ++ c ∷ []) ≡ take i s)
      × IsPrefix (take i s ++ c ∷ []) s
unfolding find_char
find_char-cut c [] i h = cc
find_char-cut c (x ∷ s) zero h = elim (Option-cases (find_char c s)) [
  | inl e ↦ (ground arith, refl, (s, ground arith))
  | inr (j, e) ↦ (ground arith, refl, (s, ground arith))
]
find_char-cut c (x ∷ s) (suc i) h = elim (Option-cases (find_char c s)) [
  | inl e ↦ absurd (ground arith)
  | inr (j, e) ↦
      let (found, cut, (t, begins)) = find_char-cut c s i (ground arith) in
      (ground arith, ap (◌∷◌ x) cut, (t, ap (◌∷◌ x) begins))
]

pub find_char-ends_with : (c : ℕ) (s : Text) → ends_with s c ≡ true → find_char c s ≢ none
unfolding find_char ends_with
find_char-ends_with c [] h = cc
find_char-ends_with c (x ∷ s) h = ground (arith, find_char-ends_with c s)

pub rfind-lt-length : (p : ℕ) (pat s : Text) (i : ℕ) → rfind (p ∷ pat) s ≡ some i → i < length s
unfolding rfind
rfind-lt-length p pat [] i h = cc
rfind-lt-length p pat (x ∷ s) i h = elim (Option-cases (rfind (p ∷ pat) s)) [
  | inl e ↦ ground arith
  | inr (j, e) ↦ ground (arith, rfind-lt-length p pat s j e)
]

pub length-take-le : (n : ℕ) (s : Text) → length (take n s) ≤ n
length-take-le zero s = omega arith
length-take-le (suc n) [] = omega arith
length-take-le (suc n) (c ∷ s) = omega (arith, length-take-le n s)

-- A text that ends in no space keeps its end.
pub trim_end-append_one :
    (s : Text) (c : ℕ) → is_whitespace c ≡ false → trim_end (s ++ c ∷ []) ≡ s ++ c ∷ []
unfolding trim_end
trim_end-append_one [] c h = rw h
trim_end-append_one (x ∷ []) c h = rw h
trim_end-append_one (x ∷ y ∷ s) c h = rw (trim_end-append_one (y ∷ s) c h)
