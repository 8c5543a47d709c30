-- ===== src/Names/Normalize.antt =====
-- `normalize_app_name` is idempotent: a stored key looks itself up.
use mathlib.Core.List.{append_assoc}
use hwprivacy.Common.{
  ℕ, zero, suc, ◌≤◌, ◌≡◌, refl, sym, ap, subst, ◌∙◌, ◌⊎◌, inl, inr, true, false, none, some, [],
  ◌∷◌, ◌++◌, arith, length, take, All, Bool-cases, Option-cases, nat_eq,
}
use hwprivacy.Common.Text.{
  Text, codes, trim, trim_end, trim_start, strip_prefix, ends_with, find_char, rfind,
}
use hwprivacy.Common.Text.Laws.{
  IsPrefix, prefix_refl, prefix_trans, take-prefix, trim_end-prefix, All-prefix, trim_end_idem,
  length-trim_end, trim_start-prefix, trim_start-fixed, trim_end-fixed, trim_of_parts, trim_idem,
  strip_prefix-append, strip_prefix-some, find_char-append, find_char-cut, rfind-lt-length,
  length-take-le, trim_end-append_one,
}
use hwprivacy.Names.{
  Lowercase, alsa_plugin_prefix, strip_annotations, alsa_key, normalize_alsa, normalize_lower,
  normalize_app_name,
}

-- The loop has nothing left to strip.
abbrev pub IsSettled : Text → Type 0
IsSettled key = (ends_with key b']' ≡ false) ⊎ (rfind (codes " [") key ≡ none)

strip_annotations-IsSettled :
    (fuel : ℕ) (key : Text) → length key ≤ fuel → IsSettled (strip_annotations fuel key)
unfolding strip_annotations ends_with
strip_annotations-IsSettled zero [] h = inl refl
strip_annotations-IsSettled zero (c ∷ key) h = absurd (omega arith)
strip_annotations-IsSettled (suc fuel) key h = elim (Bool-cases (ends_with key b']')) [
  | inr e ↦ rw (e, strip_annotations) (inl e)
  | inl e ↦ elim (Option-cases (rfind (codes " [") key)) [
    | inl f ↦ rw (e, f, strip_annotations) (inr f)
    | inr (idx, f) ↦
        rw (e, f, strip_annotations)
          (strip_annotations-IsSettled fuel (trim_end (take idx key)) (
            omega (
              arith,
              length-trim_end (take idx key),
              length-take-le idx key,
              rfind-lt-length b' ' (codes "[") key idx f,
            )))
  ]
]

strip_annotations_fuel :
    (fuel more : ℕ) (key : Text)
    → length key ≤ fuel
    → length key ≤ more
    → strip_annotations fuel key ≡ strip_annotations more key
unfolding strip_annotations ends_with
strip_annotations_fuel zero zero key h k = refl
strip_annotations_fuel zero (suc more) [] h k = refl
strip_annotations_fuel zero (suc more) (c ∷ key) h k = absurd (omega arith)
strip_annotations_fuel (suc fuel) zero [] h k = refl
strip_annotations_fuel (suc fuel) zero (c ∷ key) h k = absurd (omega arith)
strip_annotations_fuel (suc fuel) (suc more) key h k = elim (Bool-cases (ends_with key b']')) [
  | inr e ↦ rw (e, strip_annotations) refl
  | inl e ↦ elim (Option-cases (rfind (codes " [") key)) [
    | inl f ↦ rw (e, f, strip_annotations) refl
    | inr (idx, f) ↦
        let shorter : suc (length (trim_end (take idx key))) ≤ length key = omega (
          arith,
          length-trim_end (take idx key),
          length-take-le idx key,
          rfind-lt-length b' ' (codes "[") key idx f,
        ) in
        rw (e, f, strip_annotations)
          (strip_annotations_fuel fuel more (trim_end (take idx key)) (omega arith) (omega arith))
  ]
]

-- With the name's length as fuel, or more, the loop of `normalize_app_name` ends because it has nothing
-- left to strip, and what it leaves does not depend on the fuel.
pub strip_annotations_ends :
    (fuel : ℕ) (key : Text)
    → length key ≤ fuel
    → IsSettled (strip_annotations fuel key)
      × (strip_annotations fuel key ≡ strip_annotations (length key) key)
strip_annotations_ends fuel key h = (
  strip_annotations-IsSettled fuel key h,
  strip_annotations_fuel fuel (length key) key h (omega arith),
)

strip_annotations_settled :
    (fuel : ℕ) (key : Text) → IsSettled key → strip_annotations fuel key ≡ key
unfolding strip_annotations
strip_annotations_settled zero key h = refl
strip_annotations_settled (suc fuel) key (inl e) = rw (e, strip_annotations)
strip_annotations_settled (suc fuel) key (inr e) = ground arith

strip_annotations-prefix : (fuel : ℕ) (key : Text) → IsPrefix (strip_annotations fuel key) key
unfolding strip_annotations
strip_annotations-prefix zero key = prefix_refl key
strip_annotations-prefix (suc fuel) key = elim (Bool-cases (ends_with key b']')) [
  | inr e ↦ rw (e, strip_annotations) (prefix_refl key)
  | inl e ↦ elim (Option-cases (rfind (codes " [") key)) [
    | inl f ↦ rw (e, f, strip_annotations) (prefix_refl key)
    | inr (idx, f) ↦
        rw (e, f, strip_annotations)
          (prefix_trans _ (trim_end (take idx key)) key
            (strip_annotations-prefix fuel (trim_end (take idx key)))
            (prefix_trans _ (take idx key) key (trim_end-prefix (take idx key))
              (take-prefix idx key)))
  ]
]

strip_annotations-trim_end :
    (fuel : ℕ) (key : Text)
    → trim_end key ≡ key
    → trim_end (strip_annotations fuel key) ≡ strip_annotations fuel key
unfolding strip_annotations
strip_annotations-trim_end zero key h = h
strip_annotations-trim_end (suc fuel) key h = elim (Bool-cases (ends_with key b']')) [
  | inr e ↦ rw (e, strip_annotations) h
  | inl e ↦ elim (Option-cases (rfind (codes " [") key)) [
    | inl f ↦ rw (e, f, strip_annotations) h
    | inr (idx, f) ↦
        rw (e, f, strip_annotations)
          (strip_annotations-trim_end fuel (trim_end (take idx key)) (trim_end_idem (take idx key)))
  ]
]

-- The plugin's form is not cut: either the prefix is missing or no bracket closes it.
abbrev IsPlain : Text → Type 0
IsPlain s =
    (rest : Text) → strip_prefix alsa_plugin_prefix s ≡ some rest → find_char b']' rest ≡ none

normalize_lower_plain : (s : Text) → IsPlain s → normalize_lower s ≡ strip_annotations (length s) s
unfolding normalize_lower
normalize_lower_plain s h = elim (Option-cases (strip_prefix alsa_plugin_prefix s)) [
  | inl e ↦ rw (e, normalize_lower)
  | inr (rest, e) ↦ rw (e, normalize_lower, h rest e, normalize_alsa)
]

normalize_lower_alsa :
    (s rest : Text) (end : ℕ)
    → strip_prefix alsa_plugin_prefix s ≡ some rest
    → find_char b']' rest ≡ some end
    → normalize_lower s ≡ alsa_key rest end
unfolding normalize_lower
normalize_lower_alsa s rest end starts found = rw (starts, normalize_lower, found, normalize_alsa)

-- A beginning of such a text is such a text.
IsPlain-prefix : (k t s : Text) → s ≡ k ++ t → IsPlain s → IsPlain k
IsPlain-prefix k t s e h rest starts = elim (Option-cases (find_char b']' rest)) [
  | inl f ↦ f
  | inr (i, f) ↦ absurd (cc (h (rest ++ t) whole, find_char-append b']' rest t i f))
]
  where
    whole : strip_prefix alsa_plugin_prefix s ≡ some (rest ++ t)
    whole =
        rw (e, strip_prefix-some alsa_plugin_prefix k rest starts)
          (rw (append_assoc alsa_plugin_prefix rest t)
            (strip_prefix-append alsa_plugin_prefix (rest ++ t)))

module _ ⦃lc : Lowercase⦄ where
  abbrev AllLower : Text → Type 0
  AllLower = All (λ c. lc.is_lower c ≡ true)

  -- A text in lower case with nothing to trim is looked up as it is.
  normalize_app_name_trimmed :
      (s : Text) → AllLower s → trim s ≡ s → normalize_app_name s ≡ normalize_lower s
  unfolding normalize_app_name
  normalize_app_name_trimmed s low e = rw (e, lc.unchanged s low)

  normalize_plain_idem :
      (s : Text)
      → AllLower s
      → trim s ≡ s
      → IsPlain s
      → normalize_app_name (normalize_lower s) ≡ normalize_lower s
  normalize_plain_idem s low trimmed plain =
      let k = strip_annotations (length s) s in
      let (t, begins) = strip_annotations-prefix (length s) s in
      let settled = strip_annotations-IsSettled (length s) s (omega arith) in
      let k_low : AllLower k = All-prefix _ k t (subst AllLower begins low) in
      let k_trimmed : trim k ≡ k =
        trim_of_parts k
          (trim_start-prefix k t
            (subst (λ u. trim_start u ≡ u) begins (trim_start-fixed s trimmed)))
          (strip_annotations-trim_end (length s) s (trim_end-fixed s trimmed)) in
      rw (normalize_lower_plain s plain) (
        normalize_app_name_trimmed k k_low k_trimmed
        ∙ normalize_lower_plain k (IsPlain-prefix k t s begins plain)
        ∙ strip_annotations_settled (length k) k settled)

  normalize_alsa_idem :
      (s rest : Text) (end : ℕ)
      → AllLower s
      → trim s ≡ s
      → strip_prefix alsa_plugin_prefix s ≡ some rest
      → find_char b']' rest ≡ some end
      → normalize_app_name (alsa_key rest end) ≡ alsa_key rest end
  unfolding nat_eq
  normalize_alsa_idem s rest end low trimmed starts found =
      let (found_again, cut_again, (t, begins)) = find_char-cut b']' rest end found in
      let whole : s ≡ alsa_key rest end ++ t =
        strip_prefix-some alsa_plugin_prefix s rest starts
        ∙ ap (◌++◌ alsa_plugin_prefix) begins
        ∙ sym (append_assoc alsa_plugin_prefix (take end rest ++ b']' ∷ []) t) in
      let k_low : AllLower (alsa_key rest end) =
        All-prefix _ (alsa_key rest end) t (subst AllLower whole low) in
      let k_trimmed : trim (alsa_key rest end) ≡ alsa_key rest end =
        trim_of_parts (alsa_key rest end)
          (trim_start-prefix (alsa_key rest end) t
            (subst (λ u. trim_start u ≡ u) whole (trim_start-fixed s trimmed)))
          (subst (λ u. trim_end u ≡ u) (append_assoc alsa_plugin_prefix (take end rest) (b']' ∷ []))
            (trim_end-append_one (alsa_plugin_prefix ++ take end rest) b']' refl)) in
      normalize_app_name_trimmed (alsa_key rest end) k_low k_trimmed
      ∙ normalize_lower_alsa (alsa_key rest end) (take end rest ++ b']' ∷ []) end
          (strip_prefix-append alsa_plugin_prefix (take end rest ++ b']' ∷ [])) found_again
      ∙ ap (λ u. alsa_plugin_prefix ++ (u ++ b']' ∷ [])) cut_again

  -- Normalising a normalised name changes nothing.
  pub normalize_app_name_idem :
      (app_name : Text)
      → normalize_app_name (normalize_app_name app_name) ≡ normalize_app_name app_name
  normalize_app_name_idem app_name = unfold normalize_app_name in normalized_again
    where
      s : Text
      s = lc.to_lowercase (trim app_name)

      trimmed : trim s ≡ s
      trimmed = lc.trimmed (trim app_name) (trim_idem app_name)

      low : AllLower s
      low = lc.lowered (trim app_name)

      plain : IsPlain s → normalize_app_name (normalize_lower s) ≡ normalize_lower s
      plain = normalize_plain_idem s low trimmed

      normalized_again : normalize_app_name (normalize_lower s) ≡ normalize_lower s
      normalized_again = elim (Option-cases (strip_prefix alsa_plugin_prefix s)) [
        | inl e ↦ plain (λ rest starts. cc)
        | inr (rest, e) ↦ elim (Option-cases (find_char b']' rest)) [
          | inl f ↦ plain (λ r starts. ground (arith, e))
          | inr (end, f) ↦
              rw (normalize_lower_alsa s rest end e f)
                (normalize_alsa_idem s rest end low trimmed e f)
        ]
      ]
