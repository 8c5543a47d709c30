-- ===== src/Names.antt =====
-- hwprivacy-common/src/config.rs: the two identities of a program. `normalize_app_name` is the
-- matcher of rule names, `sanitize_rule_name` makes a storable name of what a person typed, and
-- `short_name` is the last component of an executable's path.
-- `to_lowercase` is Unicode's table, and a parameter.
pub mod Normalize
pub mod Sanitize
pub mod Ascii
use Prim.Native.Nat.{◌-◌}
use hwprivacy.Common.{
  ℕ, zero, suc, ◌<◌, ◌≡◌, refl, Bool, true, false, not, ◌&&◌, ◌||◌, Option, none, some, List, [],
  ◌∷◌, ◌++◌, Eq, ◌==◌, nat_eq, list_eq, if◌then◌else◌, contains, leb, length, is_empty, take, drop,
  all, All,
}
use hwprivacy.Common.Text.{
  Text, codes, trim, trim_end, strip_prefix, ends_with, find_char, rfind, after_last, starts_with,
}

abbrev pub is_ascii_uppercase : ℕ → Bool
is_ascii_uppercase c = leb b'A' c && leb c b'Z'

abbrev pub is_ascii_digit : ℕ → Bool
is_ascii_digit c = leb b'0' c && leb c b'9'

-- `str::to_lowercase`, which Unicode's tables define. `is_lower c` says that the tables leave the
-- code point `c` as it is. What is relied on: the result holds such code points only, a text of
-- such code points does not change, ASCII but for its capitals is such, and a trimmed text stays
-- trimmed, as no space has a case.
pub record Lowercase : Type 0 where
  pub to_lowercase : Text → Text
  pub is_lower : ℕ → Bool
  pub lowered : (s : Text) → All (λ c. is_lower c ≡ true) (to_lowercase s)
  pub unchanged : (s : Text) → All (λ c. is_lower c ≡ true) s → to_lowercase s ≡ s
  pub ascii : (c : ℕ) → c < 128 → is_lower c ≡ not (is_ascii_uppercase c)
  pub trimmed : (s : Text) → trim s ≡ s → trim (to_lowercase s) ≡ to_lowercase s

-- `ALSA_PLUGIN_PREFIX`
abbrev pub alsa_plugin_prefix : Text
alsa_plugin_prefix = codes "pipewire alsa ["

-- `AUDIO_SERVER_NAMES`
abbrev pub audio_server_names : List Text
audio_server_names = codes "pipewire" ∷ codes "wireplumber" ∷ codes "pipewire-pulse" ∷ []

-- The loop `while key.ends_with(']')` of `normalize_app_name`. A round shortens the key, so the
-- key's length is enough fuel.
unfoldable pub strip_annotations : ℕ → Text → Text
strip_annotations zero key = key
strip_annotations (suc fuel) key = elim (ends_with key b']') [
  | false ↦ key
  | true ↦ elim (rfind (codes " [") key) [
    | none ↦ key
    | some idx ↦ strip_annotations fuel (trim_end (take idx key))
  ]
]

-- `&rest[..end]` between the prefix and a bracket
abbrev pub alsa_key : Text → ℕ → Text
alsa_key rest end = alsa_plugin_prefix ++ (take end rest ++ b']' ∷ [])

-- `if let Some(end) = rest.find(']') { return .. }`, and the loop otherwise.
unfoldable pub normalize_alsa : Text → Text → Text
unfolding strip_annotations
normalize_alsa lower rest = elim (find_char b']' rest) [
  | some end ↦ alsa_key rest end
  | none ↦ strip_annotations (length lower) lower
]

-- `normalize_app_name` after `trim().to_lowercase()`
unfoldable pub normalize_lower : Text → Text
unfolding normalize_alsa
normalize_lower lower = elim (strip_prefix alsa_plugin_prefix lower) [
  | some rest ↦ normalize_alsa lower rest
  | none ↦ strip_annotations (length lower) lower
]

-- The text between the last `(` and the final `)` is `pid:` and digits.
unfoldable pub is_pid : Text → Bool
is_pid inner = elim (strip_prefix (codes "pid:") inner) [
  | none ↦ false
  | some digits ↦ not (is_empty digits) && all is_ascii_digit digits
]

-- The first step of `sanitize_rule_name`: a trailing `(pid:N)` goes.
unfoldable pub strip_pid : Text → Text
unfolding is_pid
strip_pid s = elim (ends_with s b')') [
  | false ↦ s
  | true ↦ elim (rfind (codes "(") s) [
    | none ↦ s
    | some open_at ↦
        let inner = take (length s - 1 - (suc open_at)) (drop (suc open_at) s) in
        if is_pid inner then trim_end (take open_at s) else s
  ]
]

module _ ⦃lc : Lowercase⦄ where
  unfoldable pub normalize_app_name : Text → Text
  unfolding normalize_lower
  normalize_app_name app_name = normalize_lower (lc.to_lowercase (trim app_name))

  unfoldable pub sanitize_rule_name : Text → Option Text
  unfolding normalize_app_name strip_pid
  sanitize_rule_name app_name =
      let key = normalize_app_name (strip_pid (trim app_name)) in
      if is_empty key
      then none
      else if starts_with key (codes "[") && ends_with key b']'
      then none
      else some key

-- `rsplit('/').next().filter(|s| !s.is_empty()).unwrap_or(exe_path)`
unfoldable pub short_name : Text → Text
short_name exe_path =
    let last = after_last b'/' exe_path in if is_empty last then exe_path else last
