-- ===== src/KernelPerms.antt =====
-- hwprivacy-lsm/src/policy.rs: the permission bits of the kernel's allowlist and the word that
-- stands for them in the cache file.
use hwprivacy.Common.{
  ℕ, ◌+◌, ◌/◌, ◌%◌, ◌≡◌, refl, Bool, true, false, Option, none, some, List, [], ◌∷◌, ◌++◌, arith,
  ◌==◌, nat_eq, list_eq, if◌then◌else◌, is_empty, Bool-cases,
}
use hwprivacy.Common.Text.{Text, codes, trim}

-- `perms & PERM_CAMERA != 0`: the bit 0.
abbrev pub has_camera : ℕ → Bool
has_camera perms = perms % 2 == 1

-- `perms & PERM_AUDIO != 0`: the bit 1.
abbrev pub has_audio : ℕ → Bool
has_audio perms = perms / 2 % 2 == 1

-- `PERM_CAMERA` and `PERM_AUDIO`
pub data Perm : Type 0 where
  perm_camera perm_audio : Perm

abbrev pub has : Perm → ℕ → Bool
has perm_camera perms = has_camera perms
has perm_audio perms = has_audio perms

-- `bits |= PERM_CAMERA`
abbrev pub set_camera : ℕ → ℕ
set_camera bits = if has_camera bits then bits else bits + 1

-- `bits |= PERM_AUDIO`
abbrev pub set_audio : ℕ → ℕ
set_audio bits = if has_audio bits then bits else bits + 2

-- `parts.join(",")`
unfoldable pub join : List Text → Text
join [] = []
join (s ∷ ss) = let rest = join ss in if is_empty ss then s else s ++ b',' ∷ rest

-- The parts that `perms_word` collects.
unfoldable pub perms_parts : ℕ → List Text
perms_parts perms =
    let parts =
      (if has_camera perms then codes "camera" ∷ [] else [])
      ++ (if has_audio perms then codes "audio" ∷ [] else []) in
    if is_empty parts then codes "none" ∷ [] else parts

unfoldable pub perms_word : ℕ → Text
unfolding join perms_parts
perms_word perms = join (perms_parts perms)

-- `word.split(',')`: the first piece and the others. There is always one.
unfoldable pub split_commas : Text → Text × List Text
split_commas [] = ([], [])
split_commas (c ∷ s) =
    let (piece, pieces) = split_commas s in
    if c == b',' then ([], piece ∷ pieces) else (c ∷ piece, pieces)

-- One round of the loop of `parse_perms`.
unfoldable pub parse_part : Text → ℕ → Option ℕ
parse_part part bits =
    let word = trim part in
    if word == codes "camera"
    then some (set_camera bits)
    else if word == codes "audio"
    then some (set_audio bits)
    else if word == codes "none"
    then some bits
    else none

unfoldable pub parse_parts : List Text → ℕ → Option ℕ
unfolding parse_part
parse_parts [] bits = some bits
parse_parts (part ∷ parts) bits = elim (parse_part part bits) [
  | none ↦ none
  | some bits' ↦ parse_parts parts bits'
]

unfoldable pub parse_perms : Text → Option ℕ
unfolding split_commas parse_parts
parse_perms word = let (piece, pieces) = split_commas word in parse_parts (piece ∷ pieces) 0

parse-word :
    (a b : Bool) (perms : ℕ)
    → has_camera perms ≡ a
    → has_audio perms ≡ b
    → parse_perms (perms_word perms) ≡ some ((if a then 1 else 0) + (if b then 2 else 0))
unfolding parse_perms perms_word nat_eq list_eq trim
parse-word true true perms c d = rw (c, d) refl
parse-word true false perms c d = rw (c, d) refl
parse-word false true perms c d = rw (c, d) refl
parse-word false false perms c d = rw (c, d) refl

-- The word of some permission bits reads back as the two bits that the kernel knows.
pub parse_perms-perms_word : (perms : ℕ) → parse_perms (perms_word perms) ≡ some (perms % 4)
parse_perms-perms_word perms = ground (
  arith,
  parse-word (has_camera perms) (has_audio perms) perms refl refl,
  Bool-cases (has_camera perms),
  Bool-cases (has_audio perms),
)
