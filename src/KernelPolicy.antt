-- ===== src/KernelPolicy.antt =====
-- hwprivacy-lsm/src/policy.rs: the kernel's allowlist, parsed from a file and rendered to the cache.
-- The resolution of a path to the file's numbers, `PolicyKey::from_path`, is the parameter `resolve`.
pub mod Cache
pub mod Merge
use hwprivacy.Common.{
  ℕ, ◌%◌, ◌≡◌, refl, sym, ap, ◌∙◌, Bool, true, false, not, ◌&&◌, Option, none, some, List, [], ◌∷◌,
  ◌++◌, arith, Eq, ◌==◌, nat_eq, list_eq, if◌then◌else◌, is_empty, contains, contains-append, All,
  Bool-cases, inl, inr,
}
use hwprivacy.Common.Text.{Text, codes, trim, trim_start, trim_end, starts_with, strip_prefix}
use hwprivacy.KernelPerms.{perms_word, parse_perms, has_camera, has_audio, parse_perms-perms_word}

-- `PolicyKey`: an inode and a device.
pub record PolicyKey : Type 0 where
  pub exe_ino : ℕ
  pub exe_dev : ℕ

pub record PolicyEntry : Type 0 where
  pub path : Text
  pub key : PolicyKey
  pub perms : ℕ

-- Why a path was not resolved.
pub data Unresolved : Type 0 where
  unknown_permissions : Text → Unresolved
  not_absolute : Unresolved
  cannot_stat : Unresolved

pub record Policy : Type 0 where
  pub entries : List PolicyEntry
  pub unresolved : List (Text × Unresolved)

abbrev pub empty_policy : Policy
empty_policy = record { entries = []; unresolved = [] }

abbrev pub push_unresolved : Policy → Text → Unresolved → Policy
push_unresolved p path reason = record p { unresolved = p.unresolved ++ (path, reason) ∷ [] }

-- `line.split_once(' ')`
unfoldable pub split_space : Text → Option (Text × Text)
split_space [] = none
split_space (c ∷ s) =
    let rest = split_space s in
    if c == b' ' then some ([], s) else elim rest [ none ↦ none | some r ↦ some (c ∷ r.0, r.1) ]

-- `raw.split('#').next()`
unfoldable pub before_hash : Text → Text
before_hash [] = []
before_hash (c ∷ s) = let rest = before_hash s in if c == b'#' then [] else c ∷ rest

-- `(perms, path_str)`, or the unknown word and the path.
unfoldable pub parse_entry : Text → (Text × Option ℕ × Text)
parse_entry line = elim (split_space line) [
  | none ↦ ([], some 1, line)
  | some (head, rest) ↦
      if starts_with head (codes "/")
      then ([], some 1, line)
      else (head, parse_perms head, trim rest)
]

-- `text.lines()`. The carriage return that it drops from a line's end is white space, which the
-- parser trims, or follows a `#`.
unfoldable pub lines_of : Text → List Text
lines_of [] = []
lines_of (c ∷ s) =
    let rest = lines_of s in
    if c == b'\n' then [] ∷ rest else elim rest [ [] ↦ (c ∷ []) ∷ [] | l ∷ ls ↦ (c ∷ l) ∷ ls ]

module _ (resolve : Text → Option PolicyKey) where
  unfoldable pub push_path : Policy → ℕ → Text → Policy
  push_path p perms path = elim (resolve path) [
    | none ↦ push_unresolved p path cannot_stat
    | some key ↦ record p {
      entries = p.entries ++ record { path = path; key = key; perms = perms } ∷ [];
    }
  ]

  -- `allow_path`, as from a repeated `--allow`
  unfoldable pub allow_path : Policy → Text → Policy
  unfolding push_path
  allow_path p path = push_path p 1 path

  -- What `Policy::parse` does with the parts of a line.
  abbrev pub read_entry : Policy → Text × Option ℕ × Text → Policy
  read_entry p (head, none, path) = push_unresolved p path (unknown_permissions head)
  read_entry p (head, some perms, path) =
      if not (starts_with path (codes "/"))
      then push_unresolved p path not_absolute
      else push_path p perms path

  -- One round of the loop of `Policy::parse`.
  unfoldable pub parse_line : Policy → Text → Policy
  parse_line p raw =
      let line = trim (before_hash raw) in
      if is_empty line then p else read_entry p (parse_entry line)

  unfoldable pub parse_lines : Policy → List Text → Policy
  parse_lines p [] = p
  parse_lines p (line ∷ lines) = parse_lines (parse_line p line) lines

  -- `Policy::parse`
  unfoldable pub parse : Text → Policy
  parse text = parse_lines empty_policy (lines_of text)

-- `render_cache`: the heading, and a line for each path.
abbrev pub heading : List Text
heading =
    codes "# hwprivacy kernel allowlist cache — WRITTEN BY hwprivacy-lsm, DO NOT EDIT."
    ∷ codes "# Rewritten in full every time the daemon pushes a policy."
    ∷ codes "# Exists so enforcement survives a reboot: without it the helper starts"
    ∷ codes "# with an empty allowlist and denies the camera to everything until the"
    ∷ codes "# user session comes up and pushes config.toml."
    ∷ codes "# Enforcement on/off is NOT stored here — that comes from --enforce."
    ∷ codes "# Format: '<permissions> <path>'. A bare path means camera, so a cache"
    ∷ codes "# written by an older helper still loads."
    ∷ []

-- Each line, with its end.
abbrev pub unlines : List Text → Text
unlines [] = []
unlines (line ∷ lines) = line ++ b'\n' ∷ unlines lines

unfoldable pub render_entries : List (Text × ℕ) → Text
render_entries [] = []
render_entries ((path, perms) ∷ entries) =
    (perms_word perms ++ b' ' ∷ path) ++ b'\n' ∷ render_entries entries

unfoldable pub render_cache : List (Text × ℕ) → Text
unfolding render_entries
render_cache entries = unlines heading ++ render_entries entries
