-- ===== src/KernelPolicy/Cache.antt =====
-- The cache of the kernel's allowlist reads back as what was written, so that a restart enforces it.
use mathlib.Core.List.{append_assoc}
use hwprivacy.Common.{
  ℕ, ◌%◌, ◌≡◌, refl, subst, sym, ap, ◌∙◌, Bool, true, false, Option, some, List, [], ◌∷◌, ◌++◌,
  arith, ◌==◌, ==→≡, nat_eq, list_eq, is_empty, contains, All, Bool-cases, inl, inr,
}
use hwprivacy.Common.Text.{
  Text, codes, trim, trim_start, trim_end, starts_with, strip_prefix, is_whitespace,
}
use hwprivacy.KernelPerms.{perms_word, parse_perms, has_camera, has_audio, parse_perms-perms_word}
use hwprivacy.KernelPolicy.{
  PolicyKey, Policy, empty_policy, split_space, before_hash, parse_entry, lines_of, push_path,
  parse_line, parse_lines, parse, heading, unlines, render_entries, render_cache,
}

-- A path that the cache can hold: absolute, on one line, with no `#` and no white space at its end.
abbrev pub IsCacheable : Text → Type 0
IsCacheable path =
    (starts_with path (codes "/") ≡ true)
    × (contains path b'\n' ≡ false)
    × (contains path b'#' ≡ false)
    × (trim_end path ≡ path)

-- What the entries load as.
abbrev pub load : (Text → Option PolicyKey) → Policy → List (Text × ℕ) → Policy
load resolve p [] = p
load resolve p ((path, perms) ∷ entries) =
    load resolve (push_path resolve p (perms % 4) path) entries

lines_of-append :
    (line rest : Text)
    → contains line b'\n' ≡ false
    → lines_of (line ++ b'\n' ∷ rest) ≡ line ∷ lines_of rest
unfolding lines_of nat_eq
lines_of-append [] rest h = refl
lines_of-append (c ∷ line) rest h = ground (arith, lines_of-append line rest)

before_hash-whole : (s : Text) → contains s b'#' ≡ false → before_hash s ≡ s
unfolding before_hash
before_hash-whole [] h = refl
before_hash-whole (c ∷ s) h = ground (arith, before_hash-whole s)

abbrev word : Bool → Bool → Text
word true true = codes "camera,audio"
word true false = codes "camera"
word false true = codes "audio"
word false false = codes "none"

perms_word-word :
    (a b : Bool) (perms : ℕ)
    → has_camera perms ≡ a
    → has_audio perms ≡ b
    → perms_word perms ≡ word a b
unfolding perms_word nat_eq
perms_word-word true true perms c d = rw (c, d) refl
perms_word-word true false perms c d = rw (c, d) refl
perms_word-word false true perms c d = rw (c, d) refl
perms_word-word false false perms c d = rw (c, d) refl

-- The line of an entry is on one line.
contains-word :
    (a b : Bool) (path : Text) → contains (word a b ++ b' ' ∷ path) b'\n' ≡ contains path b'\n'
unfolding nat_eq
contains-word true true path = refl
contains-word true false path = refl
contains-word false true path = refl
contains-word false false path = refl

-- The parser's first step keeps the line of an entry.
trim-word :
    (a b : Bool) (path : Text)
    → IsCacheable path
    → trim (before_hash (word a b ++ b' ' ∷ path)) ≡ word a b ++ b' ' ∷ path
unfolding before_hash trim nat_eq strip_prefix
trim-word a b [] (s, n, h, t) = ground (arith, s)
trim-word true true (c ∷ path) (s, n, h, t) = rw (before_hash-whole (c ∷ path) h, t) refl
trim-word true false (c ∷ path) (s, n, h, t) = rw (before_hash-whole (c ∷ path) h, t) refl
trim-word false true (c ∷ path) (s, n, h, t) = rw (before_hash-whole (c ∷ path) h, t) refl
trim-word false false (c ∷ path) (s, n, h, t) = rw (before_hash-whole (c ∷ path) h, t) refl

parse_entry-word :
    (a b : Bool) (path : Text)
    → trim path ≡ path
    → parse_entry (word a b ++ b' ' ∷ path) ≡ (word a b, parse_perms (word a b), path)
unfolding parse_entry nat_eq strip_prefix split_space
parse_entry-word true true path h = rw h refl
parse_entry-word true false path h = rw h refl
parse_entry-word false true path h = rw h refl
parse_entry-word false false path h = rw h refl

is_empty-word : (a b : Bool) (path : Text) → is_empty (word a b ++ path) ≡ false
is_empty-word true true path = refl
is_empty-word true false path = refl
is_empty-word false true path = refl
is_empty-word false false path = refl

parse_line-word :
    (resolve : Text → Option PolicyKey) (p : Policy) (path : Text) (a b : Bool) (perms : ℕ)
    → IsCacheable path
    → trim path ≡ path
    → parse_perms (word a b) ≡ some perms
    → parse_line resolve p (word a b ++ b' ' ∷ path) ≡ push_path resolve p perms path
unfolding parse_line
parse_line-word resolve p path a b perms h t e =
    rw (trim-word a b path h, is_empty-word a b (b' ' ∷ path), parse_entry-word a b path t, e, h.0)
      refl

not_white : is_whitespace b'/' ≡ false
unfolding nat_eq
not_white = refl

trim-cacheable : (path : Text) → IsCacheable path → trim path ≡ path
unfolding trim trim_start strip_prefix
trim-cacheable [] h = refl
trim-cacheable (c ∷ path) (s, n, h, t) = elim (Bool-cases (b'/' == c)) [
  | inl e ↦ rw (subst (λ x. is_whitespace x ≡ false) (==→≡ b'/' c e) not_white) t
  | inr e ↦ absurd (ground (arith, s, e))
]

parse_line-entry :
    (resolve : Text → Option PolicyKey) (p : Policy) (path : Text) (perms : ℕ)
    → IsCacheable path
    → parse_line resolve p (perms_word perms ++ b' ' ∷ path) ≡ push_path resolve p (perms % 4) path
parse_line-entry resolve p path perms h =
    let e = perms_word-word (has_camera perms) (has_audio perms) perms refl refl in
    rw (e) (
      parse_line-word resolve p path (has_camera perms) (has_audio perms) (perms % 4) h
        (trim-cacheable path h) (ap parse_perms (sym e) ∙ parse_perms-perms_word perms))

contains-entry :
    (perms : ℕ) (path : Text)
    → contains (perms_word perms ++ b' ' ∷ path) b'\n' ≡ contains path b'\n'
contains-entry perms path =
    rw (perms_word-word (has_camera perms) (has_audio perms) perms refl refl)
      (contains-word (has_camera perms) (has_audio perms) path)

parse_lines-entries :
    (resolve : Text → Option PolicyKey) (p : Policy) (entries : List (Text × ℕ))
    → All (λ (path, _). IsCacheable path) entries
    → parse_lines resolve p (lines_of (render_entries entries)) ≡ load resolve p entries
unfolding parse_lines render_entries lines_of
parse_lines-entries resolve p [] h = refl
parse_lines-entries resolve p ((path, perms) ∷ entries) (x, h) =
    ap (parse_lines resolve p) (
      lines_of-append (perms_word perms ++ b' ' ∷ path) (render_entries entries)
        (contains-entry perms path ∙ x.1))
    ∙ ap (λ q. parse_lines resolve q (lines_of (render_entries entries)))
        (parse_line-entry resolve p path perms x)
    ∙ parse_lines-entries resolve (push_path resolve p (perms % 4) path) entries h

-- A comment is passed over.
abbrev IsComment : Text → Type 0
IsComment line = (contains line b'\n' ≡ false) × (before_hash line ≡ [])

parse_line-comment :
    (resolve : Text → Option PolicyKey) (p : Policy) (line : Text)
    → before_hash line ≡ []
    → parse_line resolve p line ≡ p
unfolding parse_line trim
parse_line-comment resolve p line b = rw b refl

parse_lines-comments :
    (resolve : Text → Option PolicyKey) (p : Policy) (comments : List Text) (rest : Text)
    → All IsComment comments
    → parse_lines resolve p (lines_of (unlines comments ++ rest))
      ≡ parse_lines resolve p (lines_of rest)
unfolding parse_lines
parse_lines-comments resolve p [] rest h = refl
parse_lines-comments resolve p (line ∷ comments) rest ((n, b), h) =
    ap (λ text. parse_lines resolve p (lines_of text))
      (append_assoc line (b'\n' ∷ unlines comments) rest)
    ∙ ap (parse_lines resolve p) (lines_of-append line (unlines comments ++ rest) n)
    ∙ ap (λ q. parse_lines resolve q (lines_of (unlines comments ++ rest)))
        (parse_line-comment resolve p line b)
    ∙ parse_lines-comments resolve p comments rest h

heading-IsComment : All IsComment heading
unfolding nat_eq before_hash
heading-IsComment = (
  (refl, refl),
  (
    (refl, refl),
    (
      (refl, refl),
      ((refl, refl), ((refl, refl), ((refl, refl), ((refl, refl), ((refl, refl), tt))))),
    ),
  ),
)

-- Where every path of some entries is absolute, on one line, without `#` and without white space at
-- its end, the cache that is written for them parses as these entries, in order, each with the
-- kernel's two permission bits; a path that does not resolve any more is reported.
pub parse-render_cache :
    (resolve : Text → Option PolicyKey) (entries : List (Text × ℕ))
    → All (λ (path, _). IsCacheable path) entries
    → parse resolve (render_cache entries) ≡ load resolve empty_policy entries
unfolding parse render_cache
parse-render_cache resolve entries h =
    parse_lines-comments resolve empty_policy heading (render_entries entries) heading-IsComment
    ∙ parse_lines-entries resolve empty_policy entries h
