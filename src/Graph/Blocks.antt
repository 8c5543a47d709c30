-- ===== src/Graph/Blocks.antt =====
-- The streams that `BlockSplitter` is for, as they are written: white space and arrays, in whose
-- strings brackets may stand.
pub mod Steps
pub mod Stream
use mathlib.Core.List.{append-nil, append_assoc}
use hwprivacy.Common.{
  ℕ, zero, suc, ◌+◌, ◌-◌, ◌%◌, ◌^◌, ◌<◌, ◌≤◌, ◌≡◌, refl, sym, ap, ◌∙◌, inl, inr, Bool, true, false,
  not, ◌&&◌, Option, none, some, List, [], ◌∷◌, ◌++◌, arith, ◌==◌, ==→≡, ==_refl, nat_eq,
  if◌then◌else◌, All, leb, filter_map, map, Bool-cases, Option-cases,
}
use hwprivacy.Common.Text.Laws.{trim_end-append_one}
use hwprivacy.Common.Text.{Text, trim, trim_start, trim_end, is_whitespace}
use hwprivacy.Graph.Splitter.{
  BlockSplitter, new_splitter, deeper, shallower, push, Fed, add_parsed, close_bracket, read_char,
  feed_char, feed_chars, feed,
}

-- A character of a string: as it stands, or behind a backslash.
pub data StringChar : Type 0 where
  literal escape : ℕ → StringChar

-- What stands between the brackets of an array, as far as brackets and strings go.
pub data Items : Type 0 where
  done : Items
  plain : ℕ → Items → Items
  quoted : List StringChar → Items → Items
  nested : Items → Items → Items

unfoldable pub string_text : List StringChar → Text
string_text [] = []
string_text (literal c ∷ body) = c ∷ string_text body
string_text (escape c ∷ body) = b'\\' ∷ c ∷ string_text body

unfoldable pub items_text : Items → Text
unfolding string_text
items_text done = []
items_text (plain c rest) = c ∷ items_text rest
items_text (quoted body rest) = b'"' ∷ string_text body ++ b'"' ∷ items_text rest
items_text (nested inner rest) = b'[' ∷ items_text inner ++ b']' ∷ items_text rest

abbrev pub block_text : Items → Text
block_text items = b'[' ∷ items_text items ++ b']' ∷ []

abbrev pub is_plain : ℕ → Bool
is_plain c = not (c == b'"') && not (c == b'[') && not (c == b']')

abbrev pub is_literal : StringChar → Bool
is_literal (literal c) = not (c == b'"') && not (c == b'\\')
is_literal (escape c) = true

-- The text reads back as these items: no quote, bracket or backslash stands where it would mean
-- something else, and the arrays nest less than `fuel` deep.
abbrev pub IsWritten : ℕ → Items → Type 0
IsWritten fuel done = Unit
IsWritten fuel (plain c rest) = (is_plain c ≡ true) × IsWritten fuel rest
IsWritten fuel (quoted body rest) = All (λ c. is_literal c ≡ true) body × IsWritten fuel rest
IsWritten zero (nested inner rest) = ⊥
IsWritten (suc fuel) (nested inner rest) = IsWritten fuel inner × IsWritten (suc fuel) rest

-- A stream: white space and an array, as often as it goes.
abbrev pub stream_text : List (Text × Items) → Text
stream_text [] = []
stream_text ((gap, items) ∷ blocks) = gap ++ block_text items ++ stream_text blocks

abbrev pub IsStream : List (Text × Items) → Type 0
IsStream blocks =
    All (λ (gap, items). All (λ c. is_whitespace c ≡ true) gap × IsWritten 2_000_000_000 items)
      blocks

abbrev pub texts : List (Text × Items) → List Text
texts blocks = map (λ (_, items). block_text items) blocks

abbrev pub concat : List Text → Text
concat [] = []
concat (chunk ∷ chunks) = chunk ++ concat chunks
