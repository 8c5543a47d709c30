-- ===== src/Graph/Blocks/Steps.antt =====
-- What `BlockSplitter` does with the parts of an array: its strings, its inner arrays and the rest.
use mathlib.Core.List.{append-nil, append_assoc}
use hwprivacy.Common.{
  ℕ, zero, suc, ◌+◌, ◌<◌, ◌≡◌, refl, sym, ap, ◌∙◌, true, false, Option, List, [], ◌∷◌, ◌++◌, arith,
  nat_eq, All,
}
use hwprivacy.Common.Text.{Text}
use hwprivacy.Graph.Splitter.{deeper, Fed, close_bracket, read_char, feed_char, feed_chars}
use hwprivacy.Graph.Blocks.{
  StringChar, literal, escape, Items, done, plain, quoted, nested, string_text, items_text,
  is_plain, is_literal, IsWritten,
}

module _ {ℓ} {V : Type ℓ} (parse : Text → Option V) where
  pub feed_chars-append :
      (fed : Fed parse) (s t : Text)
      → feed_chars parse fed (s ++ t) ≡ feed_chars parse (feed_chars parse fed s) t
  unfolding feed_chars
  feed_chars-append fed [] t = refl
  feed_chars-append fed (c ∷ s) t = feed_chars-append (feed_char parse fed c) s t

  -- Between strings, and within one.
  abbrev pub outside : Text → ℕ → List V → Fed parse
  outside buf depth out = record {
    splitter = record { buf = buf; depth = depth; in_string = false; escaped = false };
    out = out;
  }

  abbrev pub inside : Text → ℕ → List V → Fed parse
  inside buf depth out = record {
    splitter = record { buf = buf; depth = depth; in_string = true; escaped = false };
    out = out;
  }

  module _ (buf : Text) (depth : ℕ) (out : List V) where
    pub feed_plain :
        (c : ℕ)
        → is_plain c ≡ true
        → feed_char parse (outside buf depth out) c ≡ outside (buf ++ c ∷ []) depth out
    unfolding feed_char read_char
    feed_plain c h = ground arith

    feed_literal :
        (c : ℕ)
        → is_literal (literal c) ≡ true
        → feed_char parse (inside buf depth out) c ≡ inside (buf ++ c ∷ []) depth out
    unfolding feed_char read_char
    feed_literal c h = ground arith

    feed_escape :
        (c : ℕ)
        → feed_char parse (feed_char parse (inside buf depth out) b'\\') c
          ≡ inside ((buf ++ b'\\' ∷ []) ++ c ∷ []) depth out
    unfolding feed_char read_char nat_eq
    feed_escape c = refl

    feed_open_quote :
        feed_char parse (outside buf depth out) b'"' ≡ inside (buf ++ b'"' ∷ []) depth out
    unfolding feed_char read_char nat_eq
    feed_open_quote = refl

    feed_close_quote :
        feed_char parse (inside buf depth out) b'"' ≡ outside (buf ++ b'"' ∷ []) depth out
    unfolding feed_char read_char nat_eq
    feed_close_quote = refl

    feed_open :
        feed_char parse (outside buf depth out) b'[' ≡ outside (buf ++ b'[' ∷ []) (deeper depth) out
    unfolding feed_char read_char nat_eq
    feed_open = refl

    feed_close :
        feed_char parse (outside buf depth out) b']'
        ≡ close_bracket parse (outside (buf ++ b']' ∷ []) depth out)
    unfolding feed_char read_char nat_eq
    feed_close = refl

  abbrev pub outside_at : ℕ → List V → Text → Fed parse
  outside_at depth out buf = outside buf depth out

  abbrev pub inside_at : ℕ → List V → Text → Fed parse
  inside_at depth out buf = inside buf depth out

  feed_body :
      (buf : Text) (depth : ℕ) (out : List V) (body : List StringChar)
      → All (λ c. is_literal c ≡ true) body
      → feed_chars parse (inside buf depth out) (string_text body)
        ≡ inside (buf ++ string_text body) depth out
  unfolding string_text feed_chars
  feed_body buf depth out [] h = ap (inside_at depth out) (sym (append-nil buf))
  feed_body buf depth out (literal c ∷ body) (l, h) =
      ap (λ f. feed_chars parse f (string_text body)) (feed_literal buf depth out c l)
      ∙ feed_body (buf ++ c ∷ []) depth out body h
      ∙ ap (inside_at depth out) (append_assoc buf (c ∷ []) (string_text body))
  feed_body buf depth out (escape c ∷ body) (l, h) =
      ap (λ f. feed_chars parse f (string_text body)) (feed_escape buf depth out c)
      ∙ feed_body ((buf ++ b'\\' ∷ []) ++ c ∷ []) depth out body h
      ∙ ap (inside_at depth out) (
          append_assoc (buf ++ b'\\' ∷ []) (c ∷ []) (string_text body)
          ∙ append_assoc buf (b'\\' ∷ []) (c ∷ string_text body))

  -- A string, from quote to quote.
  feed_quoted :
      (buf : Text) (depth : ℕ) (out : List V) (body : List StringChar) (rest : Text)
      → All (λ c. is_literal c ≡ true) body
      → feed_chars parse (outside buf depth out) (b'"' ∷ string_text body ++ b'"' ∷ rest)
        ≡ feed_chars parse
            (outside (((buf ++ b'"' ∷ []) ++ string_text body) ++ b'"' ∷ []) depth out)
            rest
  unfolding feed_chars
  feed_quoted buf depth out body rest h =
      ap (λ f. feed_chars parse f (string_text body ++ b'"' ∷ rest)) (feed_open_quote buf depth out)
      ∙ feed_chars-append (inside (buf ++ b'"' ∷ []) depth out) (string_text body) (b'"' ∷ rest)
      ∙ ap (λ f. feed_chars parse (feed_char parse f b'"') rest)
          (feed_body (buf ++ b'"' ∷ []) depth out body h)
      ∙ ap (λ f. feed_chars parse f rest)
          (feed_close_quote ((buf ++ b'"' ∷ []) ++ string_text body) depth out)

  close_inner :
      (buf : Text) (depth : ℕ) (out : List V)
      → 0 < depth
      → depth < 4_000_000_000
      → close_bracket parse (outside buf (deeper depth) out) ≡ outside buf depth out
  unfolding close_bracket nat_eq
  close_inner buf depth out p q = ground arith

  append_quoted :
      (buf s t : Text) (c d : ℕ) → (((buf ++ c ∷ []) ++ s) ++ d ∷ []) ++ t ≡ buf ++ (c ∷ s ++ d ∷ t)
  append_quoted buf s t c d =
      append_assoc ((buf ++ c ∷ []) ++ s) (d ∷ []) t
      ∙ append_assoc (buf ++ c ∷ []) s (d ∷ t)
      ∙ append_assoc buf (c ∷ []) (s ++ d ∷ t)

  pub feed_bracketed :
      (buf : Text) (depth : ℕ) (out : List V) (inner : Items) (rest : Text)
      → feed_chars parse (outside (buf ++ b'[' ∷ []) (deeper depth) out) (items_text inner)
        ≡ outside ((buf ++ b'[' ∷ []) ++ items_text inner) (deeper depth) out
      → feed_chars parse (outside buf depth out) (b'[' ∷ items_text inner ++ b']' ∷ rest)
        ≡ feed_chars parse
            (close_bracket parse
              (outside (((buf ++ b'[' ∷ []) ++ items_text inner) ++ b']' ∷ []) (deeper depth) out))
            rest
  unfolding feed_chars
  feed_bracketed buf depth out inner rest h =
      ap (λ f. feed_chars parse f (items_text inner ++ b']' ∷ rest)) (feed_open buf depth out)
      ∙ feed_chars-append (outside (buf ++ b'[' ∷ []) (deeper depth) out) (items_text inner)
          (b']' ∷ rest)
      ∙ ap (λ f. feed_chars parse (feed_char parse f b']') rest) h
      ∙ ap (λ f. feed_chars parse f rest)
          (feed_close ((buf ++ b'[' ∷ []) ++ items_text inner) (deeper depth) out)

  pub feed_items :
      (buf : Text) (depth fuel : ℕ) (out : List V) (items : Items)
      → IsWritten fuel items
      → 0 < depth
      → depth + fuel < 4_000_000_000
      → feed_chars parse (outside buf depth out) (items_text items)
        ≡ outside (buf ++ items_text items) depth out
  unfolding items_text feed_chars
  feed_items buf depth fuel out done w p q = ap (outside_at depth out) (sym (append-nil buf))
  feed_items buf depth fuel out (plain c rest) (h, w) p q =
      ap (λ f. feed_chars parse f (items_text rest)) (feed_plain buf depth out c h)
      ∙ feed_items (buf ++ c ∷ []) depth fuel out rest w p q
      ∙ ap (outside_at depth out) (append_assoc buf (c ∷ []) (items_text rest))
  feed_items buf depth fuel out (quoted body rest) (h, w) p q =
      feed_quoted buf depth out body (items_text rest) h
      ∙ feed_items (((buf ++ b'"' ∷ []) ++ string_text body) ++ b'"' ∷ []) depth fuel out rest w p q
      ∙ ap (outside_at depth out) (append_quoted buf (string_text body) (items_text rest) b'"' b'"')
  feed_items buf depth zero out (nested inner rest) w p q = elim w [ ]
  feed_items buf depth (suc fuel) out (nested inner rest) (v, w) p q =
      feed_bracketed buf depth out inner (items_text rest)
        (feed_items (buf ++ b'[' ∷ []) (deeper depth) fuel out inner v (omega arith) (omega arith))
      ∙ ap (λ f. feed_chars parse f (items_text rest))
          (close_inner (((buf ++ b'[' ∷ []) ++ items_text inner) ++ b']' ∷ []) depth out p
            (omega arith))
      ∙ feed_items (((buf ++ b'[' ∷ []) ++ items_text inner) ++ b']' ∷ []) depth (suc fuel) out rest
          w p q
      ∙ ap (outside_at depth out) (append_quoted buf (items_text inner) (items_text rest) b'[' b']')
