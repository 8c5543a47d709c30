-- ===== src/Graph/Blocks/Stream.antt =====
-- `BlockSplitter` finds the arrays of a stream: however the stream is cut into chunks, and whatever
-- brackets stand in its strings.
use mathlib.Core.List.{append-nil, append_assoc}
use hwprivacy.Common.{
  ℕ, ◌≡◌, refl, sym, ap, ◌∙◌, true, Option, none, some, List, [], ◌∷◌, ◌++◌, arith, ◌==◌, ==→≡,
  nat_eq, All, filter_map, Bool-cases, Option-cases,
}
use hwprivacy.Common.Text.Laws.{trim_end-append_one}
use hwprivacy.Common.Text.{Text, trim, trim_start, trim_end, is_whitespace}
use hwprivacy.Graph.Splitter.{
  BlockSplitter, new_splitter, deeper, Fed, add_parsed, close_bracket, read_char, feed_char,
  feed_chars, feed,
}
use hwprivacy.Graph.Blocks.{
  Items, items_text, block_text, is_plain, IsWritten, stream_text, IsStream, texts, concat,
}
use hwprivacy.Graph.Blocks.Steps.{
  feed_chars-append, outside, outside_at, feed_plain, feed_bracketed, feed_items,
}

trim_start-gap :
    (gap s : Text) → All (λ c. is_whitespace c ≡ true) gap → trim_start (gap ++ s) ≡ trim_start s
unfolding trim_start
trim_start-gap [] s h = refl
trim_start-gap (c ∷ gap) s (w, h) = rw (w, trim_start-gap gap s h)

trim_start-block : (items : Items) → trim_start (block_text items) ≡ block_text items
unfolding trim_start nat_eq
trim_start-block items = refl

trim-block :
    (gap : Text) (items : Items)
    → All (λ c. is_whitespace c ≡ true) gap
    → trim (gap ++ block_text items) ≡ block_text items
unfolding trim nat_eq
trim-block gap items h =
    ap trim_end (trim_start-gap gap (block_text items) h ∙ trim_start-block items)
    ∙ trim_end-append_one (b'[' ∷ items_text items) b']' refl

module _ {ℓ} {V : Type ℓ} (parse : Text → Option V) where
  -- White space means nothing to the splitter.
  space_plain : (c : ℕ) → is_whitespace c ≡ true → is_plain c ≡ true
  unfolding nat_eq
  space_plain c h = ground (
    arith,
    ==→≡ c b'"',
    ==→≡ c b'[',
    ==→≡ c b']',
    Bool-cases (c == b'"'),
    Bool-cases (c == b'['),
    Bool-cases (c == b']'),
  )

  feed_gap :
      (buf : Text) (depth : ℕ) (out : List V) (gap : Text)
      → All (λ c. is_whitespace c ≡ true) gap
      → feed_chars parse (outside parse buf depth out) gap ≡ outside parse (buf ++ gap) depth out
  unfolding feed_chars
  feed_gap buf depth out [] h = ap (outside_at parse depth out) (sym (append-nil buf))
  feed_gap buf depth out (c ∷ gap) (s, h) =
      ap (λ f. feed_chars parse f gap) (feed_plain parse buf depth out c (space_plain c s))
      ∙ feed_gap (buf ++ c ∷ []) depth out gap h
      ∙ ap (outside_at parse depth out) (append_assoc buf (c ∷ []) gap)

  close_outer :
      (buf : Text) (out : List V)
      → close_bracket parse (outside parse buf (deeper 0) out)
        ≡ outside parse [] 0 (add_parsed parse out (parse (trim buf)))
  unfolding close_bracket nat_eq
  close_outer buf out = refl

  feed_block :
      (gap : Text) (out : List V) (items : Items) (rest : Text)
      → All (λ c. is_whitespace c ≡ true) gap
      → IsWritten 2_000_000_000 items
      → feed_chars parse (outside parse [] 0 out) ((gap ++ block_text items) ++ rest)
        ≡ feed_chars parse
            (outside parse [] 0 (add_parsed parse out (parse (trim (gap ++ block_text items)))))
            rest
  unfolding feed_chars
  feed_block gap out items rest s w =
      feed_chars-append parse (outside parse [] 0 out) (gap ++ block_text items) rest
      ∙ ap (λ f. feed_chars parse f rest)
          (feed_chars-append parse (outside parse [] 0 out) gap (block_text items)
            ∙ ap (λ f. feed_chars parse f (block_text items)) (feed_gap [] 0 out gap s)
            ∙ feed_bracketed parse gap 0 out items [] (
                feed_items parse (gap ++ b'[' ∷ []) 1 2_000_000_000 out items w (omega arith)
                  (omega arith))
            ∙ close_outer (((gap ++ b'[' ∷ []) ++ items_text items) ++ b']' ∷ []) out
            ∙ ap (λ t. outside parse [] 0 (add_parsed parse out (parse (trim t))))
                (append_assoc (gap ++ b'[' ∷ []) (items_text items) (b']' ∷ [])
                  ∙ append_assoc gap (b'[' ∷ []) (items_text items ++ b']' ∷ [])))

  add_parsed-append :
      (out rest : List V) (o : Option V)
      → add_parsed parse out o ++ rest ≡ out ++ elim o [ none ↦ rest | some v ↦ v ∷ rest ]
  add_parsed-append out rest none = refl
  add_parsed-append out rest (some v) = append_assoc out (v ∷ []) rest

  feed_stream :
      (blocks : List (Text × Items)) (out : List V)
      → IsStream blocks
      → feed_chars parse (outside parse [] 0 out) (stream_text blocks)
        ≡ outside parse [] 0 (out ++ filter_map parse (texts blocks))
  unfolding feed_chars
  feed_stream [] out h = ap (outside parse [] 0) (sym (append-nil out))
  feed_stream ((gap, items) ∷ blocks) out ((s, w), h) =
      feed_block gap out items (stream_text blocks) s w
      ∙ ap
          (λ t.
            feed_chars parse (outside parse [] 0 (add_parsed parse out (parse t)))
              (stream_text blocks))
          (trim-block gap items s)
      ∙ feed_stream blocks (add_parsed parse out (parse (block_text items))) h
      ∙ ap (outside parse [] 0)
          (add_parsed-append out (filter_map parse (texts blocks)) (parse (block_text items)))

  -- What was handed out before stays in front.
  feed_char-out :
      (splitter : BlockSplitter) (out : List V) (c : ℕ)
      → feed_char parse (record { splitter = splitter; out = out }) c
        ≡ record (feed_char parse (record { splitter = splitter; out = [] }) c) {
          out = out ++ (feed_char parse (record { splitter = splitter; out = [] }) c).out;
        }
  unfolding feed_char read_char close_bracket
  feed_char-out splitter out c =
      ground (arith, append-nil out, Option-cases (parse (trim (splitter.buf ++ c ∷ []))))

  -- What a later part of the input hands out comes behind what an earlier part did.
  abbrev after : List V → Fed parse → Fed parse
  after out fed = record fed { out = out ++ fed.out }

  feed_chars-out :
      (splitter : BlockSplitter) (out : List V) (s : Text)
      → feed_chars parse (record { splitter = splitter; out = out }) s
        ≡ after out (feed parse splitter s)
  unfolding feed_chars feed
  feed_chars-out splitter out [] =
      ap (λ (o : List V). record { splitter = splitter; out = o }) (sym (append-nil out))
  feed_chars-out splitter out (c ∷ s) =
      let fed = feed_char parse (record { splitter = splitter; out = [] }) c in
      ap (λ f. feed_chars parse f s) (feed_char-out splitter out c)
      ∙ feed_chars-out fed.splitter (out ++ fed.out) s
      ∙ ap (λ (o : List V). record (feed parse fed.splitter s) { out = o })
          (append_assoc out fed.out (feed parse fed.splitter s).out)
      ∙ ap (after out) (sym (feed_chars-out fed.splitter fed.out s))

  -- The chunks of an input, one call of `feed` for each.
  abbrev pub feed_chunks : BlockSplitter → List Text → Fed parse
  feed_chunks splitter [] = record { splitter = splitter; out = [] }
  feed_chunks splitter (chunk ∷ chunks) =
      let fed = feed parse splitter chunk in after fed.out (feed_chunks fed.splitter chunks)

  -- From any splitter, an input that is fed in chunks hands out the blocks, in order, and leaves the
  -- splitter as the same input does that is fed at once. That holds of any input.
  pub feed-chunks :
      (splitter : BlockSplitter) (chunks : List Text)
      → feed_chunks splitter chunks ≡ feed parse splitter (concat chunks)
  unfolding feed feed_chars
  feed-chunks splitter [] = refl
  feed-chunks splitter (chunk ∷ chunks) =
      let fed = feed parse splitter chunk in
      ap (after fed.out) (feed-chunks fed.splitter chunks)
      ∙ sym (feed_chars-out fed.splitter fed.out (concat chunks))
      ∙ sym
          (feed_chars-append parse (record { splitter = splitter; out = [] }) chunk (concat chunks))

  -- Take a stream of arrays with white space before each, nested less than two thousand million deep,
  -- with any brackets and escaped quotes in their strings, cut into chunks anywhere. A new splitter
  -- hands out exactly those of the arrays that parse, in order, and each is parsed as it was
  -- written. After them the splitter is as new.
  pub feed_stream_lem :
      (blocks : List (Text × Items)) (chunks : List Text)
      → IsStream blocks
      → concat chunks ≡ stream_text blocks
      → feed_chunks new_splitter chunks
        ≡ record { splitter = new_splitter; out = filter_map parse (texts blocks) }
  unfolding feed
  feed_stream_lem blocks chunks h e =
      feed-chunks new_splitter chunks ∙ ap (feed parse new_splitter) e ∙ feed_stream blocks [] h
