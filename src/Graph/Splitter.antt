-- ===== src/Graph/Splitter.antt =====
-- hwprivacy-daemon/src/pipewire_monitor.rs: `BlockSplitter`, which finds the arrays in the monitor's
-- stream, and one child of `run_monitor`. `serde_json::from_str` is the parameter `parse`, and an
-- `i32` is its word of 32 bits.
use hwprivacy.Common.{
  ℕ, ◌+◌, ◌%◌, ◌^◌, Bool, true, false, Option, none, some, List, [], ◌∷◌, ◌++◌, ◌==◌, nat_eq,
  if◌then◌else◌,
}
use hwprivacy.Common.Text.{Text, trim}
use hwprivacy.Graph.{GraphSnapshot}
use hwprivacy.Graph.Json.{Json, Proc}
use hwprivacy.Graph.State.{
  GraphState, Applied, new_graph, apply_block, snapshot, link_ids, node_ids,
}

pub record BlockSplitter : Type 0 where
  pub buf : Text
  pub depth : ℕ
  pub in_string : Bool
  pub escaped : Bool

abbrev pub new_splitter : BlockSplitter
new_splitter = record { buf = []; depth = 0; in_string = false; escaped = false }

-- `depth += 1` and `depth -= 1`
abbrev pub deeper : ℕ → ℕ
deeper depth = (depth + 1) % 2 ^ 32

abbrev pub shallower : ℕ → ℕ
shallower depth = (depth + 0xffffffff) % 2 ^ 32

-- `self.buf.push(ch)`
abbrev pub push : BlockSplitter → ℕ → BlockSplitter
push splitter ch = record splitter { buf = splitter.buf ++ ch ∷ [] }

module _ {ℓ} {V : Type ℓ} (parse : Text → Option V) where
  -- The splitter, and the blocks that the chunk finished.
  pub record Fed : Type ℓ where
    pub splitter : BlockSplitter
    pub out : List V

  abbrev pub add_parsed : List V → Option V → List V
  add_parsed out none = out
  add_parsed out (some block) = out ++ block ∷ []

  -- A closing bracket outside of a string. A block that does not parse is dropped.
  unfoldable pub close_bracket : Fed → Fed
  close_bracket fed =
      let splitter = fed.splitter in
      let depth = shallower splitter.depth in
      if depth == 0
      then record {
        splitter = record splitter { buf = []; depth = depth };
        out = add_parsed fed.out (parse (trim splitter.buf));
      }
      else record fed { splitter = record splitter { depth = depth } }

  -- The `match` on a character that is not escaped.
  unfoldable pub read_char : Fed → ℕ → Fed
  unfolding close_bracket
  read_char fed ch =
      let splitter = fed.splitter in
      if splitter.in_string
      then if ch == b'\\'
        then record fed { splitter = record splitter { escaped = true } }
        else if ch == b'"'
        then record fed { splitter = record splitter { in_string = false } }
        else fed
      else if ch == b'"'
      then record fed { splitter = record splitter { in_string = true } }
      else if ch == b'['
      then record fed { splitter = record splitter { depth = deeper splitter.depth } }
      else if ch == b']'
      then close_bracket fed
      else fed

  -- One round of the loop.
  unfoldable pub feed_char : Fed → ℕ → Fed
  unfolding read_char
  feed_char fed ch =
      let pushed : Fed = record fed { splitter = push fed.splitter ch } in
      if fed.splitter.escaped
      then record pushed { splitter = record pushed.splitter { escaped = false } }
      else read_char pushed ch

  unfoldable pub feed_chars : Fed → Text → Fed
  unfolding feed_char
  feed_chars fed [] = fed
  feed_chars fed (ch ∷ chunk) = feed_chars (feed_char fed ch) chunk

  unfoldable pub feed : BlockSplitter → Text → Fed
  unfolding feed_chars
  feed splitter chunk = feed_chars (record { splitter = splitter; out = [] }) chunk

pub record GraphUpdate : Type 0 where
  pub seed : Bool
  pub snapshot : GraphSnapshot
  pub new_link_ids : List ℕ
  pub link_ids : List ℕ
  pub node_ids : List ℕ

module _ ⦃js : Json⦄ ⦃proc : Proc⦄ where
  abbrev pub update_of : Bool → Applied → GraphUpdate
  update_of seed applied = record {
    seed = seed;
    snapshot = snapshot applied.graph;
    new_link_ids = applied.new_links;
    link_ids = link_ids applied.graph;
    node_ids = node_ids applied.graph;
  }

  -- What a child of the supervisor reads its lines into.
  pub record Child : Type 0 where
    pub graph : GraphState
    pub blocks_seen : ℕ
    pub updates : List GraphUpdate

  -- `blocks_seen += 1` on `u64`
  abbrev pub next_block : ℕ → ℕ
  next_block n = (n + 1) % 2 ^ 64

  -- One block of a line.
  abbrev pub take_block : Child → List js.Value → Child
  take_block child objects =
      let applied = apply_block child.graph objects in
      let blocks_seen = next_block child.blocks_seen in
      record {
        graph = applied.graph;
        blocks_seen = blocks_seen;
        updates = child.updates ++ update_of (blocks_seen == 1) applied ∷ [];
      }

  -- The `for` loop over the blocks of a line.
  unfoldable pub take_blocks : Child → List (List js.Value) → Child
  take_blocks child [] = child
  take_blocks child (objects ∷ blocks) = take_blocks (take_block child objects) blocks

  module _ (parse : Text → Option (List js.Value)) where
    -- The inner loop, until the child's output ends.
    unfoldable pub read_lines : Child → BlockSplitter → List Text → Child
    unfolding take_blocks
    read_lines child splitter [] = child
    read_lines child splitter (line ∷ lines) =
        let fed = feed parse splitter line in
        read_lines (take_blocks child fed.out) fed.splitter lines

    -- A child starts from an empty graph: nothing of the one before is kept.
    unfoldable pub run_child : List Text → List GraphUpdate
    unfolding read_lines
    run_child lines =
        (read_lines (record { graph = new_graph; blocks_seen = 0; updates = [] }) new_splitter
          lines).updates

    -- The updates of the children that ran, one after the other.
    unfoldable pub run_monitor : List (List Text) → List GraphUpdate
    unfolding run_child
    run_monitor [] = []
    run_monitor (lines ∷ children) = run_child lines ++ run_monitor children
