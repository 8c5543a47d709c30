-- ===== src/Graph/Invariant.antt =====
-- The invariant of `GraphState`: each map has one entry for a key, and an entry stands under its own
-- id. From it, no snapshot that the monitor hands out lists two links with one id.
use hwprivacy.Common.{
  if_holds, ℕ, ◌≡◌, refl, ap, ◌∙◌, false, Option, none, some, List, [], ◌∷◌, arith, ◌==◌, ==→≡,
  ==_refl, nat_eq, All, All-append, Map, get, get-insert, get-remove, insert, remove, contains_key,
  Bool-cases,
}
use hwprivacy.Common.Text.{Text}
use hwprivacy.Graph.{PwLink, NodeInfo, PortInfo}
use hwprivacy.Graph.Json.{Json, Proc}
use hwprivacy.Graph.Parse.{parse_link, parse_node, parse_port}
use hwprivacy.Graph.Splitter.{
  BlockSplitter, new_splitter, feed, Child, GraphUpdate, take_block, take_blocks, read_lines,
  run_child, run_monitor,
}
use hwprivacy.Graph.State.{
  GraphState, Applied, object_id, object_type, is_removal, keep_serial, insert_some, values,
  snapshot, apply_link, apply_typed, remove_object, ObjectType, client, node, port, link, other,
  apply_object, apply_objects, apply_clients, apply_block,
}
use hwprivacy.LinkAudit.{is_live}
use hwprivacy.LinkAudit.Reconcile.{DistinctIds}

-- Every entry stands under its own id, and no key has two.
abbrev pub IsKeyed {ℓ} : {V : Type ℓ} → (V → ℕ) → Map ℕ V → Type 0
IsKeyed id_of [] = Unit
IsKeyed id_of ((k, v) ∷ m) = (id_of v ≡ k) × (contains_key m k ≡ false) × IsKeyed id_of m

module _ {ℓ} {V : Type ℓ} (id_of : V → ℕ) where
  IsKeyed-insert :
      (k : ℕ) (v : V) (m : Map ℕ V) → id_of v ≡ k → IsKeyed id_of m → IsKeyed id_of (insert k v m)
  unfolding insert get
  IsKeyed-insert k v [] e h = (e, refl, tt)
  IsKeyed-insert k v ((j, w) ∷ m) e (own, fresh, h) =
      ground (arith, IsKeyed-insert k v m e h, get-insert m k j v, ==→≡ j k, Bool-cases (j == k))

  IsKeyed-remove : (k : ℕ) (m : Map ℕ V) → IsKeyed id_of m → IsKeyed id_of (remove k m)
  unfolding remove
  IsKeyed-remove k [] h = tt
  IsKeyed-remove k ((j, w) ∷ m) (own, fresh, h) =
      ground (arith, IsKeyed-remove k m h, get-remove m k j)

  IsKeyed-insert_some :
      (k : ℕ) (o : Option V) (m : Map ℕ V)
      → ((v : V) → o ≡ some v → id_of v ≡ k)
      → IsKeyed id_of m
      → IsKeyed id_of (insert_some k o m)
  IsKeyed-insert_some k none m own h = h
  IsKeyed-insert_some k (some v) m own h = IsKeyed-insert k v m (own v refl) h

abbrev link_ids_of : PwLink → ℕ
link_ids_of seen = seen.link_id

is_live-values :
    (m : Map ℕ PwLink) (id : ℕ) → IsKeyed link_ids_of m → is_live (values m) id ≡ contains_key m id
unfolding get
is_live-values [] id h = refl
is_live-values ((k, v) ∷ m) id (own, fresh, h) =
    ground (arith, is_live-values m id h, ==→≡ k id, ==→≡ v.link_id id, ==_refl id)

DistinctIds-values : (m : Map ℕ PwLink) → IsKeyed link_ids_of m → DistinctIds (values m)
DistinctIds-values [] h = tt
DistinctIds-values ((k, v) ∷ m) (own, fresh, h) =
    (is_live-values m v.link_id h ∙ ap (contains_key m) own ∙ fresh, DistinctIds-values m h)

module _ ⦃js : Json⦄ where
  abbrev pub IsWellFormed : GraphState → Type 0
  IsWellFormed graph =
      IsKeyed (λ (v : NodeInfo). v.id) graph.nodes
      × IsKeyed (λ (v : PortInfo). v.id) graph.ports
      × IsKeyed link_ids_of graph.links

  link_id-parse_link :
      (id : ℕ) (obj : js.Value) (seen : PwLink) → parse_link id obj ≡ some seen → seen.link_id ≡ id
  unfolding parse_link
  link_id-parse_link id obj seen e = ground arith

  id-parse_port :
      (id : ℕ) (obj : js.Value) (seen : PortInfo) → parse_port id obj ≡ some seen → seen.id ≡ id
  unfolding parse_port
  id-parse_port id obj seen e = ground arith

  link_id-keep_serial :
      (old : Option PwLink) (seen : PwLink) → (keep_serial old seen).link_id ≡ seen.link_id
  link_id-keep_serial none seen = refl
  link_id-keep_serial (some old) seen = ground arith

  module _ ⦃proc : Proc⦄ where
    id-parse_node :
        (id : ℕ) (obj : js.Value) (clients : Map ℕ js.Value) (seen : NodeInfo)
        → parse_node id obj clients ≡ some seen
        → seen.id ≡ id
    unfolding parse_node
    id-parse_node id obj clients seen e = ground arith

    IsWellFormed-apply_link :
        (applied : Applied) (id : ℕ) (seen : Option PwLink)
        → ((v : PwLink) → seen ≡ some v → v.link_id ≡ id)
        → IsWellFormed applied.graph
        → IsWellFormed (apply_link applied id seen).graph
    IsWellFormed-apply_link applied id none own h = h
    IsWellFormed-apply_link applied id (some seen) own (nodes, ports, links) =
        let old = get applied.graph.links id in
        (
          nodes,
          ports,
          IsKeyed-insert link_ids_of id (keep_serial old seen) applied.graph.links
              (link_id-keep_serial old seen ∙ own seen refl) links,
        )

    module _ (clients : Map ℕ js.Value) (applied : Applied) (obj : js.Value)
        (h : IsWellFormed applied.graph) where
      IsWellFormed-apply_type :
          (type : ObjectType) → IsWellFormed (apply_typed clients applied obj type).graph
      IsWellFormed-apply_type node = (
        IsKeyed-insert_some (λ (v : NodeInfo). v.id) (object_id obj)
            (parse_node (object_id obj) obj clients) applied.graph.nodes
            (id-parse_node (object_id obj) obj clients) h.0,
        h.1,
        h.2,
      )
      IsWellFormed-apply_type port = (
        h.0,
        IsKeyed-insert_some (λ (v : PortInfo). v.id) (object_id obj)
            (parse_port (object_id obj) obj) applied.graph.ports (id-parse_port (object_id obj) obj)
            h.1,
        h.2,
      )
      IsWellFormed-apply_type link =
          IsWellFormed-apply_link applied (object_id obj) (parse_link (object_id obj) obj)
            (link_id-parse_link (object_id obj) obj) h
      IsWellFormed-apply_type client = h
      IsWellFormed-apply_type other = h

      IsWellFormed-removal : IsWellFormed (remove_object applied.graph (object_id obj))
      IsWellFormed-removal = (
        IsKeyed-remove (λ (v : NodeInfo). v.id) (object_id obj) applied.graph.nodes h.0,
        IsKeyed-remove (λ (v : PortInfo). v.id) (object_id obj) applied.graph.ports h.1,
        IsKeyed-remove link_ids_of (object_id obj) applied.graph.links h.2,
      )

      IsWellFormed-apply_object : IsWellFormed (apply_object clients applied obj).graph
      unfolding apply_object
      IsWellFormed-apply_object =
          if_holds (λ (a : Applied). IsWellFormed a.graph) (is_removal obj) IsWellFormed-removal
            (IsWellFormed-apply_type (object_type obj))

    IsWellFormed-apply_objects :
        (clients : Map ℕ js.Value) (applied : Applied) (objects : List js.Value)
        → IsWellFormed applied.graph
        → IsWellFormed (apply_objects clients applied objects).graph
    unfolding apply_objects
    IsWellFormed-apply_objects clients applied [] h = h
    IsWellFormed-apply_objects clients applied (obj ∷ objects) h =
        IsWellFormed-apply_objects clients (apply_object clients applied obj) objects
          (IsWellFormed-apply_object clients applied obj h)

    -- A block keeps the invariant, whatever objects it holds.
    pub IsWellFormed-apply_block :
        (graph : GraphState) (objects : List js.Value)
        → IsWellFormed graph
        → IsWellFormed (apply_block graph objects).graph
    unfolding apply_block
    IsWellFormed-apply_block graph objects h =
        let clients = apply_clients graph.client_props objects in
        IsWellFormed-apply_objects clients
          (record { graph = record graph { client_props = clients }; new_links = [] }) objects h

    DistinctIds-snapshot :
        (graph : GraphState) → IsWellFormed graph → DistinctIds (snapshot graph).links
    unfolding snapshot
    DistinctIds-snapshot graph h = DistinctIds-values graph.links h.2

    -- What the ledger of links relies on.
    abbrev pub HasDistinctIds : GraphUpdate → Type 0
    HasDistinctIds update = DistinctIds update.snapshot.links

    IsSound : Child → Type 0
    IsSound child = IsWellFormed child.graph × All HasDistinctIds child.updates

    IsSound-take_blocks :
        (child : Child) (blocks : List (List js.Value))
        → IsSound child
        → IsSound (take_blocks child blocks)
    unfolding take_blocks IsSound
    IsSound-take_blocks child [] h = h
    IsSound-take_blocks child (objects ∷ blocks) (w, h) =
        let w₁ = IsWellFormed-apply_block child.graph objects w in
        IsSound-take_blocks (take_block child objects) blocks (
          w₁,
          All-append HasDistinctIds child.updates _ h
              (DistinctIds-snapshot (apply_block child.graph objects).graph w₁, tt),
        )

    module _ (parse : Text → Option (List js.Value)) where
      IsSound-read_lines :
          (child : Child) (splitter : BlockSplitter) (lines : List Text)
          → IsSound child
          → IsSound (read_lines parse child splitter lines)
      unfolding read_lines
      IsSound-read_lines child splitter [] h = h
      IsSound-read_lines child splitter (line ∷ lines) h =
          let fed = feed parse splitter line in
          IsSound-read_lines (take_blocks child fed.out) fed.splitter lines
            (IsSound-take_blocks child fed.out h)

      -- Whatever the children of the supervisor print, no update of the graph lists two links with
      -- one id.
      pub HasDistinctIds-run_monitor :
          (children : List (List Text)) → All HasDistinctIds (run_monitor parse children)
      unfolding run_monitor run_child IsSound
      HasDistinctIds-run_monitor [] = tt
      HasDistinctIds-run_monitor (lines ∷ children) =
          All-append HasDistinctIds (run_child parse lines) (run_monitor parse children)
            (IsSound-read_lines _ new_splitter lines ((tt, tt, tt), tt)).1
            (HasDistinctIds-run_monitor children)
