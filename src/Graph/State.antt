-- ===== src/Graph/State.antt =====
-- hwprivacy-daemon/src/pipewire_monitor.rs: `GraphState`, which the blocks of the monitor's stream
-- build up, and `capture_graph`, which reads one dump.
use hwprivacy.Common.{
  ℕ, Bool, true, false, not, Option, none, some, List, [], ◌∷◌, ◌++◌, ◌==◌, nat_eq, list_eq,
  option_eq, if◌then◌else◌, contains, retain, length, Map, get, insert, remove,
}
use hwprivacy.Common.Options.{and_then, unwrap_or}
use hwprivacy.Common.Text.{Text, codes}
use hwprivacy.Graph.{NodeInfo, PortInfo, PwLink, GraphSnapshot}
use hwprivacy.Graph.Json.{Json, Proc}
use hwprivacy.Graph.Parse.{as_u32, text_or_empty, props_of, parse_node, parse_port, parse_link}

abbrev pub keys {ℓ κ} : {K : Type ℓ} {V : Type κ} → Map K V → List K
keys [] = []
keys ((k, v) ∷ m) = k ∷ keys m

abbrev pub values {ℓ κ} : {K : Type ℓ} {V : Type κ} → Map K V → List V
values [] = []
values ((k, v) ∷ m) = v ∷ values m

pub data ObjectType : Type 0 where
  client node port link other : ObjectType

abbrev pub object_type_of : Text → ObjectType
object_type_of name =
    if name == codes "PipeWire:Interface:Client"
    then client
    else if name == codes "PipeWire:Interface:Node"
    then node
    else if name == codes "PipeWire:Interface:Port"
    then port
    else if name == codes "PipeWire:Interface:Link"
    then link
    else other

-- Is this sighting of a link a new link? A block with no serial says nothing of it.
abbrev pub is_new_link : Option PwLink → PwLink → Bool
is_new_link none seen = true
is_new_link (some old) seen = elim seen.serial [
  | none ↦ false
  | some serial ↦ not (old.serial == some serial)
]

-- `if link.serial.is_none() { link.serial = old.serial; }`
abbrev pub keep_serial : Option PwLink → PwLink → PwLink
keep_serial none seen = seen
keep_serial (some old) seen = elim seen.serial [
  | none ↦ record seen { serial = old.serial }
  | some serial ↦ seen
]

abbrev pub insert_some {ℓ} : {V : Type ℓ} → ℕ → Option V → Map ℕ V → Map ℕ V
insert_some id none m = m
insert_some id (some v) m = insert id v m

module _ ⦃js : Json⦄ where
  -- `obj.get("id").and_then(|v| v.as_u64()).unwrap_or(0) as u32`
  unfoldable pub object_id : js.Value → ℕ
  object_id obj = as_u32 (unwrap_or (and_then (js.field obj (codes "id")) js.as_u64) 0)

  unfoldable pub object_type : js.Value → ObjectType
  object_type obj = object_type_of (text_or_empty (js.field obj (codes "type")))

  unfoldable pub is_removal : js.Value → Bool
  is_removal obj = elim (js.field obj (codes "info")) [ none ↦ false | some info ↦ js.is_null info ]

  pub record GraphState : Type 0 where
    pub nodes : Map ℕ NodeInfo
    pub ports : Map ℕ PortInfo
    pub links : Map ℕ PwLink
    pub client_props : Map ℕ js.Value

  -- `GraphState::new`, and what `clear` leaves.
  abbrev pub new_graph : GraphState
  new_graph = record { nodes = []; ports = []; links = []; client_props = [] }

  unfoldable pub clear : GraphState → GraphState
  clear graph = record graph { nodes = []; ports = []; links = []; client_props = [] }

  abbrev pub props_of_client : js.Value → Option js.Value
  props_of_client obj = elim (object_type obj) [ client ↦ props_of obj | _ ↦ none ]

  -- The first pass of `apply_block`: the clients.
  unfoldable pub apply_clients : Map ℕ js.Value → List js.Value → Map ℕ js.Value
  apply_clients clients [] = clients
  apply_clients clients (obj ∷ objects) =
      apply_clients
        (if is_removal obj
          then remove (object_id obj) clients
          else insert_some (object_id obj) (props_of_client obj) clients)
        objects

  -- The graph, and the ids of the links that were new to it.
  pub record Applied : Type 0 where
    pub graph : GraphState
    pub new_links : List ℕ

  abbrev pub remove_object : GraphState → ℕ → GraphState
  remove_object graph id = record graph {
    nodes = remove id graph.nodes;
    ports = remove id graph.ports;
    links = remove id graph.links;
  }

  abbrev pub apply_link : Applied → ℕ → Option PwLink → Applied
  apply_link applied id none = applied
  apply_link applied id (some seen) =
      let graph = applied.graph in
      let old = get graph.links id in
      record {
        graph = record graph { links = insert id (keep_serial old seen) graph.links };
        new_links =
            if is_new_link old seen then applied.new_links ++ id ∷ [] else applied.new_links;
      }

  module _ ⦃proc : Proc⦄ where
    -- The `match` on the type of an object.
    abbrev pub apply_typed : Map ℕ js.Value → Applied → js.Value → ObjectType → Applied
    apply_typed clients applied obj node =
        let graph = applied.graph in
        let id = object_id obj in
        record applied {
          graph = record graph { nodes = insert_some id (parse_node id obj clients) graph.nodes };
        }
    apply_typed clients applied obj port =
        let graph = applied.graph in
        let id = object_id obj in
        record applied {
          graph = record graph { ports = insert_some id (parse_port id obj) graph.ports };
        }
    apply_typed clients applied obj link =
        apply_link applied (object_id obj) (parse_link (object_id obj) obj)
    apply_typed clients applied obj client = applied
    apply_typed clients applied obj other = applied

    -- A removal is looked for before the type, which it has none of.
    unfoldable pub apply_object : Map ℕ js.Value → Applied → js.Value → Applied
    apply_object clients applied obj =
        if is_removal obj
        then record applied { graph = remove_object applied.graph (object_id obj) }
        else apply_typed clients applied obj (object_type obj)

    unfoldable pub apply_objects : Map ℕ js.Value → Applied → List js.Value → Applied
    unfolding apply_object
    apply_objects clients applied [] = applied
    apply_objects clients applied (obj ∷ objects) =
        apply_objects clients (apply_object clients applied obj) objects

    unfoldable pub apply_block : GraphState → List js.Value → Applied
    unfolding apply_objects apply_clients
    apply_block graph objects =
        let clients = apply_clients graph.client_props objects in
        apply_objects clients
          (record { graph = record graph { client_props = clients }; new_links = [] }) objects

    -- The two passes of `capture_graph` over the objects of one dump.
    abbrev pub capture_clients : Map ℕ js.Value → List js.Value → Map ℕ js.Value
    capture_clients clients [] = clients
    capture_clients clients (obj ∷ objects) =
        capture_clients (insert_some (object_id obj) (props_of_client obj) clients) objects

    abbrev pub capture_object : Map ℕ js.Value → GraphSnapshot → js.Value → GraphSnapshot
    capture_object clients snapshot obj =
        let id = object_id obj in
        elim (object_type obj) [
          | node ↦ record snapshot {
            nodes = insert_some id (parse_node id obj clients) snapshot.nodes;
          }
          | port ↦ record snapshot { ports = insert_some id (parse_port id obj) snapshot.ports }
          | link ↦ record snapshot {
            links = elim (parse_link id obj) [
              | none ↦ snapshot.links
              | some seen ↦ snapshot.links ++ seen ∷ []
            ];
          }
          | _ ↦ snapshot
        ]

    abbrev pub capture_objects : Map ℕ js.Value → GraphSnapshot → List js.Value → GraphSnapshot
    capture_objects clients snapshot [] = snapshot
    capture_objects clients snapshot (obj ∷ objects) =
        capture_objects clients (capture_object clients snapshot obj) objects

    unfoldable pub capture_graph : List js.Value → GraphSnapshot
    capture_graph objects =
        capture_objects (capture_clients [] objects) (record { nodes = []; ports = []; links = [] })
          objects

  unfoldable pub snapshot : GraphState → GraphSnapshot
  snapshot graph = record { nodes = graph.nodes; ports = graph.ports; links = values graph.links }

  abbrev pub link_ids : GraphState → List ℕ
  link_ids graph = keys graph.links

  abbrev pub node_ids : GraphState → List ℕ
  node_ids graph = keys graph.nodes

  abbrev pub counts : GraphState → ℕ × ℕ × ℕ
  counts graph = (length graph.nodes, length graph.ports, length graph.links)

-- `diff_links`
unfoldable pub diff_links : List ℕ → GraphSnapshot → List PwLink
diff_links old_link_ids snapshot =
    retain (λ seen. not (contains old_link_ids seen.link_id)) snapshot.links
