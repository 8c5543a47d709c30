-- ===== src/Graph/Parse.antt =====
-- hwprivacy-daemon/src/pipewire_monitor.rs: how an object of the dump becomes a node, a port or a
-- link.
use hwprivacy.Common.{
  ℕ, ◌%◌, ◌^◌, Bool, not, ◌&&◌, Option, none, some, List, [], ◌∷◌, ◌++◌, ◌==◌, nat_eq, list_eq,
  option_eq, if◌then◌else◌, is_empty, contains, ltb, Map, get, filter_map, retain,
}
use hwprivacy.Common.Options.{
  and_then, map_some, or_else, unwrap_or, filter_some, is_some, parse_unsigned,
}
use hwprivacy.Common.Text.{Text, codes, strip_prefix, after_last, rfind}
use hwprivacy.Graph.{NodeInfo, PortInfo, PwLink}
use hwprivacy.Graph.Json.{Json, Proc}

-- `n as u32`
abbrev pub as_u32 : ℕ → ℕ
as_u32 n = n % 2 ^ 32

-- `haystack.contains(needle)` of a text
abbrev pub contains_text : Text → Text → Bool
contains_text haystack needle = is_some (rfind needle haystack)

-- `str::lines`: a line ends with a line feed, and with a carriage return before it.
unfoldable pub lines : Text → List Text
lines [] = []
lines (c ∷ s) =
    let rest = lines s in
    if c == 10
    then [] ∷ rest
    else if c == 13 && is_some (strip_prefix (10 ∷ []) s)
    then rest
    else elim rest [ [] ↦ (c ∷ []) ∷ [] | line ∷ more ↦ (c ∷ line) ∷ more ]

-- `s.strip_suffix(suffix)`
unfoldable pub strip_suffix : Text → Text → Option Text
strip_suffix suffix [] = if is_empty suffix then some [] else none
strip_suffix suffix (c ∷ s) =
    let rest = strip_suffix suffix s in
    if c ∷ s == suffix then some [] else map_some rest (λ front. c ∷ front)

-- `iter().last()`
abbrev pub last {ℓ} : {A : Type ℓ} → List A → Option A
last [] = none
last (x ∷ xs) = elim (last xs) [ none ↦ some x | some y ↦ some y ]

-- `l.rsplit_once('/').map(|(_, tail)| tail)`
abbrev pub path_leaf : Text → Option Text
path_leaf line = if contains line b'/' then some (after_last b'/' line) else none

unfoldable pub unit_of_cgroup : Text → Option Text
unfolding lines strip_suffix
unit_of_cgroup contents =
    and_then (last (retain (λ leaf. not (is_empty leaf)) (filter_map path_leaf (lines contents))))
      (λ leaf.
        let trimmed =
          unwrap_or
            (or_else (strip_suffix (codes ".scope") leaf) (strip_suffix (codes ".service") leaf))
            leaf in
        if is_empty trimmed then none else some trimmed)

abbrev pub non_empty : Text → Bool
non_empty s = not (is_empty s)

-- The unit behind a name, unless the name holds it already.
abbrev pub annotate : Text → Option Text → Text
annotate app_name none = app_name
annotate app_name (some unit) =
    if non_empty app_name && not (contains_text app_name unit) && not (app_name == unit)
    then app_name ++ codes " [" ++ unit ++ codes "]"
    else app_name

-- The label that the sources of a name add up to: the first of them, annotated.
unfoldable pub label_of : Option Text → Option Text → Option Text → Option Text → Text
label_of portal_app pw_app proc_exe proc_unit =
    let app_name =
      annotate (unwrap_or (or_else portal_app (or_else pw_app (or_else proc_exe proc_unit))) [])
        proc_unit in
    if is_empty app_name then codes "unknown" else app_name

module _ ⦃js : Json⦄ where
  unfoldable pub prop_as_u32 : js.Value → Option ℕ
  prop_as_u32 v =
      or_else (map_some (js.as_u64 v) as_u32) (and_then (js.as_str v) (parse_unsigned 32))

  -- `.and_then(|v| v.as_str()).unwrap_or("")`
  abbrev pub text_or_empty : Option js.Value → Text
  text_or_empty v = unwrap_or (and_then v js.as_str) []

  -- `.and_then(prop_as_u32).unwrap_or(0)`
  abbrev pub number_or_zero : Option js.Value → ℕ
  number_or_zero v = unwrap_or (and_then v prop_as_u32) 0

  -- `.and_then(|v| v.as_str()).filter(|s| !s.is_empty())`
  abbrev pub text_unless_empty : Option js.Value → Option Text
  text_unless_empty v = filter_some (and_then v js.as_str) non_empty

  -- `obj.get("info")?.get("props")`
  abbrev pub props_of : js.Value → Option js.Value
  props_of obj = and_then (js.field obj (codes "info")) (λ info. js.field info (codes "props"))

  -- A key on the node first, then on the client.
  abbrev pub find_prop : js.Value → Option js.Value → Text → Option js.Value
  find_prop node_props client_props key =
      or_else (js.field node_props key) (and_then client_props (λ p. js.field p key))

  abbrev pub client_of : js.Value → Map ℕ js.Value → Option js.Value
  client_of node_props clients =
      and_then (and_then (js.field node_props (codes "client.id")) prop_as_u32)
        (λ client_id. get clients client_id)

  -- What the kernel attests of a process comes before what the client says of itself.
  abbrev pub pid_of : (Text → Option js.Value) → ℕ
  pid_of look =
      number_or_zero
        (or_else (look (codes "pipewire.sec.pid")) (look (codes "application.process.id")))

  module _ ⦃proc : Proc⦄ where
    -- Nothing is read of the process 0.
    abbrev pub proc_exe_basename : ℕ → Option Text
    proc_exe_basename pid = if ltb 0 pid then proc.exe_name pid else none

    abbrev pub proc_cgroup_unit : ℕ → Option Text
    proc_cgroup_unit pid = if ltb 0 pid then and_then (proc.cgroup pid) unit_of_cgroup else none

    abbrev pub label : (Text → Option js.Value) → ℕ → Text
    label look pid =
        label_of (text_unless_empty (look (codes "pipewire.access.portal.app_id")))
          (text_unless_empty (
            or_else (look (codes "application.name")) (
              or_else (look (codes "application.process.binary"))
                (look (codes "node.description")))))
          (proc_exe_basename pid) (proc_cgroup_unit pid)

    abbrev pub node_from : ℕ → js.Value → (Text → Option js.Value) → NodeInfo
    node_from id node_props look = record {
      id = id;
      media_class = text_or_empty (look (codes "media.class"));
      node_name = text_or_empty (look (codes "node.name"));
      app_name = label look (pid_of look);
      pid = pid_of look;
      media_name = text_or_empty (js.field node_props (codes "media.name"));
      declared_pid = number_or_zero (look (codes "application.process.id"));
      process_binary = text_or_empty (look (codes "application.process.binary"));
    }

    unfoldable pub parse_node : ℕ → js.Value → Map ℕ js.Value → Option NodeInfo
    unfolding label_of
    parse_node id obj clients = map_some (props_of obj) (λ node_props.
        node_from id node_props (find_prop node_props (client_of node_props clients)))

  -- A port without a name is dropped.
  abbrev pub port_from : ℕ → js.Value → ℕ → Text → Option PortInfo
  port_from id props node_id name =
      if is_empty name
      then none
      else some (record {
        id = id;
        node_id = node_id;
        name = name;
        direction = text_or_empty (js.field props (codes "port.direction"));
      })

  unfoldable pub parse_port : ℕ → js.Value → Option PortInfo
  unfolding prop_as_u32
  parse_port id obj = and_then (props_of obj) (λ props.
      and_then (and_then (js.field props (codes "node.id")) prop_as_u32) (λ node_id.
        and_then (and_then (js.field props (codes "port.name")) js.as_str)
          (λ name. port_from id props node_id name)))

  abbrev pub link_field : js.Value → Text → Option ℕ
  link_field info key = map_some (and_then (js.field info key) js.as_u64) as_u32

  -- The serial, which is a number or a text of one.
  abbrev pub serial_of : js.Value → Option ℕ
  serial_of info =
      and_then (and_then (js.field info (codes "props")) (λ p. js.field p (codes "object.serial")))
        (λ v. or_else (js.as_u64 v) (and_then (js.as_str v) (parse_unsigned 64)))

  unfoldable pub parse_link : ℕ → js.Value → Option PwLink
  unfolding parse_unsigned
  parse_link id obj = and_then (js.field obj (codes "info")) (λ info.
      and_then (link_field info (codes "output-node-id")) (λ output_node.
        map_some (link_field info (codes "input-node-id")) (λ input_node. record {
          link_id = id;
          serial = serial_of info;
          output_node = output_node;
          output_port = unwrap_or (link_field info (codes "output-port-id")) 0;
          input_node = input_node;
          input_port = unwrap_or (link_field info (codes "input-port-id")) 0;
        })))
