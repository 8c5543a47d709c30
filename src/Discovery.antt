-- ===== src/Discovery.antt =====
-- hwprivacy-daemon/src/device_discovery.rs and link_manager.rs: which nodes of the graph are protected
-- devices, and how links are destroyed. The commands are parameters: their output as parsed, and
-- whether they succeed.
use hwprivacy.Common.{
  ℕ, ◌≡◌, refl, Bool, true, false, ◌||◌, ◌&&◌, ◌+◌, Option, none, some, List, [], ◌∷◌, arith, ◌==◌,
  nat_eq, list_eq, if◌then◌else◌, find, map, filter_map,
}
use hwprivacy.Common.Options.{and_then, map_some, or_else, unwrap_or}
use hwprivacy.Common.Text.{Text, codes}
use hwprivacy.Device.{DeviceCategory, microphone, camera, monitor, ProtectedDevice}
use hwprivacy.Graph.{PwLink}
use hwprivacy.Graph.Json.{Json}
use hwprivacy.Graph.Parse.{as_u32, text_or_empty, contains_text, props_of}

-- `classify_node` of the daemon
unfoldable pub classify_media : Text → Text → Option DeviceCategory
classify_media media_class node_name =
    if media_class == codes "Audio/Source"
    then if contains_text node_name (codes ".monitor") then some monitor else some microphone
    else if media_class == codes "Video/Source"
    then some camera
    else if media_class == codes "Audio/Sink"
    then some monitor
    else none

module _ ⦃js : Json⦄ where
  abbrev device_from : js.Value → js.Value → Option ProtectedDevice
  device_from node props =
      let node_name = text_or_empty (js.field props (codes "node.name")) in
      map_some (classify_media (text_or_empty (js.field props (codes "media.class"))) node_name)
        (λ category. record {
          category = category;
          node_name = node_name;
          description =
              unwrap_or
                (and_then
                  (or_else (js.field props (codes "node.description"))
                    (js.field props (codes "node.nick")))
                  js.as_str)
                node_name;
          object_serial = as_u32 (unwrap_or (and_then (js.field node (codes "id")) js.as_u64) 0);
          guarded = true;
        })

  -- One round of the loop.
  abbrev device_of_object : js.Value → Option ProtectedDevice
  device_of_object node =
      if text_or_empty (js.field node (codes "type")) == codes "PipeWire:Interface:Node"
      then and_then (props_of node) (device_from node)
      else none

  -- `discover_devices`, for the objects of the dump.
  unfoldable pub discover_devices : List js.Value → List ProtectedDevice
  unfolding classify_media
  discover_devices nodes = filter_map device_of_object nodes

-- Whether a device is guarded: as it was, or if it is new.
abbrev pub guard_of : List ProtectedDevice → ProtectedDevice → Bool
guard_of existing device =
    unwrap_or
      (map_some (find (λ e. e.node_name == device.node_name) existing)
        (λ (e : ProtectedDevice). e.guarded))
      true

-- The `ProtectedDevice` of the merge.
abbrev pub keep_guard : List ProtectedDevice → ProtectedDevice → ProtectedDevice
keep_guard existing device = record device { guarded = guard_of existing device }

-- `rescan_devices`, for the devices that were discovered.
unfoldable pub rescan_devices : List ProtectedDevice → List ProtectedDevice → List ProtectedDevice
rescan_devices existing discovered = map (keep_guard existing) discovered

-- How each of the two commands ends for a link: `none` if it cannot be started.
module _ (pw_link pw_cli : ℕ → Option Bool) where
  -- `destroy_link`: the second command is tried if the first one fails, but not if it cannot start.
  unfoldable pub destroy_link : ℕ → Bool
  destroy_link link_id = elim (pw_link link_id) [
    | none ↦ false
    | some success ↦ success || unwrap_or (pw_cli link_id) false
  ]

  unfoldable pub destroy_all_links_to_node : ℕ → List PwLink → ℕ
  destroy_all_links_to_node node_id [] = 0
  destroy_all_links_to_node node_id (link ∷ links) =
      let rest = destroy_all_links_to_node node_id links in
      if (link.output_node == node_id || link.input_node == node_id) && destroy_link link.link_id
      then 1 + rest
      else rest

find-rescan :
    (existing discovered : List ProtectedDevice) (name : Text)
    → find (λ e. e.node_name == name) (rescan_devices existing discovered)
      ≡ map_some (find (λ e. e.node_name == name) discovered) (keep_guard existing)
unfolding rescan_devices
find-rescan existing [] name = refl
find-rescan existing (device ∷ discovered) name =
    ground (arith, find-rescan existing discovered name)
