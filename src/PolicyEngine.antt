-- ===== src/PolicyEngine.antt =====
-- hwprivacy-daemon/src/policy_engine.rs: what a new link is, and the decision about it. The two
-- port ids that `classify_link` takes are read by nothing and left out, and so is the map of ports.
pub mod Decide
pub mod Classify
use hwprivacy.Common.{
  ℕ, Bool, true, false, not, ◌&&◌, ◌||◌, Option, none, some, List, Eq, ◌==◌, nat_eq, list_eq,
  if◌then◌else◌, find, Map, get,
}
use hwprivacy.Common.Text.{Text, codes}
use hwprivacy.Device.{DeviceCategory, microphone, camera, monitor, category_eq, ProtectedDevice}
use hwprivacy.Names.{Lowercase}
use hwprivacy.Config.{Permission, Config, is_guarded}
use hwprivacy.Config.Rules.{get_permission}
use hwprivacy.Stream.{StreamInfo}
use hwprivacy.Graph.{NodeInfo}

pub data PolicyDecision : Type 0 where
  allow deny ask_user : PolicyDecision

decision_dec : Discrete PolicyDecision
decision_dec = hlevel

instance unfoldable pub decision_eq : Eq PolicyDecision
unfolding decision_dec
decision_eq = record { dec = decision_dec }

abbrev pub decide : Permission → Bool → PolicyDecision
decide Permission.allow session_live = allow
decide Permission.deny session_live = deny
decide Permission.while_in_use session_live = if session_live then allow else ask_user
decide Permission.ask session_live = ask_user

unfoldable pub evaluate :
    ⦃lc : Lowercase⦄ → Config → StreamInfo → ProtectedDevice → Bool → PolicyDecision
evaluate config stream device session_live =
    if not (is_guarded config.devices device.category)
    then allow
    else decide (get_permission config stream.app_name device.category) session_live

pub record LinkMatch : Type 0 where
  pub stream : StreamInfo
  pub device : ProtectedDevice

abbrev pub node_to_stream_info : NodeInfo → StreamInfo
node_to_stream_info node = record {
  node_id = node.id;
  app_name = node.app_name;
  pid = node.pid;
  node_name = node.node_name;
  media_name = node.media_name;
  media_class = node.media_class;
}

-- The device that a known node stands for.
abbrev pub device_of_node : ℕ → NodeInfo → List ProtectedDevice → Option ProtectedDevice
device_of_node node_id node devices =
    find (λ d. d.node_name == node.node_name || d.object_serial == node_id) devices

unfoldable pub find_device_by_node_id :
    ℕ → Map ℕ NodeInfo → List ProtectedDevice → Option ProtectedDevice
find_device_by_node_id node_id nodes devices = elim (get nodes node_id) [
  | none ↦ none
  | some node ↦ device_of_node node_id node devices
]

-- A sink that is read from by a capturing stream.
abbrev pub is_monitor_tap : NodeInfo → NodeInfo → Bool
is_monitor_tap output_node input_node =
    output_node.media_class == codes "Audio/Sink"
    && input_node.media_class == codes "Stream/Input/Audio"

-- `if let Some(device) = .. { if test(device) { return Some(..) } }`, and `next` otherwise.
abbrev pub match_or :
    Option ProtectedDevice
    → (ProtectedDevice → Bool)
    → NodeInfo
    → Option LinkMatch
    → Option LinkMatch
match_or found test node next = elim found [
  | none ↦ next
  | some device ↦
      if test device
      then some (record { stream = node_to_stream_info node; device = device })
      else next
]

abbrev pub is_capture_device : ProtectedDevice → Bool
is_capture_device device = not (device.category == monitor)

unfoldable pub classify_link : ℕ → ℕ → Map ℕ NodeInfo → List ProtectedDevice → Option LinkMatch
unfolding find_device_by_node_id
classify_link output_node_id input_node_id nodes devices = elim (get nodes output_node_id) [
  | none ↦ none
  | some output_node ↦ elim (get nodes input_node_id) [
    | none ↦ none
    | some input_node ↦
        let output_device = find_device_by_node_id output_node_id nodes devices in
        let input_device = find_device_by_node_id input_node_id nodes devices in
        match_or output_device (λ _. is_monitor_tap output_node input_node) input_node
          (match_or output_device is_capture_device input_node
            (match_or input_device is_capture_device output_node none))
  ]
]
