-- ===== src/PolicyEngine/Classify.antt =====
-- Which links touch a protected device, and who is asking.
use mathlib.Core.Path.{ap₂}
use hwprivacy.Common.{
  ℕ, ◌≡◌, ◌∙◌, ◌⊎◌, Bool, true, false, Option, none, some, List, arith, nat_eq, list_eq, Map, get,
}
use hwprivacy.Device.{category_eq, ProtectedDevice}
use hwprivacy.Graph.{NodeInfo}
use hwprivacy.PolicyEngine.{
  LinkMatch, node_to_stream_info, device_of_node, find_device_by_node_id, is_monitor_tap,
  is_capture_device, match_or, classify_link,
}

-- There is a device, and it is no sink.
abbrev pub captures : Option ProtectedDevice → Bool
captures none = false
captures (some device) = is_capture_device device

find_device_known :
    (id : ℕ) (nodes : Map ℕ NodeInfo) (devices : List ProtectedDevice) (node : NodeInfo)
    → get nodes id ≡ some node
    → find_device_by_node_id id nodes devices ≡ device_of_node id node devices
unfolding find_device_by_node_id
find_device_known id nodes devices node e = rw (e, find_device_by_node_id)

-- The tests of `classify_link` on two known nodes, in their order.
abbrev cascade :
    NodeInfo → NodeInfo → Option ProtectedDevice → Option ProtectedDevice → Option LinkMatch
cascade output_node input_node output_device input_device =
    match_or output_device (λ _. is_monitor_tap output_node input_node) input_node
      (match_or output_device is_capture_device input_node
        (match_or input_device is_capture_device output_node none))

classify_link_known :
    (output_id input_id : ℕ) (nodes : Map ℕ NodeInfo) (devices : List ProtectedDevice)
    (output_node input_node : NodeInfo)
    → get nodes output_id ≡ some output_node
    → get nodes input_id ≡ some input_node
    → classify_link output_id input_id nodes devices
      ≡ cascade output_node input_node
          (device_of_node output_id output_node devices)
          (device_of_node input_id input_node devices)
unfolding classify_link
classify_link_known output_id input_id nodes devices output_node input_node o i =
    known
    ∙ ap₂ (cascade output_node input_node) (find_device_known output_id nodes devices output_node o)
        (find_device_known input_id nodes devices input_node i)
  where
    known :
        classify_link output_id input_id nodes devices
        ≡ cascade output_node input_node
            (find_device_by_node_id output_id nodes devices)
            (find_device_by_node_id input_id nodes devices)
    known = rw (o, classify_link, i)

-- A match on a link between two known nodes either names the device of the link's output node and
-- the input node's stream, or the device of the input node, which is a microphone or a camera, and
-- the output node's stream.
pub classify_link_sides :
    (output_id input_id : ℕ) (nodes : Map ℕ NodeInfo) (devices : List ProtectedDevice)
    (output_node input_node : NodeInfo) (m : LinkMatch)
    → get nodes output_id ≡ some output_node
    → get nodes input_id ≡ some input_node
    → classify_link output_id input_id nodes devices ≡ some m
    → ((m.stream ≡ node_to_stream_info input_node)
        × (device_of_node output_id output_node devices ≡ some m.device))
      ⊎ ((m.stream ≡ node_to_stream_info output_node)
          × (device_of_node input_id input_node devices ≡ some m.device)
          × (is_capture_device m.device ≡ true))
classify_link_sides output_id input_id nodes devices output_node input_node m o i h =
    sides _ _
      (rw (classify_link_known output_id input_id nodes devices output_node input_node o i) at h)
  where
    sides :
        (output_device input_device : Option ProtectedDevice)
        → cascade output_node input_node output_device input_device ≡ some m
        → ((m.stream ≡ node_to_stream_info input_node) × (output_device ≡ some m.device))
          ⊎ ((m.stream ≡ node_to_stream_info output_node)
              × (input_device ≡ some m.device)
              × (is_capture_device m.device ≡ true))
    sides none none e = absurd (cc)
    sides none (some d) e = ground arith
    sides (some d) none e = ground arith
    sides (some d) (some d') e = ground arith
