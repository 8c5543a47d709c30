-- ===== src/Tests.antt =====
-- Concrete runs of the model: the theorems of the other modules at inputs that the program meets.
-- The data that they share. The ASCII part of Unicode stands for `to_lowercase`.
pub mod Rules
pub mod Kernel
pub mod Links
pub mod Tracker
pub mod Graph
pub mod Daemon
pub mod KernelClient
pub mod Events
pub mod KernelLoader
pub mod Bus
use hwprivacy.Common.{true, Option, none, some, List, [], ◌∷◌}
use hwprivacy.Common.Text.{codes}
use hwprivacy.Device.{DeviceCategory, ProtectedDevice}
use hwprivacy.Config.{Permission, AppRule, Config, default_policy, default_devices}
use hwprivacy.Stream.{StreamInfo}

abbrev pub firefox : AppRule
firefox = record {
  app_name = codes "firefox";
  microphone = some Permission.allow;
  camera = some Permission.while_in_use;
  monitor = none;
  exe_path = some (codes "/bin/firefox");
}

abbrev pub cheese : AppRule
cheese = record {
  app_name = codes "cheese";
  microphone = none;
  camera = some Permission.allow;
  monitor = none;
  exe_path = some (codes "/bin/cheese");
}

abbrev pub home : Config
home = record { policy = default_policy; devices = default_devices; rules = firefox ∷ cheese ∷ [] }

abbrev pub webcam : ProtectedDevice
webcam = record {
  category = DeviceCategory.camera;
  node_name = codes "v4l2_input";
  description = codes "Webcam";
  object_serial = 40;
  guarded = true;
}

abbrev pub headset : ProtectedDevice
headset = record {
  category = DeviceCategory.microphone;
  node_name = codes "alsa_input";
  description = codes "Headset";
  object_serial = 41;
  guarded = true;
}

abbrev pub firefox_stream : StreamInfo
firefox_stream = record {
  node_id = 70;
  app_name = codes "Firefox";
  pid = 1_200;
  node_name = codes "Firefox";
  media_name = codes "camera";
  media_class = codes "Stream/Input/Video";
}
