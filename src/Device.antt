-- ===== src/Device.antt =====
-- hwprivacy-common/src/device.rs: the categories of protected hardware and a discovered device.
use hwprivacy.Common.{ℕ, Bool, List, [], ◌∷◌, Eq, nat_eq, list_eq}
use hwprivacy.Common.Text.{Text, codes}

pub data DeviceCategory : Type 0 where
  microphone camera monitor : DeviceCategory

category_dec : Discrete DeviceCategory
category_dec = hlevel

instance unfoldable pub category_eq : Eq DeviceCategory
unfolding category_dec
category_eq = record { dec = category_dec }

-- `DeviceCategory::all`
abbrev pub all_categories : List DeviceCategory
all_categories = microphone ∷ camera ∷ monitor ∷ []

-- `Display for DeviceCategory`
abbrev pub category_text : DeviceCategory → Text
category_text microphone = codes "microphone"
category_text camera = codes "camera"
category_text monitor = codes "monitor"

pub record ProtectedDevice : Type 0 where
  pub category : DeviceCategory
  pub node_name : Text
  pub description : Text
  pub object_serial : ℕ
  pub guarded : Bool
