-- ===== src/Stream.antt =====
-- hwprivacy-common/src/stream.rs: a stream, an active connection and a logged access. A timestamp
-- is the text that the clock gives.
use hwprivacy.Common.{ℕ, Bool, Option, Eq}
use hwprivacy.Common.Text.{Text, codes}
use hwprivacy.Device.{DeviceCategory}
use hwprivacy.Config.{Permission}

pub record StreamInfo : Type 0 where
  pub node_id : ℕ
  pub app_name : Text
  pub pid : ℕ
  pub node_name : Text
  pub media_name : Text
  pub media_class : Text

pub record ActiveConnection : Type 0 where
  pub stream : StreamInfo
  pub device_node_name : Text
  pub device_category : DeviceCategory
  pub permission : Permission
  pub link_id : Option ℕ
  pub active : Bool

pub data AccessAction : Type 0 where
  allowed denied asked_user session_ended revoked_on_disconnect : AccessAction

action_dec : Discrete AccessAction
action_dec = hlevel

instance unfoldable pub action_eq : Eq AccessAction
unfolding action_dec
action_eq = record { dec = action_dec }

-- `Display for AccessAction`
unfoldable pub action_text : AccessAction → Text
action_text allowed = codes "ALLOWED"
action_text denied = codes "DENIED"
action_text asked_user = codes "ASKED"
action_text revoked_on_disconnect = codes "REVOKED"
action_text session_ended = codes "SESSION_ENDED"

pub record AccessEvent : Type 0 where
  pub timestamp : Text
  pub app_name : Text
  pub pid : ℕ
  pub device_category : DeviceCategory
  pub node_name : Text
  pub action : AccessAction
