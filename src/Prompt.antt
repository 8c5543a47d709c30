-- ===== src/Prompt.antt =====
-- hwprivacy-daemon/src/notification.rs: what comes back from a prompt and what is done with it. The
-- notifications themselves are not modelled.
use hwprivacy.Common.{Option, none, some, [], ◌++◌}
use hwprivacy.Common.Text.{Text, codes}
use hwprivacy.Config.{Permission}
use hwprivacy.Device.{DeviceCategory, microphone, camera, monitor}
use hwprivacy.Names.{Lowercase, sanitize_rule_name}

pub data PromptOutcome : Type 0 where
  chosen : Permission → PromptOutcome
  dismissed : PromptOutcome
  prompt_failed : Text → PromptOutcome

pub data PromptAction : Type 0 where
  save_permanent_rule : Permission → PromptAction
  save_nothing_and_cooldown : PromptAction

-- `PromptOutcome::permission`
abbrev pub outcome_permission : PromptOutcome → Option Permission
outcome_permission (chosen perm) = some perm
outcome_permission dismissed = none
outcome_permission (prompt_failed e) = none

unfoldable pub decide_outcome : PromptOutcome → PromptAction
decide_outcome outcome = elim (outcome_permission outcome) [
  | some perm ↦ save_permanent_rule perm
  | none ↦ save_nothing_and_cooldown
]

unfoldable pub rule_key_hint : ⦃lc : Lowercase⦄ → Text → Text
rule_key_hint app_name = elim (sanitize_rule_name app_name) [
  | some key ↦ codes "\nRule name: <b>" ++ key ++ codes "</b>"
  | none ↦ []
]

abbrev pub device_icon : DeviceCategory → Text
device_icon microphone = codes "audio-input-microphone"
device_icon camera = codes "camera-video"
device_icon monitor = codes "audio-card"

abbrev pub device_label : DeviceCategory → Text
device_label microphone = codes "Microphone"
device_label camera = codes "Camera"
device_label monitor = codes "Playback Monitor"
