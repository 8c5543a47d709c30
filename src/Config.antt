-- ===== src/Config.antt =====
-- hwprivacy-common/src/config.rs: permissions, rules and the configuration file's content.
-- The numbers of `PolicyConfig` are `u64`; nothing here computes with them. `poll_interval_ms`
-- is retired and read by nothing, and kept. Loading and saving the file is not modelled.
pub mod Rules
pub mod RuleLaws
pub mod Kernel
pub mod KernelLaws
pub mod Invariant
use hwprivacy.Common.{
  ℕ, ◌≡◌, refl, Bool, true, false, Option, none, some, List, [], Eq, ◌==◌, list_eq, nat_eq,
  if◌then◌else◌,
}
use hwprivacy.Common.Text.{Text, codes}
use hwprivacy.Device.{DeviceCategory}
use hwprivacy.Names.{Lowercase}

pub data Permission : Type 0 where
  allow while_in_use ask deny : Permission

permission_dec : Discrete Permission
permission_dec = hlevel

instance unfoldable pub permission_eq : Eq Permission
unfolding permission_dec
permission_eq = record { dec = permission_dec }

-- `Display for Permission`
unfoldable pub permission_text : Permission → Text
permission_text allow = codes "allow"
permission_text while_in_use = codes "while_in_use"
permission_text ask = codes "ask"
permission_text deny = codes "deny"

-- `FromStr for Permission`; `none` stands for the error, which quotes the text.
unfoldable pub parse_permission : ⦃lc : Lowercase⦄ → Text → Option Permission
parse_permission ⦃lc⦄ s =
    let lower = lc.to_lowercase s in
    if lower == codes "allow"
    then some allow
    else if lower == codes "ask_each"
    then some ask
    else if lower == codes "while_in_use"
    then some while_in_use
    else if lower == codes "ask"
    then some ask
    else if lower == codes "deny"
    then some deny
    else none

pub record AppRule : Type 0 where
  pub app_name : Text
  pub microphone : Option Permission
  pub camera : Option Permission
  pub monitor : Option Permission
  pub exe_path : Option Text

-- `AppRule::get_permission`
abbrev pub opinion : AppRule → DeviceCategory → Option Permission
opinion rule DeviceCategory.microphone = rule.microphone
opinion rule DeviceCategory.camera = rule.camera
opinion rule DeviceCategory.monitor = rule.monitor

abbrev pub set_opinion : AppRule → DeviceCategory → Option Permission → AppRule
set_opinion rule DeviceCategory.microphone perm = record rule { microphone = perm }
set_opinion rule DeviceCategory.camera perm = record rule { camera = perm }
set_opinion rule DeviceCategory.monitor perm = record rule { monitor = perm }

abbrev pub set_permission : AppRule → DeviceCategory → Permission → AppRule
set_permission rule DeviceCategory.microphone perm = record rule { microphone = some perm }
set_permission rule DeviceCategory.camera perm = record rule { camera = some perm }
set_permission rule DeviceCategory.monitor perm = record rule { monitor = some perm }

abbrev pub empty_rule : Text → AppRule
empty_rule name = record {
  app_name = name;
  microphone = none;
  camera = none;
  monitor = none;
  exe_path = none;
}

pub record PolicyConfig : Type 0 where
  pub default_action : Permission
  pub poll_interval_ms : ℕ
  pub dismiss_cooldown_secs : ℕ
  pub denied_link_grace_ms : ℕ
  pub exe_recheck_secs : ℕ
  pub while_in_use_settle_secs : ℕ
  pub awaiting_open_secs : ℕ
  pub notify_on_allow : Bool
  pub notify_allow_grace_secs : ℕ
  pub notify_allow_cooldown_secs : ℕ

abbrev pub default_policy : PolicyConfig
default_policy = record {
  default_action = deny;
  poll_interval_ms = 500;
  dismiss_cooldown_secs = 60;
  denied_link_grace_ms = 1000;
  exe_recheck_secs = 30;
  while_in_use_settle_secs = 10;
  awaiting_open_secs = 60;
  notify_on_allow = true;
  notify_allow_grace_secs = 60;
  notify_allow_cooldown_secs = 300;
}

pub record DevicesConfig : Type 0 where
  pub microphone : Bool
  pub camera : Bool
  pub monitor : Bool

abbrev pub default_devices : DevicesConfig
default_devices = record { microphone = true; camera = true; monitor = true }

abbrev pub is_guarded : DevicesConfig → DeviceCategory → Bool
is_guarded devices DeviceCategory.microphone = devices.microphone
is_guarded devices DeviceCategory.camera = devices.camera
is_guarded devices DeviceCategory.monitor = devices.monitor

pub record Config : Type 0 where
  pub policy : PolicyConfig
  pub devices : DevicesConfig
  pub rules : List AppRule

abbrev pub default_config : Config
default_config = record { policy = default_policy; devices = default_devices; rules = [] }
