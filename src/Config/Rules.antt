-- ===== src/Config/Rules.antt =====
-- hwprivacy-common/src/config.rs: the methods of `Config` that read and write rules. A method
-- that returns `false` or an error leaves the configuration as it was, which `none` and `failed`
-- stand for. Whether a path is a regular file is the parameter `path_exists`.
use hwprivacy.Common.{
  Bool, not, ◌&&◌, Option, none, some, List, [], ◌∷◌, ◌++◌, ◌==◌, nat_eq, list_eq, option_eq,
  if◌then◌else◌, find, retain, update_first, length, is_empty, ltb,
}
use hwprivacy.Common.Text.{Text, codes, starts_with}
use hwprivacy.Device.{DeviceCategory, camera, category_eq}
use hwprivacy.Names.{Lowercase, normalize_app_name, sanitize_rule_name}
use hwprivacy.Config.{
  Permission, while_in_use, permission_eq, AppRule, opinion, set_permission, empty_rule, Config,
}

-- Why `set_rule_exe` refuses.
pub data ExeError : Type 0 where
  no_rule relative_path missing_path : ExeError

pub data ExeResult : Type 0 where
  done : Config → ExeResult
  failed : ExeError → ExeResult

abbrev pub replace_rules : Config → List AppRule → Config
replace_rules config rules = record config { rules = rules }

module _ ⦃lc : Lowercase⦄ where
  -- The rule's name and the asked one have one key.
  abbrev pub matches : Text → AppRule → Bool
  matches app_name rule = normalize_app_name rule.app_name == normalize_app_name app_name

  abbrev pub find_rule : Config → Text → Option AppRule
  find_rule config app_name = find (matches app_name) config.rules

  -- `Config::get_permission`
  unfoldable pub get_permission : Config → Text → DeviceCategory → Permission
  get_permission config app_name category = elim (find_rule config app_name) [
    | none ↦ config.policy.default_action
    | some rule ↦ elim (opinion rule category) [
      | none ↦ config.policy.default_action
      | some perm ↦ perm
    ]
  ]

  -- What `set_rule` does with a usable key: through `find_rule_mut`, or by a new rule at the end.
  unfoldable pub write_rule : Config → Text → DeviceCategory → Permission → Config
  write_rule config key category perm = elim (find_rule config key) [
    | some _ ↦
        replace_rules config
          (update_first (matches key) (λ rule. set_permission rule category perm) config.rules)
    | none ↦
        replace_rules config (config.rules ++ set_permission (empty_rule key) category perm ∷ [])
  ]

  unfoldable pub set_rule : Config → Text → DeviceCategory → Permission → Option Config
  unfolding write_rule
  set_rule config app_name category perm = elim (sanitize_rule_name app_name) [
    | none ↦ none
    | some key ↦
        if category == camera && perm == while_in_use
        then none
        else some (write_rule config key category perm)
  ]

  -- `rule.exe_path = path` through `find_rule_mut`
  abbrev pub attach_exe : Config → Text → Option Text → Config
  attach_exe config app_name path =
      replace_rules config
        (update_first (matches app_name) (λ rule. record rule { exe_path = path }) config.rules)

  unfoldable pub set_rule_exe : (Text → Bool) → Config → Text → Text → ExeResult
  set_rule_exe path_exists config app_name exe_path = elim (find_rule config app_name) [
    | none ↦ failed no_rule
    | some _ ↦
        if is_empty exe_path
        then done (attach_exe config app_name none)
        else if not (starts_with exe_path (codes "/"))
        then failed relative_path
        else if not (path_exists exe_path)
        then failed missing_path
        else done (attach_exe config app_name (some exe_path))
  ]

  -- `remove_rule`: the configuration, and whether a rule went.
  unfoldable pub remove_rule : Config → Text → Config × Bool
  remove_rule config app_name =
      let kept = retain (λ rule. not (matches app_name rule)) config.rules in
      (replace_rules config kept, ltb (length kept) (length config.rules))

unfoldable pub find_rule_by_exe : Config → Text → Option AppRule
find_rule_by_exe config exe_path = find (λ rule. rule.exe_path == some exe_path) config.rules
