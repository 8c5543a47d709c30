-- ===== src/PolicyEngine/Decide.antt =====
-- When an access is allowed, denied or asked about, from the rules as they were written.
use hwprivacy.Common.{
  ◌≡◌, refl, ap, ◌∙◌, Bool, true, false, not, ◌&&◌, ◌||◌, some, arith, ◌==◌, nat_eq, list_eq,
  option_eq,
}
use hwprivacy.Common.Text.{Text}
use hwprivacy.Device.{category_eq, ProtectedDevice}
use hwprivacy.Names.{Lowercase, normalize_app_name, sanitize_rule_name}
use hwprivacy.Config.{Permission, permission_eq, Config, is_guarded}
use hwprivacy.Config.Rules.{get_permission, set_rule}
use hwprivacy.Config.RuleLaws.{get_permission-set_rule}
use hwprivacy.Stream.{StreamInfo}
use hwprivacy.PolicyEngine.{allow, deny, decision_eq, decide, evaluate}

decide_cases :
    (perm : Permission) (session_live : Bool)
    → ((decide perm session_live == allow)
        ≡ (perm == Permission.allow || perm == Permission.while_in_use && session_live))
      × ((decide perm session_live == deny) ≡ (perm == Permission.deny))
unfolding decision_eq permission_eq
decide_cases Permission.allow true = (refl, refl)
decide_cases Permission.allow false = (refl, refl)
decide_cases Permission.while_in_use true = (refl, refl)
decide_cases Permission.while_in_use false = (refl, refl)
decide_cases Permission.ask true = (refl, refl)
decide_cases Permission.ask false = (refl, refl)
decide_cases Permission.deny true = (refl, refl)
decide_cases Permission.deny false = (refl, refl)

module _ ⦃lc : Lowercase⦄ where
  abbrev pub permission_for : Config → StreamInfo → ProtectedDevice → Permission
  permission_for config stream device = get_permission config stream.app_name device.category

  -- An access is allowed exactly when its category is not guarded, its rule says `allow`, or its
  -- rule says `while_in_use` and a session lives. It is denied exactly when its category is guarded
  -- and its rule says `deny`.
  pub evaluate_lem :
      (config : Config) (stream : StreamInfo) (device : ProtectedDevice) (session_live : Bool)
      → ((evaluate config stream device session_live == allow) ≡ (
          not (is_guarded config.devices device.category)
          || permission_for config stream device == Permission.allow
          || permission_for config stream device == Permission.while_in_use && session_live))
        × ((evaluate config stream device session_live == deny) ≡ (
            is_guarded config.devices device.category
            && permission_for config stream device == Permission.deny))
  unfolding evaluate
  evaluate_lem config stream device session_live =
      let (allowed, denied) = decide_cases (permission_for config stream device) session_live in
      (ground (arith, allowed), ground (arith, denied))

  -- Once a permission is set for a name, every stream whose name has that key is decided by it on
  -- guarded hardware of that category, whatever it was before.
  pub evaluate-set_rule :
      (config config' : Config) (app_name : Text) (perm : Permission) (stream : StreamInfo)
      (device : ProtectedDevice) (session_live : Bool)
      → set_rule config app_name device.category perm ≡ some config'
      → sanitize_rule_name app_name ≡ some (normalize_app_name stream.app_name)
      → is_guarded config'.devices device.category ≡ true
      → evaluate config' stream device session_live ≡ decide perm session_live
  unfolding evaluate
  evaluate-set_rule config config' app_name perm stream device session_live h named guarded =
      rw guarded (
        ap (λ p. decide p session_live)
          (get_permission-set_rule config config' app_name stream.app_name device.category
              device.category perm h
            ∙ ground (arith, named)))
