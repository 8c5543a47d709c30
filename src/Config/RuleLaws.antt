-- ===== src/Config/RuleLaws.antt =====
-- How writing a rule changes what is allowed, and the invariant of the rule list.
use hwprivacy.Common.{
  ◌≡◌, refl, sym, ap, inl, inr, Bool, true, not, ◌&&◌, ◌||◌, Option, none, some, List, [], ◌∷◌,
  arith, ◌==◌, nat_eq, list_eq, option_eq, if◌then◌else◌, find, retain, update_first,
  find-append_one, find-retain, retain-le, length, is_empty, Option-cases, ltb,
}
use hwprivacy.Common.Options.{is_some}
use hwprivacy.Common.Text.{Text, codes, starts_with}
use hwprivacy.Device.{DeviceCategory, microphone, camera, monitor, category_eq}
use hwprivacy.Names.{Lowercase, normalize_app_name, sanitize_rule_name}
use hwprivacy.Names.Sanitize.{sanitize_rule_name_lem}
use hwprivacy.Config.{
  Permission, permission_eq, AppRule, opinion, set_permission, empty_rule, Config,
}
use hwprivacy.Config.Rules.{
  done, matches, find_rule, get_permission, write_rule, set_rule, set_rule_exe, remove_rule,
  attach_exe,
}

opinion-set_permission :
    (rule : AppRule) (category device : DeviceCategory) (perm : Permission)
    → opinion (set_permission rule category perm) device
      ≡ (if category == device then some perm else opinion rule device)
unfolding category_eq
opinion-set_permission rule microphone microphone perm = refl
opinion-set_permission rule microphone camera perm = refl
opinion-set_permission rule microphone monitor perm = refl
opinion-set_permission rule camera microphone perm = refl
opinion-set_permission rule camera camera perm = refl
opinion-set_permission rule camera monitor perm = refl
opinion-set_permission rule monitor microphone perm = refl
opinion-set_permission rule monitor camera perm = refl
opinion-set_permission rule monitor monitor perm = refl

opinion-empty_rule :
    (name : Text) (device : DeviceCategory) → opinion (empty_rule name) device ≡ none
opinion-empty_rule name microphone = refl
opinion-empty_rule name camera = refl
opinion-empty_rule name monitor = refl

pub app_name-set_permission :
    (category : DeviceCategory) (perm : Permission) (rule : AppRule)
    → (set_permission rule category perm).app_name ≡ rule.app_name
app_name-set_permission microphone perm rule = refl
app_name-set_permission camera perm rule = refl
app_name-set_permission monitor perm rule = refl

abbrev pub exe_of : Option AppRule → Option Text
exe_of none = none
exe_of (some rule) = rule.exe_path

opinion-exe_path :
    (rule : AppRule) (path : Option Text) (device : DeviceCategory)
    → opinion (record rule { exe_path = path }) device ≡ opinion rule device
opinion-exe_path rule path microphone = refl
opinion-exe_path rule path camera = refl
opinion-exe_path rule path monitor = refl

module _ ⦃lc : Lowercase⦄ where
  -- An update of the first rule of a key, seen from any name. `f` keeps the rule's name.
  pub find-update_first :
      (f : AppRule → AppRule)
      → ((rule : AppRule) → (f rule).app_name ≡ rule.app_name)
      → (key other : Text) (rules : List AppRule)
      → find (matches other) (update_first (matches key) f rules)
        ≡ elim (find (matches other) rules) [
          | none ↦ none
          | some rule ↦
              if normalize_app_name key == normalize_app_name other
              then some (f rule)
              else some rule
        ]
  find-update_first f keeps key other [] = refl
  find-update_first f keeps key other (rule ∷ rules) =
      ground (arith, keeps rule, find-update_first f keeps key other rules)

  pub find-same_key :
      (key other : Text) (rules : List AppRule)
      → normalize_app_name key ≡ normalize_app_name other
      → find (matches other) rules ≡ find (matches key) rules
  find-same_key key other rules e =
      ap (λ u. find (λ (rule : AppRule). normalize_app_name rule.app_name == u) rules) (sym e)

  get_permission-write_rule :
      (config : Config) (key other : Text) (category device : DeviceCategory) (perm : Permission)
      → get_permission (write_rule config key category perm) other device ≡ (
          if (normalize_app_name key == normalize_app_name other) && category == device
          then perm
          else get_permission config other device)
  unfolding get_permission write_rule
  get_permission-write_rule config key other category device perm =
      elim (Option-cases (find_rule config key)) [
        | inl e ↦
            rw (e, write_rule)
              (ground (
                arith,
                find-append_one (matches other) config.rules
                    (set_permission (empty_rule key) category perm),
                find-same_key key other config.rules,
                app_name-set_permission category perm (empty_rule key),
                opinion-set_permission (empty_rule key) category device perm,
                opinion-empty_rule key device,
              ))
        | inr (r, e) ↦ elim (Option-cases (find_rule config other)) [
          | inl f ↦
              rw (e, write_rule)
                (ground (
                  arith,
                  find-update_first (λ rule. set_permission rule category perm)
                      (app_name-set_permission category perm) key other config.rules,
                  find-same_key key other config.rules,
                ))
          | inr (other_rule, f) ↦
              rw (e, write_rule)
                (ground (
                  arith,
                  find-update_first (λ rule. set_permission rule category perm)
                      (app_name-set_permission category perm) key other config.rules,
                  opinion-set_permission other_rule category device perm,
                ))
        ]
      ]

  -- Where `set_rule` accepts, it gives its permission to the named application and category, and to
  -- nothing else: every other lookup reads as before.
  pub get_permission-set_rule :
      (config config' : Config) (app_name other : Text) (category device : DeviceCategory)
      (perm : Permission)
      → set_rule config app_name category perm ≡ some config'
      → get_permission config' other device ≡ (
          if sanitize_rule_name app_name == some (normalize_app_name other) && category == device
          then perm
          else get_permission config other device)
  unfolding set_rule
  get_permission-set_rule config config' app_name other category device perm h =
      elim (Option-cases (sanitize_rule_name app_name)) [
        | inl e ↦ absurd (ground (arith, e))
        | inr (key, e) ↦ ground (
          arith,
          (sanitize_rule_name_lem app_name key e).0,
          get_permission-write_rule config key other category device perm,
        )
      ]

  pub find-others :
      (app_name other : Text) (rules : List AppRule)
      → find (λ rule. not (matches app_name rule) && matches other rule) rules ≡ (
          if normalize_app_name app_name == normalize_app_name other
          then none
          else find (matches other) rules)
  find-others app_name other [] = ground arith
  find-others app_name other (rule ∷ rules) = ground (arith, find-others app_name other rules)

  removed :
      (app_name : Text) (rules : List AppRule)
      → ltb (length (retain (λ rule. not (matches app_name rule)) rules)) (length rules)
        ≡ is_some (find (matches app_name) rules)
  removed app_name [] = refl
  removed app_name (rule ∷ rules) =
      ground (arith, removed app_name rules, retain-le (λ rule. not (matches app_name rule)) rules)

  -- The rule kept for a name is gone after `remove_rule`, which says whether there was one; every
  -- other name reads as before.
  pub get_permission-remove_rule :
      (config : Config) (app_name other : Text) (device : DeviceCategory)
      → (get_permission (remove_rule config app_name).0 other device ≡ (
          if normalize_app_name app_name == normalize_app_name other
          then config.policy.default_action
          else get_permission config other device))
        × ((remove_rule config app_name).1 ≡ is_some (find_rule config app_name))
  unfolding remove_rule get_permission
  get_permission-remove_rule config app_name other device = (
    ground (
      arith,
      find-retain (matches other) (λ rule. not (matches app_name rule)) config.rules,
      find-others app_name other config.rules,
    ),
    removed app_name config.rules,
  )

  get_permission-attach_exe :
      (config : Config) (app_name other : Text) (path : Option Text) (device : DeviceCategory)
      → get_permission (attach_exe config app_name path) other device
        ≡ get_permission config other device
  unfolding get_permission
  get_permission-attach_exe config app_name other path device =
      elim (Option-cases (find_rule config other)) [
        | inl e ↦ ground (
          arith,
          find-update_first (λ rule. record rule { exe_path = path }) (λ rule. refl) app_name other
              config.rules,
        )
        | inr (rule, e) ↦ ground (
          arith,
          find-update_first (λ rule. record rule { exe_path = path }) (λ rule. refl) app_name other
              config.rules,
          opinion-exe_path rule path device,
        )
      ]

  exe_of-attach_exe :
      (config : Config) (app_name : Text) (path : Option Text) (rule : AppRule)
      → find_rule config app_name ≡ some rule
      → exe_of (find_rule (attach_exe config app_name path) app_name) ≡ path
  exe_of-attach_exe config app_name path rule e = ground (
    arith,
    find-update_first (λ rule. record rule { exe_path = path }) (λ rule. refl) app_name app_name
        config.rules,
  )

  -- Where attaching an executable succeeds, the path is empty or an existing absolute one, the rule
  -- of the name holds it, or none if it is empty, and no permission of any application changes.
  pub set_rule_exe_lem :
      (path_exists : Text → Bool) (config config' : Config) (app_name exe_path other : Text)
      (device : DeviceCategory)
      → set_rule_exe path_exists config app_name exe_path ≡ done config'
      → (get_permission config' other device ≡ get_permission config other device)
        × (exe_of (find_rule config' app_name)
            ≡ (if is_empty exe_path then none else some exe_path))
        × ((is_empty exe_path || starts_with exe_path (codes "/") && path_exists exe_path) ≡ true)
  unfolding set_rule_exe
  set_rule_exe_lem path_exists config config' app_name exe_path other device h =
      elim (Option-cases (find_rule config app_name)) [
        | inl e ↦ absurd (ground (arith, e))
        | inr (rule, e) ↦ (
          ground (
            arith,
            get_permission-attach_exe config app_name other none device,
            get_permission-attach_exe config app_name other (some exe_path) device,
          ),
          ground (
            arith,
            exe_of-attach_exe config app_name none rule e,
            exe_of-attach_exe config app_name (some exe_path) rule e,
          ),
          ground arith,
        )
      ]
