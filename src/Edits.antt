-- ===== src/Edits.antt =====
-- The ways in which the configuration changes, as steps: `set_rule`, `set_rule_exe`,
-- `remove_rule`, `merge_rules` and `apply_preset` of hwprivacy-common, each a whole call that
-- succeeded. An import counts as a step if its plan was made for some configuration, which may be
-- an older one, and if no application of the preset asks for a camera session.
use mathlib.Core.Option.{some-injective}
use hwprivacy.Common.{
  ℕ, ◌+◌, ◌≡◌, refl, sym, subst, ◌≢◌, inl, inr, Bool, true, not, ◌&&◌, Option, none, some, List, [],
  ◌∷◌, ◌++◌, arith, ◌==◌, nat_eq, list_eq, option_eq, All, find, Option-cases, Bool-cases,
}
use hwprivacy.Common.Text.{Text}
use hwprivacy.Device.{DeviceCategory, microphone, camera, monitor, category_eq}
use hwprivacy.Names.{Lowercase, normalize_app_name, sanitize_rule_name}
use hwprivacy.Names.Sanitize.{sanitize_rule_name_lem}
use hwprivacy.Config.{
  Permission, allow, while_in_use, permission_eq, AppRule, set_permission, empty_rule, Config,
  default_config,
}
use hwprivacy.Config.Rules.{
  done, matches, find_rule, write_rule, set_rule, set_rule_exe, remove_rule, replace_rules,
  attach_exe,
}
use hwprivacy.Config.RuleLaws.{app_name-set_permission}
use hwprivacy.Config.Invariant.{
  IsTidy, HasNoCameraSession, IsTidy-update_first, IsTidy-append_one, IsTidy-retain,
}
use hwprivacy.Preset.{
  Preset, PresetApp, PlanEntry, plan_app, plan_apps, plan, apply_entries, apply_preset,
}
use hwprivacy.Preset.Laws.{apply_entries_old, apply_entries_new}
use hwprivacy.RuleMerge.{MergeChoices, Line, merged, merge_rules}
use hwprivacy.RuleMerge.Invariant.{IsTidy-merge_rules}

camera_kept :
    (category : DeviceCategory) (perm : Permission) (rule : AppRule)
    → not (category == camera && perm == while_in_use) ≡ true
    → HasNoCameraSession rule
    → HasNoCameraSession (set_permission rule category perm)
unfolding category_eq
camera_kept microphone perm rule ok h = h
camera_kept camera perm rule ok h = ground arith
camera_kept monitor perm rule ok h = h

module _ ⦃lc : Lowercase⦄ where
  write_rule-IsTidy :
      (config : Config) (key : Text) (category : DeviceCategory) (perm : Permission)
      → normalize_app_name key ≡ key
      → not (category == camera && perm == while_in_use) ≡ true
      → IsTidy config
      → IsTidy (write_rule config key category perm)
  unfolding write_rule
  write_rule-IsTidy config key category perm own ok tidy =
      elim (Option-cases (find_rule config key)) [
        | inr (old, e) ↦
            rw (e, write_rule)
              (IsTidy-update_first (λ rule. set_permission rule category perm)
                (app_name-set_permission category perm) config key
                (λ rule. camera_kept category perm rule ok) tidy)
        | inl e ↦
            let named = app_name-set_permission category perm (empty_rule key) in
            rw (e, write_rule)
              (IsTidy-append_one config (set_permission (empty_rule key) category perm)
                (subst (λ n. normalize_app_name n ≡ n) (sym named) own)
                (subst (λ n. find_rule config n ≡ none) (sym named) e)
                (camera_kept category perm (empty_rule key) ok (ground arith)) tidy)
      ]

  set_rule-IsTidy :
      (config config' : Config) (app_name : Text) (category : DeviceCategory) (perm : Permission)
      → set_rule config app_name category perm ≡ some config'
      → IsTidy config
      → IsTidy config'
  unfolding set_rule
  set_rule-IsTidy config config' app_name category perm h tidy =
      elim (Option-cases (sanitize_rule_name app_name)) [
        | inl e ↦ absurd (cc (rw (e, set_rule) at h))
        | inr (key, e) ↦ elim (Bool-cases (category == camera && perm == while_in_use)) [
          | inl k ↦ absurd (cc (rw (e, set_rule, k) at h))
          | inr k ↦ subst IsTidy (some-injective _ _ (rw (e, set_rule, k) at h)) (
              write_rule-IsTidy config key category perm (sanitize_rule_name_lem app_name key e).0
                (rw k) tidy)
        ]
      ]

  set_rule_exe-IsTidy :
      (path_exists : Text → Bool) (config config' : Config) (app_name exe_path : Text)
      → set_rule_exe path_exists config app_name exe_path ≡ done config'
      → IsTidy config
      → IsTidy config'
  unfolding set_rule_exe
  set_rule_exe-IsTidy path_exists config config' app_name exe_path h tidy =
      ground (arith, attached none, attached (some exe_path))
    where
      attached : (path : Option Text) → IsTidy (attach_exe config app_name path)
      attached path =
          IsTidy-update_first (λ rule. record rule { exe_path = path }) (λ rule. refl) config
            app_name (λ rule p. p) tidy

  -- A preset that asks for no camera session.
  abbrev pub AsksNoCameraSession : PresetApp → Type 0
  AsksNoCameraSession app = app.camera ≢ while_in_use

  abbrev EntryIsFit : PlanEntry → Type 0
  EntryIsFit (key, o, none) = Unit {0}
  EntryIsFit (key, o, some rule) =
      (normalize_app_name rule.app_name ≡ rule.app_name) × HasNoCameraSession rule

  plan_app-IsFit :
      (exists has : Text → Bool) (app : PresetApp)
      → AsksNoCameraSession app
      → EntryIsFit (plan_app exists has app)
  unfolding plan_app
  plan_app-IsFit exists has app no_session = elim (Option-cases (sanitize_rule_name app.name)) [
    | inl e ↦ rw (e, plan_app) tt
    | inr (key, e) ↦ elim (Bool-cases (has key)) [
      | inl h ↦ rw (e, plan_app, h) tt
      | inr h ↦ elim (Bool-cases (app.camera == allow && find exists app.exe_candidates == none)) [
        | inl c ↦ rw (e, plan_app, h, c) tt
        | inr c ↦ rw (e, plan_app, h, c) ((sanitize_rule_name_lem app.name key e).0, ground arith)
      ]
    ]
  ]

  apply_entries-IsTidy :
      (config : Config) (count : ℕ) (entries : List PlanEntry)
      → All EntryIsFit entries
      → IsTidy config
      → IsTidy (apply_entries (config, count) entries).0
  unfolding apply_entries
  apply_entries-IsTidy config count [] fit tidy = tidy
  apply_entries-IsTidy config count ((key, o, none) ∷ entries) (_, fit) tidy =
      apply_entries-IsTidy config count entries fit tidy
  apply_entries-IsTidy config count ((key, o, some r) ∷ entries) ((own, no_session), fit) tidy =
      elim (Option-cases (find_rule config r.app_name)) [
        | inr (old, e) ↦
            rw (apply_entries_old config count key o r entries old e)
              (apply_entries-IsTidy config count entries fit tidy)
        | inl e ↦ rw (apply_entries_new config count key o r entries e) (
            apply_entries-IsTidy (replace_rules config (config.rules ++ r ∷ [])) (count + 1) entries
              fit (IsTidy-append_one config r own e no_session tidy))
      ]

  apply_preset-IsTidy :
      (config : Config) (exists has : Text → Bool) (preset : Preset)
      → All AsksNoCameraSession preset.apps
      → IsTidy config
      → IsTidy (apply_preset config (plan exists has preset)).0
  unfolding apply_preset plan
  apply_preset-IsTidy config exists has preset fit tidy =
      apply_entries-IsTidy config 0 (plan exists has preset).entries (each preset.apps fit) tidy
    where
      each :
          (apps : List PresetApp)
          → All AsksNoCameraSession apps
          → All EntryIsFit (plan_apps exists has apps)
      each [] h = tt
      each (app ∷ apps) (p, h) = (plan_app-IsFit exists has app p, each apps h)

  pub data Edit (config : Config) : Config → Type 0 where
    sets :
        {config' : Config} (app_name : Text) (category : DeviceCategory) (perm : Permission)
        → set_rule config app_name category perm ≡ some config'
        → Edit config config'
    attaches :
        {config' : Config} (path_exists : Text → Bool) (app_name exe_path : Text)
        → set_rule_exe path_exists config app_name exe_path ≡ done config'
        → Edit config config'
    removes :
        {config' : Config} (app_name : Text)
        → config' ≡ (remove_rule config app_name).0
        → Edit config config'
    merges :
        {config' : Config} (from into : Text) (choices : MergeChoices) (lines : List Line)
        → merge_rules config from into choices ≡ merged config' lines
        → Edit config config'
    imports :
        {config' : Config} (exists has : Text → Bool) (preset : Preset)
        → All AsksNoCameraSession preset.apps
        → config' ≡ (apply_preset config (plan exists has preset)).0
        → Edit config config'

  pub data Edits : Config → Type 0 where
    start : Edits default_config
    next : {config config' : Config} → Edits config → Edit config config' → Edits config'

  Edit-IsTidy : {config config' : Config} → Edit config config' → IsTidy config → IsTidy config'
  unfolding remove_rule
  Edit-IsTidy {config} {config'} (sets app_name category perm h) tidy =
      set_rule-IsTidy config config' app_name category perm h tidy
  Edit-IsTidy {config} {config'} (attaches path_exists app_name exe_path h) tidy =
      set_rule_exe-IsTidy path_exists config config' app_name exe_path h tidy
  Edit-IsTidy {config} (removes app_name e) tidy =
      subst IsTidy (sym e) (IsTidy-retain config (λ rule. not (matches app_name rule)) tidy)
  Edit-IsTidy {config} {config'} (merges from into choices lines h) tidy =
      IsTidy-merge_rules config config' from into choices lines h tidy
  Edit-IsTidy {config} (imports exists has preset fit e) tidy =
      subst IsTidy (sym e) (apply_preset-IsTidy config exists has preset fit tidy)

  -- However the default configuration is edited, by permissions that are set, executables attached,
  -- rules removed or merged, and imports of presets that ask for no camera session, every stored name
  -- is its own key, no key has two rules, and no rule holds `while_in_use` for the camera.
  pub Edits-IsTidy : {config : Config} → Edits config → IsTidy config
  Edits-IsTidy start = record { keys = tt; distinct = tt; cameras = tt }
  Edits-IsTidy (next edits edit) = Edit-IsTidy edit (Edits-IsTidy edits)
