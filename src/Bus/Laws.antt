-- ===== src/Bus/Laws.antt =====
-- The calls of the bus make only the edits of the configuration that the library offers, in memory and
-- in the file; and what single calls promise.
use hwprivacy.Bus.Cases.{on_option, on_exe, on_merge, on_choices, on_test}
use hwprivacy.Common.{refl, Bool, not, some, nat_eq, list_eq, All, find, ltb}
use hwprivacy.Bus.{
  Called, BusEffect, Message, config_written, parse_category, set_rule_call, save_or_tell,
  set_rule_exe_call, allow_camera_call, remove_rule_call, parse_choices, splits_rules, merge_into,
  merge_rules_call, import_preset_call,
}
use hwprivacy.Common.Text.{Text}
use hwprivacy.Config.{Config, Permission, parse_permission}
use hwprivacy.Config.Rules.{set_rule, set_rule_exe, remove_rule}
use hwprivacy.Daemon.{DaemonState}
use hwprivacy.Device.{camera}
use hwprivacy.Edits.{sets, attaches, removes, merges, imports, Edits, next, AsksNoCameraSession}
use hwprivacy.Names.{Lowercase}
use hwprivacy.Preset.{Preset, plan, has_rule, apply_preset}
use hwprivacy.RuleMerge.{MergeChoices, merge_rules}
use hwprivacy.RuleMerge.Splits.{find_rule_splits}

-- Both the configuration in memory and that of the file come about by edits.
abbrev pub AreEdits : ⦃lc : Lowercase⦄ → DaemonState → Config → Type 0
AreEdits s saved = Edits s.config × Edits saved

module _ ⦃lc : Lowercase⦄ (path_exists : Text → Bool) (can_write : Bool) (s : DaemonState)
    (saved : Config) where
  abbrev KeepsEdits : {A : Type 0} → Called A → Type 0
  KeepsEdits c = AreEdits c.state c.saved

  Edits-config_written :
      (config : Config)
      → Edits config
      → Edits saved
      → Edits (config_written path_exists can_write saved config)
  Edits-config_written config e f = on_test Edits can_write config saved e f

  pub set_rule_call-AreEdits :
      (app_name device permission : Text)
      → AreEdits s saved
      → KeepsEdits (set_rule_call path_exists can_write s saved app_name device permission)
  unfolding set_rule_call
  set_rule_call-AreEdits app_name device permission (e, f) =
      on_option KeepsEdits (parse_category device) _ _ (e, f)
        (λ category _.
          on_option KeepsEdits (parse_permission permission) _ _ (e, f)
            (λ perm _.
              on_option KeepsEdits (set_rule s.config app_name category perm) _ _ (e, f)
                (λ config set.
                  let edited = next e (sets app_name category perm set) in
                  (edited, Edits-config_written config edited f))))

  save_or_tell-AreEdits :
      (config : Config) (signal : BusEffect) (message : Message)
      → Edits config
      → Edits saved
      → KeepsEdits (save_or_tell path_exists can_write s saved config signal message)
  save_or_tell-AreEdits config signal message e f = on_test KeepsEdits can_write _ _ (e, e) (e, f)

  pub set_rule_exe_call-AreEdits :
      (app_name exe_path : Text)
      → AreEdits s saved
      → KeepsEdits (set_rule_exe_call path_exists can_write s saved app_name exe_path)
  unfolding set_rule_exe_call
  set_rule_exe_call-AreEdits app_name exe_path (e, f) =
      on_exe KeepsEdits (set_rule_exe path_exists s.config app_name exe_path) _ _ (λ why _. (e, f))
        (λ config attached.
          save_or_tell-AreEdits config _ _
            (next e (attaches path_exists app_name exe_path attached)) f)

  pub allow_camera_call-AreEdits :
      (app_name exe_path : Text)
      → AreEdits s saved
      → KeepsEdits (allow_camera_call path_exists can_write s saved app_name exe_path)
  unfolding allow_camera_call
  allow_camera_call-AreEdits app_name exe_path (e, f) =
      on_option KeepsEdits (set_rule s.config app_name camera Permission.allow) _ _ (e, f)
        (λ granted set.
          let edited = next e (sets app_name camera Permission.allow set) in
          on_exe KeepsEdits (set_rule_exe path_exists granted app_name exe_path) _ _
            (λ why _. (next edited (removes app_name refl), f))
            (λ config attached.
              save_or_tell-AreEdits config _ _
                (next edited (attaches path_exists app_name exe_path attached)) f))

  pub remove_rule_call-AreEdits :
      (app_name : Text)
      → AreEdits s saved
      → KeepsEdits (remove_rule_call path_exists can_write s saved app_name)
  unfolding remove_rule_call
  remove_rule_call-AreEdits app_name (e, f) =
      let edited = next e (removes app_name refl) in
      on_test KeepsEdits (remove_rule s.config app_name).1 _ _
        (edited, Edits-config_written (remove_rule s.config app_name).0 edited f) (edited, f)

  merge_into-AreEdits :
      (from into : Text) (choices : MergeChoices) (seen_as_one apply : Bool)
      → AreEdits s saved
      → KeepsEdits (merge_into path_exists can_write s saved from into choices seen_as_one apply)
  merge_into-AreEdits from into choices seen_as_one apply (e, f) =
      on_merge KeepsEdits (merge_rules s.config from into choices) _ _ (λ why. (e, f))
        (λ config lines made.
          let edited = next e (merges from into choices lines made) in
          on_test KeepsEdits (not apply) _ _ (e, f)
            (on_test KeepsEdits can_write _ _ (edited, edited) (e, f)))

  pub merge_rules_call-AreEdits :
      (from into mic cam mon : Text) (apply : Bool)
      → AreEdits s saved
      → KeepsEdits (merge_rules_call path_exists can_write s saved from into mic cam mon apply)
  unfolding merge_rules_call
  merge_rules_call-AreEdits from into mic cam mon apply (e, f) =
      on_choices KeepsEdits (parse_choices mic cam mon) _ _ (λ text category. (e, f))
        (λ choices.
          on_option KeepsEdits
            (find (splits_rules from into) (find_rule_splits s.config s.identities.pairs)) _ _
            (merge_into-AreEdits from into choices _ apply (e, f)) (λ split _. (e, f)))

  pub import_preset_call-AreEdits :
      (name : Text) (preset : Preset) (apply : Bool)
      → All AsksNoCameraSession preset.apps
      → AreEdits s saved
      → KeepsEdits (import_preset_call path_exists can_write s saved name (some preset) apply)
  unfolding import_preset_call
  import_preset_call-AreEdits name preset apply asks (e, f) =
      let edited = next e (imports path_exists (has_rule s.config) preset asks refl) in
      let config = (apply_preset s.config (plan path_exists (has_rule s.config) preset)).0 in
      on_test KeepsEdits (not apply) _ _ (e, f)
        (on_test KeepsEdits
          (ltb 0 (apply_preset s.config (plan path_exists (has_rule s.config) preset)).1) _ _
          (edited, Edits-config_written config edited f) (edited, f))
