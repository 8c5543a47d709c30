-- ===== src/Preset.antt =====
-- hwprivacy-common/src/preset.rs: importable rule sets, planned first and then applied, and
-- `Config::apply_preset` of config.rs. Reading preset files and their syntax is not modelled.
pub mod Laws
use hwprivacy.Common.{
  ℕ, suc, ◌+◌, Bool, true, false, ◌&&◌, Option, none, some, List, [], ◌∷◌, ◌++◌, Eq, ◌==◌,
  if◌then◌else◌, find, filter_map, option_eq, nat_eq, list_eq, length, retain,
}
use hwprivacy.Common.Text.{Text}
use hwprivacy.Names.{Lowercase, sanitize_rule_name}
use hwprivacy.Config.{Permission, allow, permission_eq, AppRule, Config}
use hwprivacy.Config.Rules.{find_rule, replace_rules}

pub record PresetApp : Type 0 where
  pub name : Text
  pub microphone : Permission
  pub camera : Permission
  pub monitor : Permission
  pub exe_candidates : List Text

pub record Preset : Type 0 where
  pub name : Text
  pub description : Text
  pub apps : List PresetApp

pub data Outcome : Type 0 where
  added : Option Text → Outcome
  skipped_rule_exists : Outcome
  skipped_no_binary : List Text → Outcome
  skipped_bad_name : Outcome

-- `Outcome::added`
abbrev pub is_added : Outcome → Bool
is_added (added exe_path) = true
is_added skipped_rule_exists = false
is_added (skipped_no_binary tried) = false
is_added skipped_bad_name = false

abbrev pub PlanEntry : Type 0
PlanEntry = Text × Outcome × Option AppRule

pub record ImportPlan : Type 0 where
  pub preset : Text
  pub entries : List PlanEntry

unfoldable pub added_count : ImportPlan → ℕ
added_count plan = length (retain (λ (_, o, _). is_added o) plan.entries)

abbrev pub preset_rule : Text → PresetApp → Option Text → AppRule
preset_rule key app resolved = record {
  app_name = key;
  microphone = some app.microphone;
  camera = some app.camera;
  monitor = some app.monitor;
  exe_path = resolved;
}

module _ ⦃lc : Lowercase⦄ where
  -- One round of the loop of `Preset::plan`.
  unfoldable pub plan_app : (Text → Bool) → (Text → Bool) → PresetApp → PlanEntry
  plan_app exists has_rule app = elim (sanitize_rule_name app.name) [
    | none ↦ (app.name, skipped_bad_name, none)
    | some key ↦
        let resolved = find exists app.exe_candidates in
        if has_rule key
        then (key, skipped_rule_exists, none)
        else if app.camera == allow && resolved == none
        then (key, skipped_no_binary app.exe_candidates, none)
        else (key, added resolved, some (preset_rule key app resolved))
  ]

  abbrev pub plan_apps : (Text → Bool) → (Text → Bool) → List PresetApp → List PlanEntry
  plan_apps exists has_rule [] = []
  plan_apps exists has_rule (app ∷ apps) =
      plan_app exists has_rule app ∷ plan_apps exists has_rule apps

  unfoldable pub plan : (Text → Bool) → (Text → Bool) → Preset → ImportPlan
  unfolding plan_app
  plan exists has_rule preset = record {
    preset = preset.name;
    entries = plan_apps exists has_rule preset.apps;
  }

  -- One round of the loop of `Config::apply_preset`.
  unfoldable pub apply_entry : Config × ℕ → PlanEntry → Config × ℕ
  apply_entry (config, count) (_, _, entry) = elim entry [
    | none ↦ (config, count)
    | some rule ↦ elim (find_rule config rule.app_name) [
      | some _ ↦ (config, count)
      | none ↦ (replace_rules config (config.rules ++ rule ∷ []), count + 1)
    ]
  ]

  unfoldable pub apply_entries : Config × ℕ → List PlanEntry → Config × ℕ
  unfolding apply_entry
  apply_entries done [] = done
  apply_entries done (entry ∷ entries) = apply_entries (apply_entry done entry) entries

  -- `Config::apply_preset`: the configuration, and how many rules were added.
  unfoldable pub apply_preset : Config → ImportPlan → Config × ℕ
  unfolding apply_entries
  apply_preset config plan = apply_entries (config, 0) plan.entries

  -- The daemon's import: a plan against its own configuration, applied to it.
  abbrev pub has_rule : Config → Text → Bool
  has_rule config name = elim (find_rule config name) [ none ↦ false | some _ ↦ true ]
