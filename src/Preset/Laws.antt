-- ===== src/Preset/Laws.antt =====
-- An import adds rules and changes none, and does what its preview says.
use hwprivacy.Common.{
  ℕ, ◌+◌, ◌≤◌, ◌≡◌, refl, ap, ◌≢◌, inl, inr, length-append, find-test, Bool, true, false, ◌&&◌,
  none, some, List, [], ◌∷◌, ◌++◌, arith, ◌==◌, nat_eq, list_eq, option_eq, find, retain, length,
  find-append_one, Option-cases, Bool-cases, All,
}
use hwprivacy.Common.Text.{Text}
use hwprivacy.Names.{Lowercase, normalize_app_name, sanitize_rule_name}
use hwprivacy.Names.Sanitize.{sanitize_rule_name_lem}
use hwprivacy.Config.{allow, permission_eq, AppRule, Config}
use hwprivacy.Config.Rules.{find_rule, matches, replace_rules}
use hwprivacy.Preset.{
  Preset, PresetApp, ImportPlan, PlanEntry, Outcome, plan_app, plan, plan_apps, apply_entries,
  apply_preset, added_count, is_added,
}

module _ ⦃lc : Lowercase⦄ where
  module _ (config : Config) (count : ℕ) (key : Text) (o : Outcome) (r : AppRule)
      (entries : List PlanEntry) where
    pub apply_entries_old :
        (old : AppRule)
        → find_rule config r.app_name ≡ some old
        → apply_entries (config, count) ((key, o, some r) ∷ entries)
          ≡ apply_entries (config, count) entries
    unfolding apply_entries
    apply_entries_old old e = ap (λ d. apply_entries d entries) (ground (arith, e))

    pub apply_entries_new :
        find_rule config r.app_name ≡ none
        → apply_entries (config, count) ((key, o, some r) ∷ entries)
          ≡ apply_entries (replace_rules config (config.rules ++ r ∷ []), count + 1) entries
    unfolding apply_entries
    apply_entries_new e = ap (λ d. apply_entries d entries) (ground (arith, e))

  -- A rule that is there before an import is there after it, for any plan.
  find_rule-apply_entries :
      (config : Config) (count : ℕ) (entries : List PlanEntry) (name : Text) (rule : AppRule)
      → find_rule config name ≡ some rule
      → find_rule (apply_entries (config, count) entries).0 name ≡ some rule
  unfolding apply_entries
  find_rule-apply_entries config count [] name rule h = h
  find_rule-apply_entries config count ((key, o, none) ∷ entries) name rule h =
      find_rule-apply_entries config count entries name rule h
  find_rule-apply_entries config count ((key, o, some r) ∷ entries) name rule h =
      elim (Option-cases (find_rule config r.app_name)) [
        | inr (old, e) ↦
            rw (apply_entries_old config count key o r entries old e)
              (find_rule-apply_entries config count entries name rule h)
        | inl e ↦ rw (apply_entries_new config count key o r entries e) (
            find_rule-apply_entries (replace_rules config (config.rules ++ r ∷ [])) (count + 1)
              entries name rule (ground (arith, find-append_one (matches name) config.rules r)))
      ]

  -- The number that is reported is the number of rules that came.
  length-apply_entries :
      (config : Config) (count : ℕ) (entries : List PlanEntry)
      → (apply_entries (config, count) entries).1 + length config.rules
        ≡ count + length (apply_entries (config, count) entries).0.rules
  unfolding apply_entries
  length-apply_entries config count [] = omega arith
  length-apply_entries config count ((key, o, none) ∷ entries) =
      length-apply_entries config count entries
  length-apply_entries config count ((key, o, some r) ∷ entries) =
      elim (Option-cases (find_rule config r.app_name)) [
        | inr (old, e) ↦
            rw (apply_entries_old config count key o r entries old e)
              (length-apply_entries config count entries)
        | inl e ↦ rw (apply_entries_new config count key o r entries e) (
            omega (
              arith,
              length-apply_entries (replace_rules config (config.rules ++ r ∷ [])) (count + 1)
                  entries,
              length-append {0} config.rules (r ∷ []),
            ))
      ]

  -- Whatever the plan, an import keeps every rule that a name had, and it reports the number of
  -- rules that it added.
  pub apply_preset_keeps :
      (config : Config) (plan : ImportPlan) (name : Text) (rule : AppRule)
      → find_rule config name ≡ some rule
      → (find_rule (apply_preset config plan).0 name ≡ some rule)
        × ((apply_preset config plan).1 + length config.rules
            ≡ length (apply_preset config plan).0.rules)
  unfolding apply_preset
  apply_preset_keeps config plan name rule h = (
    find_rule-apply_entries config 0 plan.entries name rule h,
    omega (arith, length-apply_entries config 0 plan.entries),
  )

  -- What a planned rule promises: a stored key that had no rule, an executable that exists if it
  -- names one, and never a camera grant without an executable.
  pub record IsSound (exists has : Text → Bool) (rule : AppRule) : Type 0 where
    pub own_key : normalize_app_name rule.app_name ≡ rule.app_name
    pub is_new : has rule.app_name ≡ false
    pub exe_exists : (p : Text) → rule.exe_path ≡ some p → exists p ≡ true
    pub camera_has_exe : rule.camera ≡ some allow → rule.exe_path ≢ none

  abbrev pub PlannedIsSound : (Text → Bool) → (Text → Bool) → PlanEntry → Type 0
  PlannedIsSound exists has (key, o, none) = is_added o ≡ false
  PlannedIsSound exists has (key, o, some rule) = (is_added o ≡ true) × IsSound exists has rule

  plan_app-IsSound :
      (exists has : Text → Bool) (app : PresetApp)
      → PlannedIsSound exists has (plan_app exists has app)
  unfolding plan_app
  plan_app-IsSound exists has app = elim (Option-cases (sanitize_rule_name app.name)) [
    | inl e ↦ rw (e, plan_app) refl
    | inr (key, e) ↦ elim (Bool-cases (has key)) [
      | inl h ↦ rw (e, plan_app, h) refl
      | inr h ↦ elim (Bool-cases (app.camera == allow && find exists app.exe_candidates == none)) [
        | inl c ↦ rw (e, plan_app, h, c) refl
        | inr c ↦
            rw (e, plan_app, h, c)
              (
                refl,
                record {
                  own_key = (sanitize_rule_name_lem app.name key e).0;
                  is_new = h;
                  exe_exists = λ p f. find-test exists app.exe_candidates p f;
                  camera_has_exe = λ granted f. ground arith;
                },
              )
      ]
    ]
  ]

  -- In the plan of any preset exactly the entries reported as added carry a rule, and that rule
  -- is sound.
  pub plan-IsSound :
      (exists has : Text → Bool) (preset : Preset)
      → All (PlannedIsSound exists has) (plan exists has preset).entries
  unfolding plan
  plan-IsSound exists has preset = each preset.apps
    where
      each : (apps : List PresetApp) → All (PlannedIsSound exists has) (plan_apps exists has apps)
      each [] = tt
      each (app ∷ apps) = (plan_app-IsSound exists has app, each apps)

  count-apply_entries :
      (config : Config) (count : ℕ) (entries : List PlanEntry) (exists has : Text → Bool)
      → All (PlannedIsSound exists has) entries
      → (apply_entries (config, count) entries).1
        ≤ count + length (retain (λ (_, o, _). is_added o) entries)
  unfolding apply_entries
  count-apply_entries config count [] exists has h = omega arith
  count-apply_entries config count ((key, o, none) ∷ entries) exists has (e, h) =
      rw e (count-apply_entries config count entries exists has h)
  count-apply_entries config count ((key, o, some r) ∷ entries) exists has ((e, _), h) =
      elim (Option-cases (find_rule config r.app_name)) [
        | inr (old, f) ↦
            rw (apply_entries_old config count key o r entries old f, e)
              (omega (arith, count-apply_entries config count entries exists has h))
        | inl f ↦
            rw (apply_entries_new config count key o r entries f, e)
              (omega (
                arith,
                count-apply_entries (replace_rules config (config.rules ++ r ∷ [])) (count + 1)
                    entries exists has h,
              ))
      ]

  -- An import never adds more rules than its preview announced.
  pub apply_preset-le-added_count :
      (config : Config) (exists has : Text → Bool) (preset : Preset)
      → (apply_preset config (plan exists has preset)).1 ≤ added_count (plan exists has preset)
  unfolding apply_preset added_count
  apply_preset-le-added_count config exists has preset = omega (
    arith,
    count-apply_entries config 0 (plan exists has preset).entries exists has
        (plan-IsSound exists has preset),
  )
