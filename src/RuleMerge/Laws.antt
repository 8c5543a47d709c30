-- ===== src/RuleMerge/Laws.antt =====
-- A merge removes one rule, and gives the other what both agree on or the user chose.
use hwprivacy.Common.{
  ◌≡◌, refl, ap, ◌∙◌, ◌≢◌, inl, inr, true, false, not, Option, none, some, List, [], ◌∷◌, ◌++◌,
  arith, ◌==◌, ==→≡, nat_eq, list_eq, option_eq, if◌then◌else◌, find, retain, update_first,
  is_empty, All, find-retain, find-test, Option-cases, Bool-cases,
}
use hwprivacy.Common.Text.{Text}
use hwprivacy.Device.{DeviceCategory, microphone, camera, monitor, category_eq}
use hwprivacy.Names.{Lowercase, normalize_app_name}
use hwprivacy.Config.{
  Permission, while_in_use, permission_eq, AppRule, opinion, set_opinion, Config,
}
use hwprivacy.Config.Rules.{find_rule, matches}
use hwprivacy.Common.Options.{is_some}
use hwprivacy.Config.RuleLaws.{find-others, find-same_key}
use hwprivacy.Config.Invariant.{IsTidy, IsOwnKey, All-retain, All-find}
use hwprivacy.RuleMerge.{
  MergeChoices, choice_of, Progress, Line, merged, failed, refused, Refusal, is_conflict, or_option,
  binary_conflict, merge_opinions, merge_categories, fold_rule, merge_found, merge_rules,
}

append_one-ne-nil {ℓ} : {A : Type ℓ} (xs : List A) (x : A) → xs ++ x ∷ [] ≢ []
append_one-ne-nil [] x h = cc
append_one-ne-nil (y ∷ xs) x h = cc

-- What the merged rule should say: the choice where the rules disagree, and otherwise the target's
-- opinion, or the source's if the target has none.
abbrev pub settled : Option Permission → Option Permission → Option Permission → Option Permission
settled a b choice = if is_conflict a b then choice else or_option b a

merge_opinions_lem :
    (a b choice : Option Permission) (p : Progress) (c : DeviceCategory)
    → (merge_opinions a b choice p c).refusals ≡ []
    → (p.refusals ≡ [])
      × (is_conflict a b ≡ is_some choice)
      × ((merge_opinions a b choice p c).rule ≡ set_opinion p.rule c (settled a b choice))
unfolding merge_opinions
merge_opinions_lem a b none p c h = elim (Bool-cases (is_conflict a b)) [
  | inl k ↦ absurd (append_one-ne-nil _ _ (rw k at h))
  | inr k ↦ rw (k) (rw k at h, refl, refl)
]
merge_opinions_lem a b (some chosen) p c h = elim (Bool-cases (is_conflict a b)) [
  | inl k ↦ rw k (rw k at h, refl, refl)
  | inr k ↦ absurd (append_one-ne-nil _ _ (rw k at h))
]

module _ (source target : AppRule) (choices : MergeChoices) where
  -- The category has a choice exactly if the rules disagree about it.
  abbrev pub Decides : DeviceCategory → Type 0
  Decides c = is_conflict (opinion source c) (opinion target c) ≡ is_some (choice_of choices c)

  abbrev pub settled_opinion : DeviceCategory → Option Permission
  settled_opinion c = settled (opinion source c) (opinion target c) (choice_of choices c)

  -- The rule that a merge ends with.
  abbrev pub settled_rule : Option Text → AppRule
  settled_rule exe_path = record {
    app_name = target.app_name;
    microphone = settled_opinion microphone;
    camera = settled_opinion camera;
    monitor = settled_opinion monitor;
    exe_path = exe_path;
  }

  merge_categories_lem :
      (exe_path : Option Text)
      → (merge_categories source target choices exe_path).refusals ≡ []
      → ((merge_categories source target choices exe_path).rule ≡ settled_rule exe_path)
        × Decides microphone
        × Decides camera
        × Decides monitor
  unfolding merge_categories
  merge_categories_lem exe_path h =
      let (h₂, d₃, e₃) = merge_opinions_lem _ _ _ _ monitor h in
      let (h₁, d₂, e₂) = merge_opinions_lem _ _ _ _ camera h₂ in
      let (h₀, d₁, e₁) = merge_opinions_lem _ _ _ _ microphone h₁ in
      (
        e₃
            ∙ ap (λ r. set_opinion r monitor (settled_opinion monitor)) e₂
            ∙ ap
                (λ r.
                  set_opinion (set_opinion r camera (settled_opinion camera)) monitor
                    (settled_opinion monitor))
                e₁,
        d₁,
        d₂,
        d₃,
      )

  is_empty→nil : (xs : List Refusal) → is_empty xs ≡ true → xs ≡ []
  is_empty→nil [] h = refl
  is_empty→nil (x ∷ xs) h = cc

  merge_found_at :
      (config config' : Config) (lines : List Line) (exe_path : Option Text)
      → (source.app_name == target.app_name) ≡ false
      → (choices.camera == some while_in_use) ≡ false
      → binary_conflict source.exe_path target.exe_path ≡ none
      → (if is_empty (merge_categories source target choices exe_path).refusals
          then merged
              (fold_rule config source target
                (merge_categories source target choices exe_path).rule)
              (merge_categories source target choices exe_path).lines
          else failed (refused (merge_categories source target choices exe_path).refusals))
        ≡ merged config' lines
      → (source.app_name ≢ target.app_name)
        × (choices.camera ≢ some while_in_use)
        × (binary_conflict source.exe_path target.exe_path ≡ none)
        × (config' ≡ fold_rule config source target (settled_rule exe_path))
        × Decides microphone
        × Decides camera
        × Decides monitor
  merge_found_at config config' lines exe_path k l m h =
      elim (Bool-cases (is_empty (merge_categories source target choices exe_path).refusals)) [
        | inr z ↦ absurd (cc (rw z at h))
        | inl z ↦
            let (e, d₁, d₂, d₃) = merge_categories_lem exe_path (is_empty→nil _ z) in
            (
              (λ same. ground arith),
              (λ same. ground arith),
              m,
              cc (rw z at h, ap (fold_rule config source target) e),
              d₁,
              d₂,
              d₃,
            )
      ]

  -- What a merge of two found rules takes, and gives.
  pub merge_found_lem :
      (config config' : Config) (lines : List Line)
      → merge_found config source target choices ≡ merged config' lines
      → (source.app_name ≢ target.app_name)
        × (choices.camera ≢ some while_in_use)
        × (binary_conflict source.exe_path target.exe_path ≡ none)
        × (config'
            ≡ fold_rule config source target
                (settled_rule (or_option target.exe_path source.exe_path)))
        × Decides microphone
        × Decides camera
        × Decides monitor
  unfolding merge_found
  merge_found_lem config config' lines h = elim (Bool-cases (source.app_name == target.app_name)) [
    | inl k ↦ absurd (cc (rw (k, merge_found) at h))
    | inr k ↦ elim (Bool-cases (choices.camera == some while_in_use)) [
      | inl l ↦ absurd (cc (rw (k, merge_found, l) at h))
      | inr l ↦ elim (Option-cases (binary_conflict source.exe_path target.exe_path)) [
        | inr (pair, m) ↦ absurd (cc (rw (k, merge_found, l, m) at h))
        | inl m ↦
            merge_found_at config config' lines (or_option target.exe_path source.exe_path) k l m
              (rw (k, merge_found, l, m) at h)
      ]
    ]
  ]

module _ ⦃lc : Lowercase⦄ where
  -- In a tidy list a name is its own key.
  pub retain_by_key :
      (name : Text) (rules : List AppRule)
      → normalize_app_name name ≡ name
      → All IsOwnKey rules
      → retain (λ r. not (r.app_name == name)) rules ≡ retain (λ r. not (matches name r)) rules
  retain_by_key name [] own h = refl
  retain_by_key name (r ∷ rules) own (e, h) = ground (arith, retain_by_key name rules own h)

  pub update_by_key :
      (name : Text) (f : AppRule → AppRule) (rules : List AppRule)
      → normalize_app_name name ≡ name
      → All IsOwnKey rules
      → update_first (λ r. r.app_name == name) f rules ≡ update_first (matches name) f rules
  update_by_key name f [] own h = refl
  update_by_key name f (r ∷ rules) own (e, h) = ground (arith, update_by_key name f rules own h)

  find-replace :
      (key other : Text) (rule : AppRule) (rules : List AppRule)
      → normalize_app_name rule.app_name ≡ normalize_app_name key
      → find (matches other) (update_first (matches key) (λ _. rule) rules)
        ≡ elim (find (matches other) rules) [
          | none ↦ none
          | some r ↦
              if normalize_app_name key == normalize_app_name other then some rule else some r
        ]
  find-replace key other rule [] e = refl
  find-replace key other rule (r ∷ rules) e = ground (arith, find-replace key other rule rules)

  pub find_rule-fold_rule :
      (config : Config) (from into other : Text) (source target rule : AppRule)
      → IsTidy config
      → find_rule config from ≡ some source
      → find_rule config into ≡ some target
      → source.app_name ≢ target.app_name
      → rule.app_name ≡ target.app_name
      → find_rule (fold_rule config source target rule) other ≡ (
          if normalize_app_name from == normalize_app_name other
          then none
          else if normalize_app_name into == normalize_app_name other
          then some rule
          else find_rule config other)
  unfolding fold_rule
  find_rule-fold_rule config from into other source target rule tidy f g differ named =
      let source_own : normalize_app_name source.app_name ≡ source.app_name =
        All-find IsOwnKey (matches from) config.rules source tidy.keys f in
      let target_own : normalize_app_name target.app_name ≡ target.app_name =
        All-find IsOwnKey (matches into) config.rules target tidy.keys g in
      let source_key : normalize_app_name source.app_name ≡ normalize_app_name from =
        ==→≡ _ _ (find-test (matches from) config.rules source f) in
      let target_key : normalize_app_name target.app_name ≡ normalize_app_name into =
        ==→≡ _ _ (find-test (matches into) config.rules target g) in
      let kept = retain (λ r. not (matches source.app_name r)) config.rules in
      ap
        (λ rules.
          find (matches other)
            (update_first (λ r. r.app_name == target.app_name) (λ _. rule) rules))
        (retain_by_key source.app_name config.rules source_own tidy.keys)
      ∙ ap (find (matches other)) (
          update_by_key target.app_name (λ _. rule) kept target_own
            (All-retain IsOwnKey (λ r. not (matches source.app_name r)) config.rules tidy.keys))
      ∙ find-replace target.app_name other rule kept (ap normalize_app_name named)
      ∙ ground (
        arith,
        find-retain (matches other) (λ r. not (matches source.app_name r)) config.rules,
        find-others source.app_name other config.rules,
        find-same_key into other config.rules,
      )

  -- After a merge in a tidy configuration, the source's name has no rule, the target's name has the
  -- rule that takes each category's agreed opinion, or the user's choice where the two disagreed, and
  -- every other name has the rule it had. A category has a choice exactly if the two disagreed.
  pub find_rule-merge_rules :
      (config config' : Config) (from into other : Text) (choices : MergeChoices)
      (lines : List Line) (source target : AppRule)
      → IsTidy config
      → find_rule config from ≡ some source
      → find_rule config into ≡ some target
      → merge_rules config from into choices ≡ merged config' lines
      → (find_rule config' other ≡ (
          if normalize_app_name from == normalize_app_name other
          then none
          else if normalize_app_name into == normalize_app_name other
          then some (settled_rule source target choices (or_option target.exe_path source.exe_path))
          else find_rule config other))
        × Decides source target choices microphone
        × Decides source target choices camera
        × Decides source target choices monitor
        × (binary_conflict source.exe_path target.exe_path ≡ none)
  unfolding merge_rules
  find_rule-merge_rules config config' from into other choices lines source target tidy f g h =
      let (differ, _, same_exe, e, d₁, d₂, d₃) =
        merge_found_lem source target choices config config' lines (rw (f, merge_rules, g) at h) in
      (
        rw e (find_rule-fold_rule config from into other source target _ tidy f g differ refl),
        d₁,
        d₂,
        d₃,
        same_exe,
      )
