-- ===== src/RuleMerge.antt =====
-- hwprivacy-common/src/rule_merge.rs: `Config::merge_rules`, which folds one rule into another.
-- The wording of the description and of the refusals is not modelled: a refusal is a value that
-- names its reason, and the description is the list of what was settled for each category.
pub mod Laws
pub mod Splits
pub mod Invariant
use hwprivacy.Common.{
  Bool, true, false, not, ◌&&◌, Option, none, some, List, [], ◌∷◌, ◌++◌, Eq, ◌==◌, nat_eq, list_eq,
  option_eq, if◌then◌else◌, find, retain, update_first, is_empty,
}
use hwprivacy.Common.Text.{Text}
use hwprivacy.Device.{DeviceCategory, microphone, camera, monitor, all_categories}
use hwprivacy.Names.{Lowercase}
use hwprivacy.Config.{
  Permission, while_in_use, permission_eq, AppRule, opinion, set_opinion, Config,
}
use hwprivacy.Config.Rules.{find_rule, replace_rules}

pub record MergeChoices : Type 0 where
  pub microphone : Option Permission
  pub camera : Option Permission
  pub monitor : Option Permission

-- `MergeChoices::get`
abbrev pub choice_of : MergeChoices → DeviceCategory → Option Permission
choice_of choices DeviceCategory.microphone = choices.microphone
choice_of choices DeviceCategory.camera = choices.camera
choice_of choices DeviceCategory.monitor = choices.monitor

-- Why one category stops a merge.
pub data Refusal : Type 0 where
  nothing_to_choose : DeviceCategory → Refusal
  choose_one : DeviceCategory → Refusal

pub data MergeError : Type 0 where
  no_rule : Text → MergeError
  same_rule : MergeError
  camera_while_in_use : MergeError
  different_binaries : Text → Text → MergeError
  refused : List Refusal → MergeError

-- A line of the description: the category, its opinion, and whether the user chose it.
abbrev pub Line : Type 0
Line = DeviceCategory × Option Permission × Bool

pub data MergeResult : Type 0 where
  merged : Config → List Line → MergeResult
  failed : MergeError → MergeResult

-- `matches!((a, b), (Some(x), Some(y)) if x != y)`
abbrev pub is_conflict {ℓ} : {A : Type ℓ} ⦃e : Eq A⦄ → Option A → Option A → Bool
is_conflict none b = false
is_conflict (some x) none = false
is_conflict (some x) (some y) = not (x == y)

-- The two binaries, if there are two and they differ.
abbrev pub binary_conflict : Option Text → Option Text → Option (Text × Text)
binary_conflict none b = none
binary_conflict (some x) none = none
binary_conflict (some x) (some y) = if x == y then none else some (x, y)

-- `b.or(a)`
abbrev pub or_option {ℓ} : {A : Type ℓ} → Option A → Option A → Option A
or_option none a = a
or_option (some x) a = some x

pub record Progress : Type 0 where
  pub rule : AppRule
  pub refusals : List Refusal
  pub lines : List Line

abbrev pub settle : Progress → DeviceCategory → Option Permission → Bool → Progress
settle p category result chosen = record {
  rule = set_opinion p.rule category result;
  refusals = p.refusals;
  lines = p.lines ++ (category, result, chosen) ∷ [];
}

abbrev pub refuse : Progress → Refusal → Progress
refuse p reason = record p { refusals = p.refusals ++ reason ∷ [] }

-- One round of the loop over the categories, from the two opinions and the choice.
unfoldable pub merge_opinions :
    Option Permission → Option Permission → Option Permission → Progress → DeviceCategory → Progress
merge_opinions a b none p category =
    if is_conflict a b
    then refuse p (choose_one category)
    else settle p category (or_option b a) false
merge_opinions a b (some chosen) p category =
    if is_conflict a b
    then settle p category (some chosen) true
    else refuse p (nothing_to_choose category)

abbrev pub merge_category : AppRule → AppRule → MergeChoices → Progress → DeviceCategory → Progress
merge_category source target choices p category =
    merge_opinions (opinion source category) (opinion target category) (choice_of choices category)
      p category

-- The loop itself. It starts from a copy of the target with the shared binary.
unfoldable pub merge_categories : AppRule → AppRule → MergeChoices → Option Text → Progress
unfolding merge_opinions
merge_categories source target choices exe_path =
    let start : Progress = record {
      rule = record target { exe_path = exe_path };
      refusals = [];
      lines = [];
    } in
    merge_category source target choices
      (merge_category source target choices
        (merge_category source target choices start DeviceCategory.microphone)
        DeviceCategory.camera)
      DeviceCategory.monitor

-- The source's rule goes, and the target's is replaced.
unfoldable pub fold_rule : Config → AppRule → AppRule → AppRule → Config
fold_rule config source target rule = replace_rules config (
    update_first (λ r. r.app_name == target.app_name) (λ _. rule)
      (retain (λ r. not (r.app_name == source.app_name)) config.rules))

unfoldable pub merge_found : Config → AppRule → AppRule → MergeChoices → MergeResult
unfolding merge_categories fold_rule
merge_found config source target choices =
    if source.app_name == target.app_name
    then failed same_rule
    else if choices.camera == some while_in_use
    then failed camera_while_in_use
    else elim (binary_conflict source.exe_path target.exe_path) [
      | some (a, b) ↦ failed (different_binaries a b)
      | none ↦
          let p =
            merge_categories source target choices (or_option target.exe_path source.exe_path) in
          if is_empty p.refusals
          then merged (fold_rule config source target p.rule) p.lines
          else failed (refused p.refusals)
    ]

module _ ⦃lc : Lowercase⦄ where
  unfoldable pub merge_rules : Config → Text → Text → MergeChoices → MergeResult
  unfolding merge_found
  merge_rules config from into choices = elim (find_rule config from) [
    | none ↦ failed (no_rule from)
    | some source ↦ elim (find_rule config into) [
      | none ↦ failed (no_rule into)
      | some target ↦ merge_found config source target choices
    ]
  ]
