-- ===== src/RuleMerge/Splits.antt =====
-- `Config::find_rule_splits` of hwprivacy-common/src/rule_merge.rs: which rules look like one
-- program, from the names and executables that were observed.
use hwprivacy.Common.{
  ◌≡◌, fun_ext, refl, ap, ◌∙◌, Bool, false, ◌||◌, Option, none, some, List, [], ◌∷◌, arith, Eq,
  ◌==◌, ==_refl, ==→≡, nat_eq, list_eq, option_eq, pair_eq, if◌then◌else◌, any, retain, map,
  filter_map, contains, sort, any-sort, text_le, Bool-cases, Option-cases,
}
use hwprivacy.Common.Text.{Text}
use hwprivacy.Device.{all_categories, category_text}
use hwprivacy.Names.{Lowercase}
use hwprivacy.Config.{permission_eq, AppRule, opinion, Config}
use hwprivacy.Common.Options.{is_some}
use hwprivacy.Config.Rules.{find_rule, find_rule_by_exe}
use hwprivacy.RuleMerge.{is_conflict}

-- `RuleSplit`: the rule of the name, the rule of the executable, the executable and the devices that
-- they disagree about.
abbrev pub RuleSplit : Type 0
RuleSplit = (Text × Text) × (Text × List Text)

abbrev pub conflicts : AppRule → AppRule → List Text
conflicts name_rule exe_rule =
    map category_text
      (retain (λ c. is_conflict (opinion name_rule c) (opinion exe_rule c)) all_categories)

-- The tuples `(&name_rule, &exe_rule)` in order.
abbrev pub split_le : RuleSplit → RuleSplit → Bool
split_le ((a, b), _) ((c, d), _) = if a == c then text_le b d else text_le a c

-- `Vec::dedup`: of equal neighbours the first stays.
unfoldable pub dedup : List RuleSplit → List RuleSplit
dedup [] = []
dedup (x ∷ []) = x ∷ []
dedup (x ∷ y ∷ xs) = let rest = dedup (y ∷ xs) in if x == y then rest else x ∷ rest

-- What one pair of rules gives.
abbrev pub split_of : Text → AppRule → AppRule → Option RuleSplit
split_of exe_path name_rule exe_rule =
    if is_some name_rule.exe_path || name_rule.app_name == exe_rule.app_name
    then none
    else some ((name_rule.app_name, exe_rule.app_name), (exe_path, conflicts name_rule exe_rule))

module _ ⦃lc : Lowercase⦄ where
  -- The closure of `filter_map`.
  abbrev pub observed_split : Config → Text × Text → Option RuleSplit
  observed_split config (name, exe_path) = elim (find_rule config name) [
    | none ↦ none
    | some name_rule ↦ elim (find_rule_by_exe config exe_path) [
      | none ↦ none
      | some exe_rule ↦ split_of exe_path name_rule exe_rule
    ]
  ]

  unfoldable pub find_rule_splits : Config → List (Text × Text) → List RuleSplit
  unfolding dedup
  find_rule_splits config observed =
      dedup (sort split_le (filter_map (observed_split config) observed))

contains-any {ℓ} :
    {A : Type ℓ} ⦃e : Eq A⦄ (xs : List A) (a : A) → contains xs a ≡ any (λ x. x == a) xs
contains-any [] a = refl
contains-any (x ∷ xs) a = ground (arith, contains-any xs a)

any-dedup : (test : RuleSplit → Bool) (xs : List RuleSplit) → any test (dedup xs) ≡ any test xs
unfolding dedup
any-dedup test [] = refl
any-dedup test (x ∷ []) = refl
any-dedup test (x ∷ y ∷ xs) = ground (arith, any-dedup test (y ∷ xs), ==→≡ x y, Bool-cases (x == y))

any-filter_map {ℓ} :
    {A : Type ℓ} (f : A → Option RuleSplit) (test : RuleSplit → Bool) (xs : List A)
    → any test (filter_map f xs) ≡ any (λ x. elim (f x) [ none ↦ false | some y ↦ test y ]) xs
any-filter_map f test [] = refl
any-filter_map f test (x ∷ xs) = ground (arith, any-filter_map f test xs, Option-cases (f x))

is_split :
    (found : Option RuleSplit) (split : RuleSplit)
    → (elim found [ none ↦ false | some y ↦ y == split ]) ≡ (found == some split)
is_split none split = ground arith
is_split (some y) split = ground (arith, ==→≡ y split, ==_refl split, Bool-cases (y == split))

module _ ⦃lc : Lowercase⦄ where
  -- A split is reported exactly if one of the observed pairs gives it: sorting and the removal of
  -- duplicates lose none and add none.
  pub find_rule_splits_lem :
      (config : Config) (observed : List (Text × Text)) (split : RuleSplit)
      → contains (find_rule_splits config observed) split
        ≡ any (λ seen. observed_split config seen == some split) observed
  unfolding find_rule_splits
  find_rule_splits_lem config observed split =
      let found : List RuleSplit = filter_map (observed_split config) observed in
      contains-any (dedup (sort split_le found)) split
      ∙ any-dedup (λ x. x == split) (sort split_le found)
      ∙ any-sort split_le (λ x. x == split) found
      ∙ any-filter_map (observed_split config) (λ x. x == split) observed
      ∙ ap (λ p. any p observed) (fun_ext (λ seen. is_split (observed_split config seen) split))
