-- ===== src/RuleMerge/Invariant.antt =====
-- A merge keeps the rule list tidy.
use hwprivacy.Common.{
  ◌≡◌, refl, sym, ap, subst, ◌∙◌, ◌≢◌, inl, inr, false, not, Option, none, some, List, [], ◌∷◌,
  arith, ◌==◌, nat_eq, list_eq, option_eq, retain, update_first, All, Option-cases,
}
use hwprivacy.Common.Text.{Text}
use hwprivacy.Names.{Lowercase, normalize_app_name}
use hwprivacy.Config.{Permission, while_in_use, permission_eq, AppRule, Config}
use hwprivacy.Config.Rules.{find_rule, matches, replace_rules}
use hwprivacy.Config.Invariant.{
  IsTidy, IsOwnKey, HasNoCameraSession, IsTidy-retain, IsTidy-update_first, All-retain, All-find,
}
use hwprivacy.RuleMerge.{MergeChoices, Line, merged, fold_rule, merge_rules}
use hwprivacy.RuleMerge.Laws.{settled, retain_by_key, update_by_key, merge_found_lem}

-- A settled opinion is no session if the choice is none and the two opinions are none.
settled-session :
    (a b choice : Option Permission)
    → (a == some while_in_use) ≡ false
    → (b == some while_in_use) ≡ false
    → choice ≢ some while_in_use
    → (settled a b choice == some while_in_use) ≡ false
settled-session none none none h k l = ground arith
settled-session none none (some c) h k l = ground arith
settled-session none (some b) choice h k l = ground arith
settled-session (some a) none choice h k l = ground arith
settled-session (some a) (some b) choice h k l = ground arith

module _ ⦃lc : Lowercase⦄ where
  renamed : AppRule → AppRule → AppRule
  renamed rule r = record rule { app_name = r.app_name }

  update_const :
      (key : Text) (rule : AppRule) (rules : List AppRule)
      → normalize_app_name key ≡ rule.app_name
      → All IsOwnKey rules
      → update_first (matches key) (λ _. rule) rules
        ≡ update_first (matches key) (renamed rule) rules
  unfolding renamed
  update_const key rule [] e own = refl
  update_const key rule (r ∷ rules) e (o, own) = ground (arith, update_const key rule rules e own)

  IsTidy-fold_rule :
      (config : Config) (from into : Text) (source target rule : AppRule)
      → IsTidy config
      → find_rule config from ≡ some source
      → find_rule config into ≡ some target
      → rule.app_name ≡ target.app_name
      → HasNoCameraSession rule
      → IsTidy (fold_rule config source target rule)
  unfolding fold_rule renamed
  IsTidy-fold_rule config from into source target rule tidy f g named no_session =
      let source_own : normalize_app_name source.app_name ≡ source.app_name =
        All-find IsOwnKey (matches from) config.rules source tidy.keys f in
      let target_own : normalize_app_name target.app_name ≡ target.app_name =
        All-find IsOwnKey (matches into) config.rules target tidy.keys g in
      let kept = retain (λ r. not (matches source.app_name r)) config.rules in
      let kept_own =
        All-retain IsOwnKey (λ r. not (matches source.app_name r)) config.rules tidy.keys in
      subst (λ rules. IsTidy (replace_rules config rules))
        (sym (
          ap (update_first (λ r. r.app_name == target.app_name) (λ _. rule))
            (retain_by_key source.app_name config.rules source_own tidy.keys)
          ∙ update_by_key target.app_name (λ _. rule) kept target_own kept_own
          ∙ update_const target.app_name rule kept (target_own ∙ sym named) kept_own))
        (IsTidy-update_first (renamed rule) (λ r. refl) (replace_rules config kept) target.app_name
          (λ r _. no_session) (IsTidy-retain config (λ r. not (matches source.app_name r)) tidy))

  pub IsTidy-merge_rules :
      (config config' : Config) (from into : Text) (choices : MergeChoices) (lines : List Line)
      → merge_rules config from into choices ≡ merged config' lines
      → IsTidy config
      → IsTidy config'
  unfolding merge_rules
  IsTidy-merge_rules config config' from into choices lines h tidy =
      elim (Option-cases (find_rule config from)) [
        | inl f ↦ absurd (cc (rw (f, merge_rules) at h))
        | inr (source, f) ↦ elim (Option-cases (find_rule config into)) [
          | inl g ↦ absurd (cc (rw (f, merge_rules, g) at h))
          | inr (target, g) ↦
              let (differ, no_choice, _, e, _, _, _) =
                merge_found_lem source target choices config config' lines
                  (rw (f, merge_rules, g) at h) in
              subst IsTidy (sym e) (
                IsTidy-fold_rule config from into source target _ tidy f g refl (
                  settled-session source.camera target.camera choices.camera
                    (All-find HasNoCameraSession (matches from) config.rules source tidy.cameras f)
                    (All-find HasNoCameraSession (matches into) config.rules target tidy.cameras g)
                    no_choice))
        ]
      ]
