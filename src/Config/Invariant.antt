-- ===== src/Config/Invariant.antt =====
-- The invariant of the rule list: every stored name is its own key, no key has two rules, and no
-- rule holds `while_in_use` for the camera.
use mathlib.Core.Option.{some-injective}
use hwprivacy.Common.{
  ◌≡◌, refl, sym, ap, ◌∙◌, Bool, false, none, some, List, [], ◌∷◌, ◌++◌, arith, ◌==◌, nat_eq,
  list_eq, option_eq, find, retain, update_first, find-append_one, All, Bool-cases, inl, inr, subst,
}
use hwprivacy.Common.Text.{Text}
use hwprivacy.Device.{category_eq}
use hwprivacy.Names.{Lowercase, normalize_app_name}
use hwprivacy.Config.{while_in_use, permission_eq, AppRule, Config}
use hwprivacy.Config.Rules.{matches, find_rule, replace_rules}

abbrev pub HasNoCameraSession : AppRule → Type 0
HasNoCameraSession rule = (rule.camera == some while_in_use) ≡ false

module _ ⦃lc : Lowercase⦄ where
  abbrev pub IsOwnKey : AppRule → Type 0
  IsOwnKey rule = normalize_app_name rule.app_name ≡ rule.app_name

  -- No later rule has the key of an earlier one.
  abbrev pub DistinctKeys : List AppRule → Type 0
  DistinctKeys [] = Unit
  DistinctKeys (rule ∷ rules) = (find (matches rule.app_name) rules ≡ none) × DistinctKeys rules

  pub record IsTidy (config : Config) : Type 0 where
    pub keys : All IsOwnKey config.rules
    pub distinct : DistinctKeys config.rules
    pub cameras : All HasNoCameraSession config.rules

  module _ (f : AppRule → AppRule)
      (keeps : (rule : AppRule) → (f rule).app_name ≡ rule.app_name) where
    All-update_first :
        (P : AppRule → Type 0) (h : (rule : AppRule) → P rule → P (f rule)) (key : Text)
        (rules : List AppRule)
        → All P rules
        → All P (update_first (matches key) f rules)
    All-update_first P h key [] ps = tt
    All-update_first P h key (rule ∷ rules) (p, ps) =
        ground (arith, h rule p, All-update_first P h key rules ps)

    find-none-update_first :
        (key other : Text) (rules : List AppRule)
        → find (matches other) rules ≡ none
        → find (matches other) (update_first (matches key) f rules) ≡ none
    find-none-update_first key other [] h = refl
    find-none-update_first key other (rule ∷ rules) h =
        ground (arith, keeps rule, find-none-update_first key other rules)

    DistinctKeys-update_first :
        (key : Text) (rules : List AppRule)
        → DistinctKeys rules
        → DistinctKeys (update_first (matches key) f rules)
    DistinctKeys-update_first key [] d = tt
    DistinctKeys-update_first key (rule ∷ rules) (fresh, d) = ground (
      arith,
      keeps rule,
      find-none-update_first key rule.app_name rules fresh,
      DistinctKeys-update_first key rules d,
    )

    pub IsTidy-update_first :
        (config : Config) (key : Text)
        → ((rule : AppRule) → HasNoCameraSession rule → HasNoCameraSession (f rule))
        → IsTidy config
        → IsTidy (replace_rules config (update_first (matches key) f config.rules))
    IsTidy-update_first config key camera_kept tidy = record {
      keys =
          All-update_first IsOwnKey
            (λ rule p. ap normalize_app_name (keeps rule) ∙ p ∙ sym (keeps rule)) key config.rules
            tidy.keys;
      distinct = DistinctKeys-update_first key config.rules tidy.distinct;
      cameras = All-update_first HasNoCameraSession camera_kept key config.rules tidy.cameras;
    }

  All-append_one :
      (P : AppRule → Type 0) (rules : List AppRule) (rule : AppRule)
      → All P rules
      → P rule
      → All P (rules ++ rule ∷ [])
  All-append_one P [] rule ps p = (p, tt)
  All-append_one P (r ∷ rules) rule (q, ps) p = (q, All-append_one P rules rule ps p)

  DistinctKeys-append_one :
      (rules : List AppRule) (rule : AppRule)
      → find (matches rule.app_name) rules ≡ none
      → DistinctKeys rules
      → DistinctKeys (rules ++ rule ∷ [])
  DistinctKeys-append_one [] rule h d = (refl, tt)
  DistinctKeys-append_one (r ∷ rules) rule h (fresh, d) =
      ground
        (arith, find-append_one (matches r.app_name) rules rule, DistinctKeys-append_one rules rule)

  -- A new rule at the end, under a key that has none.
  pub IsTidy-append_one :
      (config : Config) (rule : AppRule)
      → IsOwnKey rule
      → find_rule config rule.app_name ≡ none
      → HasNoCameraSession rule
      → IsTidy config
      → IsTidy (replace_rules config (config.rules ++ rule ∷ []))
  IsTidy-append_one config rule own fresh no_session tidy = record {
    keys = All-append_one IsOwnKey config.rules rule tidy.keys own;
    distinct = DistinctKeys-append_one config.rules rule fresh tidy.distinct;
    cameras = All-append_one HasNoCameraSession config.rules rule tidy.cameras no_session;
  }

  pub All-retain :
      (P : AppRule → Type 0) (test : AppRule → Bool) (rules : List AppRule)
      → All P rules
      → All P (retain test rules)
  All-retain P test [] ps = tt
  All-retain P test (rule ∷ rules) (p, ps) = ground (arith, All-retain P test rules ps)

  find-none-retain :
      (test : AppRule → Bool) (other : Text) (rules : List AppRule)
      → find (matches other) rules ≡ none
      → find (matches other) (retain test rules) ≡ none
  find-none-retain test other [] h = refl
  find-none-retain test other (rule ∷ rules) h = ground (arith, find-none-retain test other rules)

  DistinctKeys-retain :
      (test : AppRule → Bool) (rules : List AppRule)
      → DistinctKeys rules
      → DistinctKeys (retain test rules)
  DistinctKeys-retain test [] d = tt
  DistinctKeys-retain test (rule ∷ rules) (fresh, d) =
      ground
        (arith, find-none-retain test rule.app_name rules fresh, DistinctKeys-retain test rules d)

  pub IsTidy-retain :
      (config : Config) (test : AppRule → Bool)
      → IsTidy config
      → IsTidy (replace_rules config (retain test config.rules))
  IsTidy-retain config test tidy = record {
    keys = All-retain IsOwnKey test config.rules tidy.keys;
    distinct = DistinctKeys-retain test config.rules tidy.distinct;
    cameras = All-retain HasNoCameraSession test config.rules tidy.cameras;
  }

  pub All-find {κ} :
      (P : AppRule → Type κ) (test : AppRule → Bool) (rules : List AppRule) (rule : AppRule)
      → All P rules
      → find test rules ≡ some rule
      → P rule
  All-find P test [] rule ps h = absurd (cc)
  All-find P test (r ∷ rules) rule (p, ps) h = elim (Bool-cases (test r)) [
    | inl e ↦ subst P (some-injective r rule (rw e at h)) p
    | inr e ↦ All-find P test rules rule ps (rw e at h)
  ]
