-- ===== src/Bus/Promises.antt =====
-- What single calls promise: a camera that is granted reaches the kernel layer's allowlist, a merge
-- that is refused or only described changes nothing, and a grant that is refused forgets the rule.
use hwprivacy.Bus.{
  Called, Answer, exe_refused, allow_camera_call, parse_choices, splits_rules, merge_rules_call,
}
use hwprivacy.Bus.Cases.{on_option, on_exe, on_merge, on_choices, on_test}
use hwprivacy.Common.{
  ◌≡◌, ◌⊎◌, refl, sym, ap, ◌∙◌, inl, inr, Bool, true, false, not, ◌&&◌, Option, none, some, List,
  [], ◌∷◌, arith, ◌==◌, ==_refl, nat_eq, list_eq, option_eq, find, any, is_empty, retain,
  update_first, contains, Option-cases, Bool-cases, find-append_one,
}
use hwprivacy.Common.Text.{Text}
use hwprivacy.Config.{Config, Permission, permission_eq, AppRule, set_permission, empty_rule}
use hwprivacy.Config.Kernel.{kernel_camera_allowlist}
use hwprivacy.Config.KernelLaws.{kernel_camera_allowlist_lem, paths}
use hwprivacy.Config.RuleLaws.{find-update_first, find-same_key, app_name-set_permission}
use hwprivacy.Config.Rules.{
  ExeError, done, matches, find_rule, write_rule, attach_exe, set_rule, set_rule_exe, remove_rule,
}
use hwprivacy.Daemon.{DaemonState}
use hwprivacy.Device.{camera}
use hwprivacy.Names.{Lowercase, normalize_app_name, sanitize_rule_name}
use hwprivacy.Names.Sanitize.{sanitize_rule_name_lem}
use hwprivacy.RuleMerge.{merge_rules}
use hwprivacy.RuleMerge.Splits.{find_rule_splits}

find-retain_other :
    {A : Type 0} (p : A → Bool) (xs : List A) → find p (retain (λ x. not (p x)) xs) ≡ none
find-retain_other p [] = refl
find-retain_other p (x ∷ xs) = ground (arith, find-retain_other p xs)

any-update_first :
    {A : Type 0} (p q : A → Bool) (f : A → A) (xs : List A) (x : A)
    → find p xs ≡ some x
    → q (f x) ≡ true
    → any q (update_first p f xs) ≡ true
any-update_first p q f [] x e h = ground arith
any-update_first p q f (y ∷ xs) x e h = ground (arith, any-update_first p q f xs x)

abbrev camera_of : Option AppRule → Option Permission
camera_of none = none
camera_of (some rule) = rule.camera

module _ ⦃lc : Lowercase⦄ (path_exists : Text → Bool) (can_write : Bool) (s : DaemonState)
    (saved : Config) where
  -- A merge that is answered with an error, or that is not to be applied, changes nothing, in memory or
  -- in the file, and tells nobody.
  pub merge_rules_call_keeps :
      (from into mic cam mon : Text) (apply : Bool)
      → ((merge_rules_call path_exists can_write s saved from into mic cam mon apply).answer.0
          ≡ false)
        ⊎ (apply ≡ false)
      → let c = merge_rules_call path_exists can_write s saved from into mic cam mon apply in
        (c.state ≡ s) × (c.saved ≡ saved) × (c.effects ≡ [])
  unfolding merge_rules_call
  merge_rules_call_keeps from into mic cam mon apply =
      let P : Called Answer → Type 0 = λ c.
        (c.answer.0 ≡ false) ⊎ (apply ≡ false)
        → (c.state ≡ s) × (c.saved ≡ saved) × (c.effects ≡ []) in
      on_choices P (parse_choices mic cam mon) _ _ (λ text category h. (refl, refl, refl))
        (λ choices.
          on_option P (find (splits_rules from into) (find_rule_splits s.config s.identities.pairs))
            _ _
            (on_merge P (merge_rules s.config from into choices) _ _ (λ why h. (refl, refl, refl))
              (λ config lines made. elim (Bool-cases apply) [
                | inl yes_ ↦
                    on_test P (not apply) _ _ (λ h. (refl, refl, refl))
                      (on_test P can_write _ _ (λ h. ground (arith, h, yes_))
                        (λ h. (refl, refl, refl)))
                | inr no_ ↦ rw no_ (λ h. (refl, refl, refl))
              ]))
            (λ split _ h. (refl, refl, refl)))

  -- A camera grant whose executable is refused leaves the application with no rule, whatever rule it
  -- had before, and does not write the file.
  pub allow_camera_forgets :
      (app_name exe_path : Text) (why : ExeError)
      → (allow_camera_call path_exists can_write s saved app_name exe_path).answer
        ≡ (false, exe_refused why)
      → let c = allow_camera_call path_exists can_write s saved app_name exe_path in
        (find_rule c.state.config app_name ≡ none) × (c.saved ≡ saved)
  unfolding allow_camera_call remove_rule
  allow_camera_forgets app_name exe_path why =
      let P : Called Answer → Type 0 = λ c.
        c.answer ≡ (false, exe_refused why)
        → (find_rule c.state.config app_name ≡ none) × (c.saved ≡ saved) in
      on_option P (set_rule s.config app_name camera Permission.allow) _ _ (λ h. absurd (cc))
        (λ granted set.
          on_exe P (set_rule_exe path_exists granted app_name exe_path) _ _
            (λ why' _ h. (find-retain_other (matches app_name) granted.rules, refl))
            (λ config attached. on_test P can_write _ _ (λ h. absurd (cc)) (λ h. absurd (cc))))

module _ ⦃lc : Lowercase⦄ where
  camera_of-write_rule :
      (config : Config) (key : Text) (perm : Permission)
      → camera_of (find_rule (write_rule config key camera perm) key) ≡ some perm
  unfolding write_rule
  camera_of-write_rule config key perm = elim (Option-cases (find_rule config key)) [
    | inl e ↦
        rw (e, write_rule)
          (ground (
            arith,
            find-append_one (matches key) config.rules
                (set_permission (empty_rule key) camera perm),
            ==_refl (normalize_app_name key),
          ))
    | inr (rule, e) ↦
        rw (e, write_rule)
          (ground (
            arith,
            find-update_first (λ rule. set_permission rule camera perm)
                (app_name-set_permission camera perm) key key config.rules,
            ==_refl (normalize_app_name key),
          ))
  ]

  -- After an executable is attached to a rule that allows the camera, the kernel's allowlist has it.
  lists-attach_exe :
      (config : Config) (app_name exe_path : Text)
      → camera_of (find_rule config app_name) ≡ some Permission.allow
      → contains
          (paths (kernel_camera_allowlist (attach_exe config app_name (some exe_path))))
          exe_path
        ≡ true
  lists-attach_exe config app_name exe_path allowed =
      elim (Option-cases (find_rule config app_name)) [
        | inl e ↦ absurd (ground (arith, e, allowed))
        | inr (rule, e) ↦
            (kernel_camera_allowlist_lem (attach_exe config app_name (some exe_path)) exe_path).0
            ∙ any-update_first (matches app_name)
                (λ r. r.camera == some Permission.allow && r.exe_path == some exe_path)
                (λ rule. record rule { exe_path = some exe_path }) config.rules rule e
                (ground (arith, e, allowed))
      ]

  attach-set_rule_exe :
      (path_exists : Text → Bool) (config config' : Config) (app_name exe_path : Text)
      → is_empty exe_path ≡ false
      → set_rule_exe path_exists config app_name exe_path ≡ done config'
      → config' ≡ attach_exe config app_name (some exe_path)
  unfolding set_rule_exe
  attach-set_rule_exe path_exists config config' app_name exe_path named h =
      ground (arith, Option-cases (find_rule config app_name))

  granted-set_rule :
      (config granted : Config) (app_name : Text)
      → sanitize_rule_name app_name ≡ some (normalize_app_name app_name)
      → set_rule config app_name camera Permission.allow ≡ some granted
      → camera_of (find_rule granted app_name) ≡ some Permission.allow
  unfolding set_rule
  granted-set_rule config granted app_name usable set =
      let key = normalize_app_name app_name in
      let written_rule : write_rule config key camera Permission.allow ≡ granted =
        ground (arith, usable, set) in
      ap (λ (c : Config). camera_of (find_rule c app_name)) (sym written_rule)
      ∙ ap camera_of (
          find-same_key key app_name (write_rule config key camera Permission.allow).rules
            (sanitize_rule_name_lem app_name key usable).0)
      ∙ camera_of-write_rule config key Permission.allow

module _ ⦃lc : Lowercase⦄ (path_exists : Text → Bool) (can_write : Bool) (s : DaemonState)
    (saved : Config) where
  -- Where the name is its own key once it is normalised, and the executable is not empty, a camera
  -- grant that is answered with success puts the executable on the kernel layer's allowlist, and the
  -- file holds the rules that the daemon has.
  pub allow_camera_grants :
      (app_name exe_path : Text)
      → (allow_camera_call path_exists can_write s saved app_name exe_path).answer.0 ≡ true
      → sanitize_rule_name app_name ≡ some (normalize_app_name app_name)
      → is_empty exe_path ≡ false
      → let c = allow_camera_call path_exists can_write s saved app_name exe_path in
        (contains (paths (kernel_camera_allowlist c.state.config)) exe_path ≡ true)
        × (c.saved ≡ c.state.config)
  unfolding allow_camera_call
  allow_camera_grants app_name exe_path =
      let P : Called Answer → Type 0 = λ c.
        c.answer.0 ≡ true
        → sanitize_rule_name app_name ≡ some (normalize_app_name app_name)
        → is_empty exe_path ≡ false
        → (contains (paths (kernel_camera_allowlist c.state.config)) exe_path ≡ true)
          × (c.saved ≡ c.state.config) in
      on_option P (set_rule s.config app_name camera Permission.allow) _ _ (λ h _ _. absurd (cc))
        (λ granted set.
          on_exe P (set_rule_exe path_exists granted app_name exe_path) _ _
            (λ why _ h _ _. absurd (cc))
            (λ config attached.
              on_test P can_write _ _
                (λ h usable named.
                  let e =
                    attach-set_rule_exe path_exists granted config app_name exe_path named
                      attached in
                  (
                    rw e (
                        lists-attach_exe granted app_name exe_path
                          (granted-set_rule s.config granted app_name usable set)),
                    refl,
                  ))
                (λ h _ _. absurd (cc))))
