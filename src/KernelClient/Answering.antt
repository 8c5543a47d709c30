-- ===== src/KernelClient/Answering.antt =====
-- What the answer to a kernel prompt changes, and what is left when the rule cannot be written.
use hwprivacy.Common.{
  ◌≡◌, refl, ap, ◌∙◌, Bool, false, none, some, [], arith, ==_refl, nat_eq, list_eq, pair_eq,
  option_eq, bool_eq, contains, Bool-cases, Option-cases, is_empty,
}
use hwprivacy.Common.Text.{Text, codes, starts_with}
use hwprivacy.Config.{Config, Permission, permission_eq}
use hwprivacy.Config.Rules.{find_rule, set_rule, set_rule_exe}
use hwprivacy.Daemon.{DaemonState, Moment}
use hwprivacy.Device.{camera, category_eq}
use hwprivacy.KernelClient.{rule_key_for, attach_and_set, answer_kernel_prompt}
use hwprivacy.Names.{Lowercase}
use hwprivacy.Prompt.{PromptOutcome, chosen, dismissed, prompt_failed, decide_outcome}
use hwprivacy.StreamTracker.{StreamTracker, prompt_pending, end_prompt, session_key, record_dismiss}
use hwprivacy.StreamTracker.Prompts.{prompt_lem}

pending-same :
    ⦃lc : Lowercase⦄
    → (a b : StreamTracker) (app : Text) → a.pending_prompts ≡ b.pending_prompts
    → prompt_pending a app camera ≡ prompt_pending b app camera
unfolding prompt_pending
pending-same a b app e = ap (λ keys. contains keys (session_key app camera)) e

module _ ⦃lc : Lowercase⦄ (moment : Moment) (path_exists : Text → Bool) where
  tracker-attach_and_set :
      (s : DaemonState) (config : Config) (target exe_path : Text) (perm : Permission)
      → (attach_and_set moment path_exists s config target exe_path perm).state.tracker ≡ s.tracker
  tracker-attach_and_set s config target exe_path perm = ground arith

  prompts-answer :
      (s : DaemonState) (exe_short exe_path : Text) (outcome : PromptOutcome)
      → (answer_kernel_prompt moment path_exists s exe_short exe_path
          outcome).state.tracker.pending_prompts
        ≡ (end_prompt s.tracker exe_short camera).pending_prompts
  unfolding answer_kernel_prompt decide_outcome record_dismiss
  prompts-answer s exe_short exe_path (chosen perm) =
      ground
        (arith, tracker-attach_and_set _ _ (rule_key_for s.config exe_path exe_short) exe_path perm)
  prompts-answer s exe_short exe_path dismissed = refl
  prompts-answer s exe_short exe_path (prompt_failed e) = refl

  failed-set_rule_exe :
      (s : DaemonState) (config : Config) (target exe_path : Text) (perm : Permission)
      → is_empty exe_path ≡ false
      → path_exists exe_path ≡ false
      → attach_and_set moment path_exists s config target exe_path perm
        ≡ record { state = record s { config = config }; effects = [] }
  unfolding set_rule_exe
  failed-set_rule_exe s config target exe_path perm full missing =
      ground (
        arith,
        Option-cases (find_rule config target),
        Bool-cases (starts_with exe_path (codes "/")),
      )

  -- However a kernel prompt ends, no prompt for the executable's camera waits afterwards. One that is
  -- dismissed or cannot be shown leaves the rules as they are.
  pub answer_kernel_prompt_lem :
      (s : DaemonState) (exe_short exe_path error : Text) (outcome : PromptOutcome)
      → (prompt_pending
            (answer_kernel_prompt moment path_exists s exe_short exe_path outcome).state.tracker
            exe_short
            camera
          ≡ false)
        × ((answer_kernel_prompt moment path_exists s exe_short exe_path dismissed).state.config
            ≡ s.config)
        × ((answer_kernel_prompt moment path_exists s exe_short exe_path
              (prompt_failed error)).state.config
            ≡ s.config)
  unfolding answer_kernel_prompt decide_outcome
  answer_kernel_prompt_lem s exe_short exe_path error outcome = (
    pending-same _ (end_prompt s.tracker exe_short camera) exe_short
          (prompts-answer s exe_short exe_path outcome)
        ∙ (prompt_lem s.tracker exe_short exe_short camera camera).2
        ∙ ground (arith, ==_refl (session_key exe_short camera)),
    refl,
    refl,
  )

  -- A button is pressed for an executable that no rule owns, whose name is not that of a rule and
  -- whose path is not there any more. Then the rule that was made to carry it stays, as a denial of
  -- the camera, whatever was pressed; it is not saved, and the policy is not pushed.
  pub answer_kernel_prompt_unattached :
      (s : DaemonState) (exe_short exe_path : Text) (perm : Permission) (config' : Config)
      → find_rule s.config (rule_key_for s.config exe_path exe_short) ≡ none
      → set_rule s.config (rule_key_for s.config exe_path exe_short) camera Permission.deny
        ≡ some config'
      → is_empty exe_path ≡ false
      → path_exists exe_path ≡ false
      → ((answer_kernel_prompt moment path_exists s exe_short exe_path (chosen perm)).state.config
          ≡ config')
        × ((answer_kernel_prompt moment path_exists s exe_short exe_path (chosen perm)).effects
            ≡ [])
  unfolding answer_kernel_prompt decide_outcome
  answer_kernel_prompt_unattached s exe_short exe_path perm config' new made full missing =
      let free : DaemonState = record s { tracker = end_prompt s.tracker exe_short camera } in
      ground (
        arith,
        new,
        made,
        failed-set_rule_exe free config' (rule_key_for s.config exe_path exe_short) exe_path perm
            full missing,
      )
