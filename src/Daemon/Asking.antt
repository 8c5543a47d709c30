-- ===== src/Daemon/Asking.antt =====
-- When the daemon asks the user, and what an answer changes.
use hwprivacy.Common.{
  ℕ, ◌≡◌, refl, ap, ◌∙◌, Bool, true, false, not, ◌&&◌, ◌||◌, Option, none, some, List, [], ◌∷◌,
  arith, ◌==◌, ==_refl, nat_eq, list_eq, pair_eq, contains, any, Map, Bool-cases, Option-cases,
}
use hwprivacy.Common.Options.{unwrap_or}
use hwprivacy.Common.Text.{Text}
use hwprivacy.Config.{Config, Permission, permission_eq}
use hwprivacy.Config.Rules.{set_rule, get_permission}
use hwprivacy.Daemon.{DaemonState, Moment, Effect, ask_user, TaskResult, log_denied, log_allowed}
use hwprivacy.Daemon.Enforce.{
  Pause, add_connections, use_session, allow_group, claim_prompt, ask_group, announce_allowed,
  decision_of, handle_decision, handle_group,
}
use hwprivacy.Daemon.Groups.{LinkGroup}
use hwprivacy.Daemon.Loop.{answer_prompt, act_on_answer, save_rule}
use hwprivacy.Daemon.Safety.{guards}
use hwprivacy.Device.{DeviceCategory, category_eq}
use hwprivacy.LinkAudit.{LinkKey}
use hwprivacy.Names.{Lowercase}
use hwprivacy.NotifyAllow.{AllowedAccess}
use hwprivacy.PolicyEngine.{PolicyDecision, allow, deny, decision_eq}
use hwprivacy.Prompt.{
  PromptOutcome, chosen, dismissed, prompt_failed, outcome_permission, decide_outcome,
}
use hwprivacy.Stream.{StreamInfo}
use hwprivacy.StreamTracker.Prompts.{prompt_lem}
use hwprivacy.StreamTracker.{
  StreamTracker, prompt_pending, try_begin_prompt, is_in_cooldown, session_key, log_event,
  add_connection, mark_session_opened, refresh_session,
}

abbrev is_question : Effect → Bool
is_question effect = elim effect [ ask_user _ _ _ _ ↦ true | _ ↦ false ]

-- No other task changes the state meanwhile.
abbrev pub nobody : Pause → DaemonState → DaemonState
nobody p s = s

abbrev pub asks : TaskResult → Bool
asks o = any is_question o.effects

module _ ⦃lc : Lowercase⦄ where
  abbrev pub asked_already : DaemonState → LinkGroup → Bool
  asked_already s g = prompt_pending s.tracker g.m.stream.app_name g.m.device.category

  -- The rules that an outcome asks for: only a button that was pressed writes one.
  abbrev pub rules_after : Config → Text → DeviceCategory → Option Permission → Config
  rules_after config app category none = config
  rules_after config app category (some perm) = unwrap_or (set_rule config app category perm) config

module _ ⦃lc : Lowercase⦄ (moment : Moment) where
  abbrev pub is_quiet : DaemonState → LinkGroup → Bool
  is_quiet s g =
      is_in_cooldown s.tracker moment.now g.m.stream.app_name g.m.device.category
        s.config.policy.dismiss_cooldown_secs

  asks-announce :
      (s : DaemonState) (access : AllowedAccess) → asks (announce_allowed moment s access) ≡ false
  asks-announce s access = ground arith

  -- Whether the prompt was claimed, and that it waits then.
  AsksIf : Bool → DaemonState → LinkGroup → TaskResult → Type 0
  AsksIf question s g o =
      (asks o ≡ question) × (asked_already o.state g ≡ (asked_already s g || question))

  claim_lem :
      (s : DaemonState) (g : LinkGroup)
      → AsksIf (not (asked_already s g)) s g (claim_prompt moment nobody s g)
  unfolding AsksIf claim_prompt try_begin_prompt prompt_pending log_denied log_event
  claim_lem s g = ground (
    arith,
    Bool-cases
        (contains s.tracker.pending_prompts (session_key g.m.stream.app_name g.m.device.category)),
    ==_refl (session_key g.m.stream.app_name g.m.device.category),
  )

  ask_lem :
      (s : DaemonState) (g : LinkGroup)
      → AsksIf (not (is_quiet s g) && not (asked_already s g)) s g (ask_group moment nobody s g)
  unfolding AsksIf ask_group prompt_pending log_denied log_event
  ask_lem s g =
      ground (arith, claim_lem s g, Bool-cases (is_quiet s g), Bool-cases (asked_already s g))

  prompts-add_connections :
      (tracker : StreamTracker) (link_ids : List ℕ) (stream : StreamInfo) (node : Text)
      (category : DeviceCategory) (perm : Permission)
      → (add_connections tracker link_ids stream node category perm).pending_prompts
        ≡ tracker.pending_prompts
  unfolding add_connection
  prompts-add_connections tracker [] stream node category perm = refl
  prompts-add_connections tracker (id ∷ link_ids) stream node category perm =
      prompts-add_connections (add_connection tracker id stream node category perm) link_ids stream
        node category perm

  prompts-use_session :
      (tracker : StreamTracker) (perm : Permission) (g : LinkGroup)
      → (use_session moment tracker perm g).pending_prompts ≡ tracker.pending_prompts
  unfolding mark_session_opened refresh_session
  prompts-use_session tracker perm g = ground (arith, Bool-cases (perm == Permission.while_in_use))

  prompts-announce :
      (s : DaemonState) (access : AllowedAccess)
      → (announce_allowed moment s access).state.tracker ≡ s.tracker
  prompts-announce s access = ground arith

  allow_lem : (s : DaemonState) (g : LinkGroup) → AsksIf false s g (allow_group moment s g)
  unfolding AsksIf allow_group prompt_pending log_allowed log_event
  allow_lem s g =
      let stream = g.m.stream in
      let device = g.m.device in
      let perm = get_permission s.config stream.app_name device.category in
      let tracked =
        add_connections s.tracker g.link_ids stream device.node_name device.category perm in
      (
        asks-announce _ _,
        ap
              (λ (t : StreamTracker).
                contains t.pending_prompts (session_key stream.app_name device.category))
              (prompts-announce _ _)
            ∙ ap (λ keys. contains keys (session_key stream.app_name device.category))
                (prompts-use_session tracked perm g
                  ∙ prompts-add_connections s.tracker g.link_ids stream device.node_name
                      device.category perm)
            ∙ ground (
              arith,
              Bool-cases (
                  contains s.tracker.pending_prompts (session_key stream.app_name device.category)),
            ),
      )

  decision_lem :
      (decision : PolicyDecision) (s : DaemonState) (keys : Map ℕ LinkKey) (g : LinkGroup)
      → AsksIf
          (decision == PolicyDecision.ask_user && not (is_quiet s g) && not (asked_already s g))
          s
          g
          (handle_decision moment nobody decision s keys g)
  unfolding AsksIf handle_decision decision_eq prompt_pending log_denied log_event
  decision_lem allow s keys g = allow_lem s g
  decision_lem deny s keys g = ground arith
  decision_lem PolicyDecision.ask_user s keys g = ask_lem s g

  abbrev pub must_ask : DaemonState → LinkGroup → Bool
  must_ask s g =
      guards s g
      && not s.block_all
      && decision_of moment s g == PolicyDecision.ask_user
      && not (is_quiet s g)
      && not (asked_already s g)

  -- If no other task runs meanwhile, the user is asked about a group exactly if its device is
  -- guarded, not all is blocked, the policy says to ask, no dismissal holds the question back, and
  -- no prompt waits for the application and the device. Then one waits, and otherwise one waits
  -- exactly if it did before.
  pub handle_group-asks :
      (s : DaemonState) (keys : Map ℕ LinkKey) (g : LinkGroup)
      → (asks (handle_group moment nobody s keys g) ≡ must_ask s g)
        × (asked_already (handle_group moment nobody s keys g).state g
            ≡ (asked_already s g || must_ask s g))
  unfolding AsksIf handle_group prompt_pending log_denied log_event
  handle_group-asks s keys g = ground (
    arith,
    decision_lem (decision_of moment s g) s keys g,
    Bool-cases (guards s g),
    Bool-cases s.block_all,
    Bool-cases (asked_already s g),
  )

  config-save_rule :
      (s : DaemonState) (config : Option Config)
      → (save_rule s config).state.config ≡ unwrap_or config s.config
  config-save_rule s none = refl
  config-save_rule s (some config) = refl

  config-act :
      (s : DaemonState) (app : Text) (category : DeviceCategory) (o : PromptOutcome)
      → (act_on_answer moment s app category (decide_outcome o)).state.config
        ≡ rules_after s.config app category (outcome_permission o)
  unfolding decide_outcome
  config-act s app category (chosen perm) = ground (
    arith,
    config-save_rule s (set_rule s.config app category perm),
    Bool-cases (perm == Permission.while_in_use),
    Option-cases (set_rule s.config app category perm),
  )
  config-act s app category dismissed = refl
  config-act s app category (prompt_failed e) = refl

  pub config-answer_prompt :
      (s : DaemonState) (app : Text) (category : DeviceCategory) (outcome : PromptOutcome)
      → (answer_prompt moment s app category outcome).state.config
        ≡ rules_after s.config app category (outcome_permission outcome)
  unfolding answer_prompt decide_outcome
  config-answer_prompt s app category outcome = config-act s app category outcome

  -- However a prompt ends, no prompt waits for the application and the device afterwards. A button that
  -- is pressed sets its permission, if the name can be that of a rule, and a prompt that is dismissed
  -- or that fails leaves the rules as they were.
  pub answer_prompt_lem :
      (s : DaemonState) (app : Text) (category : DeviceCategory) (outcome : PromptOutcome)
      (perm : Permission) (why : Text)
      → (prompt_pending (answer_prompt moment s app category outcome).state.tracker app category
          ≡ false)
        × ((answer_prompt moment s app category (chosen perm)).state.config
            ≡ unwrap_or (set_rule s.config app category perm) s.config)
        × ((answer_prompt moment s app category dismissed).state.config ≡ s.config)
        × ((answer_prompt moment s app category (prompt_failed why)).state.config ≡ s.config)
  unfolding answer_prompt decide_outcome
  answer_prompt_lem s app category outcome perm why = (
    let acted = act_on_answer moment s app category (decide_outcome outcome) in
        (prompt_lem acted.state.tracker app app category category).2
        ∙ ground (arith, ==_refl (session_key app category)),
    config-act s app category (chosen perm),
    config-act s app category dismissed,
    config-act s app category (prompt_failed why),
  )
