-- ===== src/Daemon/Sessions.antt =====
-- What an answer means for the next access, and what the end of an update does to connections and
-- sessions.
use hwprivacy.Common.{
  ℕ, ◌*◌, ◌≡◌, refl, ap, ◌∙◌, Bool, true, Option, none, some, List, arith, ◌==◌, ==→≡, ==_refl,
  nat_eq, list_eq, pair_eq, get, get-insert,
}
use hwprivacy.Common.Options.{unwrap_or}
use hwprivacy.Common.Text.{Text}
use hwprivacy.Config.{Config, Permission, permission_eq, while_in_use, is_guarded}
use hwprivacy.Config.Rules.{set_rule}
use hwprivacy.Daemon.{DaemonState, Moment}
use hwprivacy.Daemon.Asking.{config-answer_prompt}
use hwprivacy.Daemon.Enforce.{decision_of, settle_of}
use hwprivacy.Daemon.Groups.{LinkGroup}
use hwprivacy.Daemon.Loop.{remove_connections, stale_ids, answer_prompt, save_rule}
use hwprivacy.Device.{DeviceCategory, category_eq}
use hwprivacy.Names.{Lowercase, normalize_app_name, sanitize_rule_name}
use hwprivacy.PolicyEngine.{evaluate, decide}
use hwprivacy.PolicyEngine.Decide.{evaluate-set_rule}
use hwprivacy.Prompt.{chosen, decide_outcome}
use hwprivacy.StreamTracker.{
  StreamTracker, awaiting_first_open, begin_session, end_prompt, session_live, session_key,
}

module _ ⦃lc : Lowercase⦄ (moment : Moment) where
  session_live-awaiting :
      (tracker : StreamTracker) (app : Text) (category : DeviceCategory) (granted now settle : ℕ)
      → get tracker.while_in_use (session_key app category) ≡ some (awaiting_first_open granted)
      → session_live tracker now app category settle ≡ true
  unfolding session_live
  session_live-awaiting tracker app category granted now settle e = ground (arith, e)

  tracker-save_rule :
      (s : DaemonState) (config : Option Config) → (save_rule s config).state.tracker ≡ s.tracker
  tracker-save_rule s none = refl
  tracker-save_rule s (some config) = refl

  -- The session that an answer opens is live from then on, whatever the settle time is.
  session_live-answer :
      (s : DaemonState) (app : Text) (category : DeviceCategory) (now settle : ℕ)
      → session_live
          (answer_prompt moment s app category (chosen while_in_use)).state.tracker
          now
          app
          category
          settle
        ≡ true
  unfolding answer_prompt decide_outcome permission_eq begin_session end_prompt
  session_live-answer s app category now settle =
      let key = session_key app category in
      session_live-awaiting _ app category moment.now now settle (
        ap (λ (t : StreamTracker). get t.while_in_use key)
          (tracker-save_rule _ (set_rule s.config app category while_in_use))
        ∙ get-insert s.tracker.while_in_use key key (awaiting_first_open moment.now)
        ∙ ground (arith, ==_refl key))

  decide-live :
      (perm : Permission) (live : Bool)
      → ((perm == while_in_use) ≡ true → live ≡ true)
      → decide perm live ≡ decide perm true
  unfolding permission_eq
  decide-live Permission.allow live h = refl
  decide-live Permission.deny live h = refl
  decide-live Permission.ask live h = refl
  decide-live while_in_use live h = rw (h refl)

  -- A button is pressed for a name that is its own rule key, on a device that is guarded. Then the
  -- next access of that name to the device is decided by the permission that was pressed, at any
  -- later moment; `while_in_use` allows it.
  pub decision-answer_prompt :
      (later : Moment) (s : DaemonState) (g : LinkGroup) (perm : Permission) (config' : Config)
      → set_rule s.config g.m.stream.app_name g.m.device.category perm ≡ some config'
      → sanitize_rule_name g.m.stream.app_name ≡ some (normalize_app_name g.m.stream.app_name)
      → is_guarded config'.devices g.m.device.category ≡ true
      → decision_of later
          (answer_prompt moment s g.m.stream.app_name g.m.device.category (chosen perm)).state
          g
        ≡ decide perm true
  decision-answer_prompt later s g perm config' e named guarded =
      let app = g.m.stream.app_name in
      let category = g.m.device.category in
      let s' = (answer_prompt moment s app category (chosen perm)).state in
      let live = session_live s'.tracker later.now app category (settle_of s') in
      let saved : s'.config ≡ config' =
        (config-answer_prompt moment s app category (chosen perm))
        ∙ ap (λ o. unwrap_or o s.config) e in
      ap (λ config. evaluate config g.m.stream g.m.device live) saved
      ∙ evaluate-set_rule s.config config' app perm g.m.stream g.m.device live e named guarded
      ∙ decide-live perm live (λ w.
        ap
          (λ p.
            session_live (answer_prompt moment s app category (chosen p)).state.tracker later.now
              app category (settle_of s'))
          (==→≡ perm while_in_use w)
        ∙ session_live-answer s app category later.now (settle_of s'))

  -- The tracker without the connections whose link is gone.
  abbrev pub pruned : DaemonState → List ℕ → StreamTracker
  pruned s link_ids = remove_connections s.tracker (stale_ids s.tracker link_ids)

  abbrev settle_nanos : DaemonState → ℕ
  settle_nanos s = s.config.policy.while_in_use_settle_secs * 1_000_000_000

  abbrev awaiting_nanos : DaemonState → ℕ
  awaiting_nanos s = s.config.policy.awaiting_open_secs * 1_000_000_000
