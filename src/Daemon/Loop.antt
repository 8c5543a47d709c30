-- ===== src/Daemon/Loop.antt =====
-- hwprivacy-daemon/src/main.rs: `monitoring_loop`, for one update of the graph, and the task that
-- waits for the answer to a prompt.
use hwprivacy.Common.{
  ℕ, ◌*◌, not, Option, none, some, List, [], ◌∷◌, Map, insert, map, retain, contains, ◌==◌, nat_eq,
  list_eq, if◌then◌else◌, is_empty, length, ◌+◌, ◌%◌, ◌^◌,
}
use hwprivacy.Common.Text.{Text}
use hwprivacy.Config.{Config, Permission, permission_eq, while_in_use}
use hwprivacy.Config.Rules.{set_rule}
use hwprivacy.Daemon.{
  DaemonState, Moment, Effect, notify_rule_split, notify_could_not_stop, policy_dirty, save_config,
  TaskResult, behind,
}
use hwprivacy.Daemon.Enforce.{Pause, before_observe, before_clean_up, handle_groups}
use hwprivacy.Daemon.Groups.{group_links}
use hwprivacy.Device.{DeviceCategory}
use hwprivacy.Graph.Splitter.{GraphUpdate}
use hwprivacy.Identity.{observe, take_unannounced, save_identities}
use hwprivacy.LinkAudit.{Pending, LinkKey, Run, forget, reconcile}
use hwprivacy.Names.{Lowercase}
use hwprivacy.PolicyEngine.{LinkMatch}
use hwprivacy.Prompt.{
  PromptOutcome, PromptAction, save_permanent_rule, save_nothing_and_cooldown, decide_outcome,
}
use hwprivacy.RuleMerge.Splits.{RuleSplit, find_rule_splits}
use hwprivacy.Stream.{session_ended}
use hwprivacy.StreamTracker.{
  StreamTracker, SessionKey, remove_connection, expire_sessions, log_event, begin_session,
  end_prompt, record_dismiss,
}

-- The links that the ledger hands out, by id, and what each was matched to.
abbrev pub keys_of : List Pending → Map ℕ LinkKey → Map ℕ LinkKey
keys_of [] keys = keys
keys_of (p ∷ pending) keys = keys_of pending (insert p.key.0 p.key keys)

abbrev pub match_of : Pending → ℕ × LinkMatch
match_of p = (p.key.0, p.link_match)

abbrev pub remove_connections : StreamTracker → List ℕ → StreamTracker
remove_connections tracker [] = tracker
remove_connections tracker (id ∷ ids) = remove_connections (remove_connection tracker id) ids

-- The connections whose link is gone.
abbrev pub stale_ids : StreamTracker → List ℕ → List ℕ
stale_ids tracker link_ids =
    retain (λ id. not (contains link_ids id)) (map (λ (id, _). id) tracker.active)

module _ (moment : Moment) where
  -- The `for` loop over the sessions that ended.
  unfoldable pub log_ended : StreamTracker → List SessionKey → StreamTracker
  log_ended tracker [] = tracker
  log_ended tracker ((app, category) ∷ ended) =
      log_ended (log_event tracker moment.stamp app 0 category [] session_ended) ended

abbrev pub dirty_each : List SessionKey → List Effect
dirty_each [] = []
dirty_each (key ∷ ended) = policy_dirty ∷ dirty_each ended

-- What `spawn_denial_check` does about the links that outlive the retry, on a `u64`.
unfoldable pub count_survivors : DaemonState → List LinkKey → Text → DeviceCategory → TaskResult
count_survivors s survivors app category =
    let ledger = s.link_ledger in
    let counts = ledger.counts in
    if is_empty survivors then record { state = s; effects = [] } else record {
      state = record s {
        link_ledger = record ledger {
          counts = record counts {
            denied_alive = (counts.denied_alive + length survivors) % 2 ^ 64;
          };
        };
      };
      effects = notify_could_not_stop app category ∷ [];
    }

abbrev pub split_notices : List RuleSplit → List Effect
split_notices [] = []
split_notices (split ∷ splits) = notify_rule_split split ∷ split_notices splits

-- What the ledger makes of an update. A seed forgets the links that were decided.
unfoldable pub reconcile_update : DaemonState → GraphUpdate → Run
reconcile_update s update =
    reconcile (if update.seed then forget s.link_ledger else s.link_ledger) update.snapshot
      update.new_link_ids s.devices

-- A rule as the answer says, if the name can be that of one.
abbrev pub save_rule : DaemonState → Option Config → TaskResult
save_rule s none = record { state = s; effects = [] }
save_rule s (some config) = record {
  state = record s { config = config };
  effects = save_config ∷ [];
}

module _ ⦃lc : Lowercase⦄ (moment : Moment) where
  -- The sessions and the connections whose links are gone.
  unfoldable pub clean_up : DaemonState → List ℕ → TaskResult
  unfolding log_ended
  clean_up s link_ids =
      let policy = s.config.policy in
      let pruned = remove_connections s.tracker (stale_ids s.tracker link_ids) in
      let (tracker, ended) =
        expire_sessions pruned moment.now (policy.while_in_use_settle_secs * 1_000_000_000)
          (policy.awaiting_open_secs * 1_000_000_000) in
      record {
        state = record s { tracker = log_ended moment tracker ended };
        effects = dirty_each ended;
      }

  -- The rules that look like one program are announced.
  unfoldable pub observe_update : (ℕ → Option Text) → DaemonState → GraphUpdate → TaskResult
  observe_update read_exe s update =
      let seen = observe read_exe s.identities update.snapshot.nodes s.config in
      let (fresh, ids) = take_unannounced seen (find_rule_splits s.config seen.pairs) in
      record {
        state = record s { identities = save_identities moment.can_write ids };
        effects = split_notices fresh;
      }

  -- `while let Some(update) = rx.recv().await`, one round.
  unfoldable pub handle_update :
      (Pause → DaemonState → DaemonState)
      → (ℕ → Option Text)
      → DaemonState
      → GraphUpdate
      → TaskResult
  unfolding reconcile_update observe_update clean_up
  handle_update others read_exe s update =
      let run = reconcile_update s update in
      let reconciled : DaemonState = record s {
        known_link_ids = update.link_ids;
        link_ledger = run.ledger;
      } in
      let observed = observe_update read_exe (others before_observe reconciled) update in
      let handled =
        handle_groups moment others observed.state (keys_of run.out.pending [])
          (group_links (map match_of run.out.pending)) in
      behind observed.effects
        (behind handled.effects (clean_up (others before_clean_up handled.state) update.link_ids))

  -- `PromptAction::SavePermanentRule`: the session of a `while_in_use` answer opens now.
  abbrev pub save_answer : DaemonState → Text → DeviceCategory → Permission → TaskResult
  save_answer s app category perm =
      if perm == while_in_use
      then behind (policy_dirty ∷ []) (
          save_rule (record s { tracker = begin_session s.tracker moment.now app category })
            (set_rule s.config app category perm))
      else save_rule s (set_rule s.config app category perm)

  abbrev pub act_on_answer : DaemonState → Text → DeviceCategory → PromptAction → TaskResult
  act_on_answer s app category (save_permanent_rule perm) = save_answer s app category perm
  act_on_answer s app category save_nothing_and_cooldown = record {
    state = record s { tracker = record_dismiss s.tracker moment.now app category };
    effects = [];
  }

  -- The prompt is let go on every path.
  abbrev pub let_go : Text → DeviceCategory → TaskResult → TaskResult
  let_go app category o = record o {
    state = record o.state { tracker = end_prompt o.state.tracker app category };
  }

  -- The spawned task, when the answer is there.
  unfoldable pub answer_prompt : DaemonState → Text → DeviceCategory → PromptOutcome → TaskResult
  unfolding decide_outcome
  answer_prompt s app category outcome =
      let_go app category (act_on_answer s app category (decide_outcome outcome))
