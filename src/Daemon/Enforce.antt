-- ===== src/Daemon/Enforce.antt =====
-- hwprivacy-daemon/src/main.rs: what `monitoring_loop` does with one group of links. The task gives
-- the state free at several places, where others change it: `others` is what they do meanwhile. The
-- instants of one group are taken as one, and the lines of the journal are not modelled.
use hwprivacy.Common.{
  ℕ, ◌*◌, not, List, [], ◌∷◌, ◌++◌, Map, get, ◌==◌, nat_eq, if◌then◌else◌, filter_map,
}
use hwprivacy.Common.Text.{Text}
use hwprivacy.Config.{Permission, permission_eq, is_guarded}
use hwprivacy.Config.Rules.{get_permission}
use hwprivacy.Daemon.{
  DaemonState, Moment, Effect, destroy_links, check_denial, notify_blocked, notify_allowed,
  ask_user, TaskResult, behind, uptime, log_denied, log_allowed,
}
use hwprivacy.Daemon.Groups.{LinkGroup}
use hwprivacy.Device.{DeviceCategory}
use hwprivacy.LinkAudit.{LinkKey}
use hwprivacy.Names.{Lowercase}
use hwprivacy.NotifyAllow.{AllowedAccess, should_notify, mark_notified}
use hwprivacy.PolicyEngine.{PolicyDecision, allow, deny, evaluate}
use hwprivacy.Stream.{StreamInfo, asked_user}
use hwprivacy.StreamTracker.{
  StreamTracker, add_connection, is_in_cooldown, try_begin_prompt, mark_session_opened,
  refresh_session, session_live, log_event,
}

-- Where the state is free: before the streams are observed, before a group is decided, between the
-- decision and what it leads to, before the cooldown is looked up, before the prompt is claimed,
-- before the access is logged, and before the end of an update.
pub data Pause : Type 0 where
  before_observe before_group before_allow before_cooldown before_claim before_log : Pause
  before_clean_up : Pause

abbrev pub link_keys : Map ℕ LinkKey → List ℕ → List LinkKey
link_keys keys link_ids = filter_map (λ id. get keys id) link_ids

-- The links go, and that they went is checked.
abbrev pub teardown : Map ℕ LinkKey → LinkGroup → List Effect
teardown keys g =
    destroy_links g.link_ids
    ∷ check_denial (link_keys keys g.link_ids) g.m.stream.app_name g.m.device.category
    ∷ []

abbrev pub add_connections :
    StreamTracker → List ℕ → StreamInfo → Text → DeviceCategory → Permission → StreamTracker
add_connections tracker [] stream node category perm = tracker
add_connections tracker (id ∷ link_ids) stream node category perm =
    add_connections (add_connection tracker id stream node category perm) link_ids stream node
      category perm

-- The settle time as `session_live` compares it, in nanoseconds.
abbrev pub settle_of : DaemonState → ℕ
settle_of s = s.config.policy.while_in_use_settle_secs * 1_000_000_000

abbrev pub blocked_notice : LinkGroup → Effect
blocked_notice g =
    notify_blocked g.m.stream.app_name g.m.stream.pid g.m.device.category g.m.stream.node_name

module _ ⦃lc : Lowercase⦄ (moment : Moment) where
  abbrev pub decision_of : DaemonState → LinkGroup → PolicyDecision
  decision_of s g =
      evaluate s.config g.m.stream g.m.device
        (session_live s.tracker moment.now g.m.stream.app_name g.m.device.category (settle_of s))

  abbrev pub deny_log : DaemonState → LinkGroup → DaemonState
  deny_log s g =
      log_denied s moment g.m.stream.app_name g.m.stream.pid g.m.device.category
        g.m.stream.node_name

  -- The session of a `while_in_use` rule is in use.
  abbrev pub use_session : StreamTracker → Permission → LinkGroup → StreamTracker
  use_session tracker perm g =
      let app = g.m.stream.app_name in
      let category = g.m.device.category in
      if perm == Permission.while_in_use
      then refresh_session (mark_session_opened tracker moment.now app category).0 moment.now app
          category
      else tracker

  abbrev pub announce_allowed : DaemonState → AllowedAccess → TaskResult
  announce_allowed s access =
      if should_notify s.allow_notifier access (uptime s moment) moment.now s.config.policy
      then record {
        state = record s { allow_notifier = mark_notified s.allow_notifier access moment.now };
        effects = notify_allowed access.app access.pid access.device ∷ [];
      }
      else record { state = s; effects = [] }

  -- `PolicyDecision::Allow`
  unfoldable pub allow_group : DaemonState → LinkGroup → TaskResult
  allow_group s g =
      let stream = g.m.stream in
      let device = g.m.device in
      let perm = get_permission s.config stream.app_name device.category in
      let tracked =
        add_connections s.tracker g.link_ids stream device.node_name device.category perm in
      let logged =
        log_allowed (record s { tracker = use_session tracked perm g }) moment stream.app_name
          stream.pid device.category stream.node_name in
      announce_allowed logged
        (record { app = stream.app_name; device = device.category; pid = stream.pid })

  module _ (others : Pause → DaemonState → DaemonState) where
    -- A prompt for the pair may be on the screen already: then the links are blocked and it stays
    -- quiet.
    unfoldable pub claim_prompt : DaemonState → LinkGroup → TaskResult
    claim_prompt s g =
        let stream = g.m.stream in
        let category = g.m.device.category in
        let (tracker, begun) = try_begin_prompt s.tracker stream.app_name category in
        let free = others before_log (record s { tracker = tracker }) in
        if not begun then record { state = deny_log free g; effects = [] } else record {
          state = record free {
            tracker =
                log_event free.tracker moment.stamp stream.app_name stream.pid category
                  stream.node_name asked_user;
          };
          effects =
              blocked_notice g ∷ ask_user stream.app_name stream.pid category stream.node_name ∷ [];
        }

    -- `PolicyDecision::AskUser`, once the links are gone.
    unfoldable pub ask_group : DaemonState → LinkGroup → TaskResult
    unfolding claim_prompt
    ask_group s g =
        if is_in_cooldown s.tracker moment.now g.m.stream.app_name g.m.device.category
          s.config.policy.dismiss_cooldown_secs
        then record { state = deny_log (others before_log s) g; effects = [] }
        else claim_prompt (others before_claim s) g

    unfoldable pub handle_decision :
        PolicyDecision → DaemonState → Map ℕ LinkKey → LinkGroup → TaskResult
    unfolding allow_group ask_group
    handle_decision allow s keys g = allow_group (others before_allow s) g
    handle_decision deny s keys g = record {
      state = deny_log (others before_log s) g;
      effects = teardown keys g ++ blocked_notice g ∷ [];
    }
    handle_decision PolicyDecision.ask_user s keys g =
        behind (teardown keys g) (ask_group (others before_cooldown s) g)

    -- One round of the loop over the groups.
    unfoldable pub handle_group : DaemonState → Map ℕ LinkKey → LinkGroup → TaskResult
    unfolding handle_decision
    handle_group s keys g =
        if not (is_guarded s.config.devices g.m.device.category)
        then record { state = s; effects = [] }
        else if s.block_all
        then record { state = deny_log (others before_log s) g; effects = teardown keys g }
        else handle_decision (decision_of s g) s keys g

    unfoldable pub handle_groups : DaemonState → Map ℕ LinkKey → List LinkGroup → TaskResult
    unfolding handle_group
    handle_groups s keys [] = record { state = s; effects = [] }
    handle_groups s keys (g ∷ groups) =
        let o = handle_group (others before_group s) keys g in
        behind o.effects (handle_groups o.state keys groups)
