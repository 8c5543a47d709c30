-- ===== src/Daemon.antt =====
-- hwprivacy-daemon/src/state.rs: the state that the tasks of the daemon share, and the two methods
-- that log an access. What a task does to the world is a list of effects, in order.
pub mod Groups
pub mod Enforce
pub mod Loop
pub mod Safety
pub mod BlockAll
pub mod Asking
pub mod Sessions
pub mod Grouped
use hwprivacy.Common.{
  ℕ, Bool, true, false, not, ◌&&◌, Option, none, List, [], ◌∷◌, ◌++◌, nat_eq, list_eq, pair_eq,
}
use hwprivacy.Common.Text.{Text, codes}
use hwprivacy.Config.{Config}
use hwprivacy.Device.{DeviceCategory, ProtectedDevice}
use hwprivacy.History.{History, HistoryKey, record_denied, record_allowed}
use hwprivacy.Identity.{Identities, no_identities}
use hwprivacy.LinkAudit.{LinkLedger, LinkKey, empty_ledger}
use hwprivacy.Names.{Lowercase, normalize_app_name}
use hwprivacy.NotifyAllow.{AllowNotifier}
use hwprivacy.RuleMerge.Splits.{RuleSplit}
use hwprivacy.Stream.{allowed, denied}
use hwprivacy.StreamTracker.{StreamTracker, new_tracker, log_event, category_debug, elapsed}

-- `KernelLayerState`
pub record KernelLayerState : Type 0 where
  pub connected : Bool
  pub enforcing_camera : Bool
  pub enforcing_audio : Bool
  pub allowed_exes : ℕ
  pub unresolved : List Text
  pub last_error : Option Text

abbrev pub no_kernel_layer : KernelLayerState
no_kernel_layer = record {
  connected = false;
  enforcing_camera = false;
  enforcing_audio = false;
  allowed_exes = 0;
  unresolved = [];
  last_error = none;
}

pub record DaemonState : Type 0 where
  pub config : Config
  pub devices : List ProtectedDevice
  pub tracker : StreamTracker
  pub known_link_ids : List ℕ
  pub link_ledger : LinkLedger
  pub identities : Identities
  pub block_all : Bool
  pub kernel : KernelLayerState
  pub history : History
  pub allow_notifier : AllowNotifier
  pub started_at : ℕ

-- `DaemonState::new`, for the history and the identities that were loaded and the present instant.
abbrev pub new_state : Config → Identities → History → ℕ → DaemonState
new_state config identities history now = record {
  config = config;
  devices = [];
  tracker = new_tracker;
  known_link_ids = [];
  link_ledger = empty_ledger;
  identities = identities;
  block_all = false;
  kernel = no_kernel_layer;
  history = history;
  allow_notifier = record { last = [] };
  started_at = now;
}

-- What the world gives to one step: the instant, the wall clock as it is logged, and whether the
-- files of the state can be written.
pub record Moment : Type 0 where
  pub now : ℕ
  pub stamp : Text
  pub can_write : Bool

-- What a task asks of the world.
pub data Effect : Type 0 where
  -- `destroy_links`, and `spawn_denial_check` after it
  destroy_links : List ℕ → Effect
  check_denial : List LinkKey → Text → DeviceCategory → Effect
  notify_blocked : Text → ℕ → DeviceCategory → Text → Effect
  notify_allowed : Text → ℕ → DeviceCategory → Effect
  notify_rule_split : RuleSplit → Effect
  notify_could_not_stop : Text → DeviceCategory → Effect
  -- a spawned task that asks the user
  ask_user : Text → ℕ → DeviceCategory → Text → Effect
  ask_kernel_camera : Text → Text → ℕ → Text → Effect
  notify_kernel_denial : Text → ℕ → DeviceCategory → Text → Bool → Effect
  -- `policy_dirty.notify_waiters`
  policy_dirty : Effect
  -- `config.save`
  save_config : Effect

-- A state and the effects so far.
pub record TaskResult : Type 0 where
  pub state : DaemonState
  pub effects : List Effect

-- The effects of a step behind those of the steps before it.
abbrev pub behind : List Effect → TaskResult → TaskResult
behind effects o = record o { effects = effects ++ o.effects }

abbrev pub uptime : DaemonState → Moment → ℕ
uptime s moment = elapsed moment.now s.started_at

-- `save_if_dirty` of the history
abbrev pub save_history : Bool → History → History
save_history can_write h = record h { dirty = h.dirty && not can_write }

-- `SOURCE_PIPEWIRE` and `SOURCE_KERNEL`
abbrev pub source_pipewire : Text
source_pipewire = codes "pipewire"

abbrev pub source_kernel : Text
source_kernel = codes "kernel"

module _ ⦃lc : Lowercase⦄ where
  -- `format!("{category:?}").to_lowercase()`
  abbrev pub category_key : DeviceCategory → Text
  category_key category = lc.to_lowercase (category_debug category)

  abbrev pub pipewire_key : Text → DeviceCategory → HistoryKey
  pipewire_key app_name category =
      ((normalize_app_name app_name, category_key category), source_pipewire)

  unfoldable pub log_denied : DaemonState → Moment → Text → ℕ → DeviceCategory → Text → DaemonState
  log_denied s moment app_name pid category node_name = record s {
    tracker = log_event s.tracker moment.stamp app_name pid category node_name denied;
    history =
        save_history moment.can_write
          (record_denied s.history (pipewire_key app_name category) 1 moment.stamp);
  }

  unfoldable pub log_allowed : DaemonState → Moment → Text → ℕ → DeviceCategory → Text → DaemonState
  log_allowed s moment app_name pid category node_name = record s {
    tracker = log_event s.tracker moment.stamp app_name pid category node_name allowed;
    history =
        save_history moment.can_write
          (record_allowed s.history (pipewire_key app_name category) 1 moment.stamp);
  }
