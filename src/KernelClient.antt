-- ===== src/KernelClient.antt =====
-- hwprivacy-daemon/src/lsm_client.rs: what the daemon does with an event of the kernel layer. The
-- state is free between some of the steps, where `others` is what other tasks do to it; the instants
-- of one event are taken as one.
pub mod Counting
pub mod Policy
pub mod PolicyLaws
pub mod Session
pub mod Pushing
pub mod Answering
pub mod Reported
use hwprivacy.Common.{
  ℕ, ◌+◌, ◌-◌, ◌%◌, ◌^◌, Bool, true, false, not, ◌&&◌, Option, none, some, List, [], ◌∷◌, ◌++◌, Map,
  get, remove, contains_key, ◌==◌, nat_eq, list_eq, pair_eq, option_eq, if◌then◌else◌,
}
use hwprivacy.Common.Options.{unwrap_or, map_some, is_some}
use hwprivacy.Common.Text.{Text, codes}
use hwprivacy.Config.{Config, Permission, permission_eq, AppRule}
use hwprivacy.Config.Rules.{
  find_rule, find_rule_by_exe, set_rule, set_rule_exe, ExeResult, done, failed,
}
use hwprivacy.Daemon.{
  DaemonState, Moment, Effect, notify_allowed, notify_kernel_denial, ask_kernel_camera,
  policy_dirty, save_config, TaskResult, behind, uptime, save_history, source_kernel, category_key,
}
use hwprivacy.Device.{DeviceCategory, camera, microphone, category_eq}
use hwprivacy.History.{HistoryKey, record_denied, record_allowed}
use hwprivacy.Names.{Lowercase, normalize_app_name, short_name}
use hwprivacy.NotifyAllow.{AllowedAccess, should_notify, mark_notified}
use hwprivacy.Prompt.{
  PromptOutcome, PromptAction, save_permanent_rule, save_nothing_and_cooldown, decide_outcome,
}
use hwprivacy.Proto.{KernelEvent}
use hwprivacy.Stream.{AccessAction, allowed, denied, session_ended}
use hwprivacy.StreamTracker.{
  StreamTracker, log_event, try_begin_prompt, end_prompt, record_dismiss, SessionKey, session_key,
}

-- `denied_opens` and `allowed_opens`, on `u32`
unfoldable pub denied_opens : KernelEvent → ℕ
denied_opens ev =
    if not ev.denied
    then 0
    else if ev.pid == 0
    then ev.additional_opens
    else (1 + ev.additional_opens) % 2 ^ 32

unfoldable pub allowed_opens : KernelEvent → ℕ
allowed_opens ev =
    if ev.denied
    then 0
    else if ev.pid == 0
    then ev.additional_opens
    else (1 + ev.additional_opens) % 2 ^ 32

-- The `match` on the role: playback and mixer controls are no privacy events.
unfoldable pub category_of_role : Text → Option DeviceCategory
category_of_role role =
    if role == codes "CAMERA"
    then some camera
    else if role == codes "MIC"
    then some microphone
    else none

unfoldable pub rule_key_for : Config → Text → Text → Text
rule_key_for config exe_path exe_short =
    unwrap_or (map_some (find_rule_by_exe config exe_path) (λ (r : AppRule). r.app_name)) exe_short

unfoldable pub session_key_for_release : Config → Text → Text → Text
unfolding rule_key_for
session_key_for_release config exe_path exe_short = rule_key_for config exe_path exe_short

unfoldable pub display_label : Config → Text → Text → Text
display_label config exe_path exe_short =
    let owner = rule_key_for config exe_path exe_short in
    if owner == exe_short then exe_short else owner ++ codes " (" ++ exe_short ++ codes ")"

-- `blocked_count += n - already` on `u32`
abbrev pub add_blocked : StreamTracker → ℕ → ℕ → StreamTracker
add_blocked tracker n already = record tracker {
  blocked_count = (tracker.blocked_count + (n + 2 ^ 32 - already) % 2 ^ 32) % 2 ^ 32;
}

-- Where the state is free: before an allowed access is announced, before the rules are looked at,
-- and before a prompt is claimed.
pub data KernelPause : Type 0 where
  before_announce before_lookup before_prompt : KernelPause

module _ ⦃lc : Lowercase⦄ where
  -- Only an explicit `deny` counts.
  unfoldable pub camera_already_denied_by_rule : Config → Text → Text → Bool
  camera_already_denied_by_rule config exe_path exe_short =
      elim (find_rule config (rule_key_for config exe_path exe_short)) [
        | none ↦ false
        | some rule ↦ rule.camera == some Permission.deny
      ]

  abbrev pub kernel_key : Text → DeviceCategory → HistoryKey
  kernel_key exe_path category = ((exe_path, category_key category), source_kernel)

  module _ (moment : Moment) where
    -- `record_denied` and `record_allowed`, which save the table
    abbrev pub count_denied : DaemonState → KernelEvent → DeviceCategory → DaemonState
    count_denied s ev category = record s {
      history = save_history moment.can_write (
          record_denied s.history (kernel_key ev.exe_path category) (denied_opens ev) moment.stamp);
    }

    abbrev pub count_allowed : DaemonState → KernelEvent → DeviceCategory → DaemonState
    count_allowed s ev category = record s {
      history = save_history moment.can_write (
          record_allowed s.history (kernel_key ev.exe_path category) (allowed_opens ev)
            moment.stamp);
    }

    -- The end of an access: the session of the rule that owns the executable ends, if there is one.
    unfoldable pub handle_release : DaemonState → KernelEvent → DeviceCategory → TaskResult
    unfolding session_key_for_release
    handle_release s ev category =
        let key = session_key_for_release s.config ev.exe_path (short_name ev.exe_path) in
        let sessions = remove (session_key key category) s.tracker.while_in_use in
        if contains_key s.tracker.while_in_use (session_key key category)
        then record {
          state = record s {
            tracker =
                log_event (record s.tracker { while_in_use = sessions }) moment.stamp key ev.pid
                  category ev.exe_path session_ended;
          };
          effects = policy_dirty ∷ [];
        }
        else record {
          state = record s { tracker = record s.tracker { while_in_use = sessions } };
          effects = [];
        }

    -- A summary of a burst: it adds its count, and nothing else.
    unfoldable pub handle_summary : DaemonState → KernelEvent → DeviceCategory → DaemonState
    handle_summary s ev category =
        if ev.denied
        then count_denied (record s { tracker = add_blocked s.tracker (denied_opens ev) 0 }) ev
            category
        else count_allowed s ev category

    -- The access is logged. `log_event` has added one for a denial already.
    unfoldable pub log_access : DaemonState → KernelEvent → DeviceCategory → DaemonState
    log_access s ev category =
        let logged =
          log_event s.tracker moment.stamp (short_name ev.exe_path) ev.pid category ev.exe_path
            (if ev.denied then denied else allowed) in
        let counted : DaemonState = record s {
          tracker = add_blocked logged (denied_opens ev) (if ev.denied then 1 else 0);
        } in
        if ev.denied then count_denied counted ev category else counted

    abbrev pub announce_kernel : DaemonState → AllowedAccess → TaskResult
    announce_kernel s access =
        if should_notify s.allow_notifier access (uptime s moment) moment.now s.config.policy
        then record {
          state = record s { allow_notifier = mark_notified s.allow_notifier access moment.now };
          effects = notify_allowed access.app access.pid access.device ∷ [];
        }
        else record { state = s; effects = [] }

    -- Only a camera is announced, and counted.
    unfoldable pub notify_allowed_kernel : DaemonState → KernelEvent → DeviceCategory → TaskResult
    notify_allowed_kernel s ev category =
        if category == camera
        then announce_kernel (count_allowed s ev category)
            (record { app = short_name ev.exe_path; device = category; pid = ev.pid })
        else record { state = s; effects = [] }

    -- `prompt_kernel_camera_denial`, up to the task that it spawns.
    unfoldable pub prompt_kernel_camera_denial : DaemonState → KernelEvent → TaskResult
    prompt_kernel_camera_denial s ev =
        let app = short_name ev.exe_path in
        let (tracker, begun) = try_begin_prompt s.tracker app camera in
        record {
          state = record s { tracker = tracker };
          effects = if begun then ask_kernel_camera app ev.exe_path ev.pid ev.device ∷ [] else [];
        }

    abbrev pub denial_notice : DaemonState → KernelEvent → DeviceCategory → Bool → Effect
    denial_notice s ev category by_rule =
        notify_kernel_denial (display_label s.config ev.exe_path (short_name ev.exe_path)) ev.pid
          category ev.device by_rule

    module _ (others : KernelPause → DaemonState → DaemonState) where
      -- A denied camera is asked about, unless its rule denies it; anything else is announced.
      unfoldable pub handle_denial : DaemonState → KernelEvent → DeviceCategory → TaskResult
      unfolding prompt_kernel_camera_denial
      handle_denial s ev category =
          let looked = others before_lookup s in
          if not (category == camera)
          then record { state = s; effects = denial_notice s ev category false ∷ [] }
          else if camera_already_denied_by_rule looked.config ev.exe_path (short_name ev.exe_path)
          then record { state = looked; effects = denial_notice s ev category true ∷ [] }
          else prompt_kernel_camera_denial (others before_prompt looked) ev

      abbrev pub handle_access : DaemonState → KernelEvent → DeviceCategory → TaskResult
      handle_access s ev category =
          let logged = others before_announce (log_access s ev category) in
          if ev.denied
          then handle_denial logged ev category
          else notify_allowed_kernel logged ev category

      abbrev pub handle_known : DaemonState → KernelEvent → DeviceCategory → TaskResult
      handle_known s ev category =
          if ev.released
          then handle_release s ev category
          else if ev.pid == 0
          then record { state = handle_summary s ev category; effects = [] }
          else handle_access s ev category

      abbrev pub handle_role : DaemonState → KernelEvent → Option DeviceCategory → TaskResult
      handle_role s ev none = record { state = s; effects = [] }
      handle_role s ev (some category) = handle_known s ev category

      unfoldable pub handle_event : DaemonState → KernelEvent → TaskResult
      unfolding handle_release handle_summary log_access notify_allowed_kernel handle_denial
      handle_event s ev = handle_role s ev (category_of_role ev.role)

    -- The answer to the prompt. The rule that owns the executable is the one written, or a new one.
    abbrev pub set_camera_rule : DaemonState → Config → Text → Permission → TaskResult
    set_camera_rule s config target perm = elim (set_rule config target camera perm) [
      | none ↦ record { state = record s { config = config }; effects = [] }
      | some config' ↦ record {
        state = record s { config = config' };
        effects = save_config ∷ policy_dirty ∷ [];
      }
    ]

    abbrev pub attach_and_set :
        (Text → Bool) → DaemonState → Config → Text → Text → Permission → TaskResult
    attach_and_set path_exists s config target exe_path perm =
        elim (set_rule_exe path_exists config target exe_path) [
          | failed e ↦ record { state = record s { config = config }; effects = [] }
          | done config' ↦ set_camera_rule s config' target perm
        ]

    -- A rule that is not there is made, as a denial first.
    abbrev pub rule_made : Config → Text → Option Config
    rule_made config target = elim (find_rule config target) [
      | some rule ↦ some config
      | none ↦ set_rule config target camera Permission.deny
    ]

    unfoldable pub answer_kernel_prompt :
        (Text → Bool) → DaemonState → Text → Text → PromptOutcome → TaskResult
    unfolding decide_outcome
    answer_kernel_prompt path_exists s exe_short exe_path outcome =
        let free : DaemonState = record s { tracker = end_prompt s.tracker exe_short camera } in
        let target = rule_key_for s.config exe_path exe_short in
        elim (decide_outcome outcome) [
          | save_permanent_rule perm ↦ elim (rule_made s.config target) [
            | none ↦ record { state = free; effects = [] }
            | some config ↦ attach_and_set path_exists free config target exe_path perm
          ]
          | save_nothing_and_cooldown ↦ record {
            state = record free { tracker = record_dismiss free.tracker moment.now target camera };
            effects = [];
          }
        ]
