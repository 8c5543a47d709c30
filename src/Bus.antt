-- ===== src/Bus.antt =====
-- hwprivacy-daemon/src/dbus_service.rs: the methods by which the interfaces change the daemon. A call
-- is answered, and leaves the state, what the file of the configuration holds, and effects in order.
-- A message is a value that has what the text of the message names. Whether a path is a file, and
-- whether the file of the configuration can be written, are parameters.
pub mod Queries
pub mod Cases
pub mod Laws
pub mod Refinement
pub mod Promises
use hwprivacy.Common.{
  ℕ, Bool, true, false, not, ◌&&◌, Option, none, some, List, [], ◌∷◌, ◌==◌, nat_eq, list_eq,
  if◌then◌else◌, find, any, is_empty, map, ltb,
}
use hwprivacy.Common.Options.{map_some}
use hwprivacy.Common.Text.{Text, codes}
use hwprivacy.Config.{Permission, parse_permission, Config}
use hwprivacy.Config.Kernel.{CameraGap, kernel_camera_gaps}
use hwprivacy.Config.Rules.{ExeError, set_rule, set_rule_exe, remove_rule}
use hwprivacy.Config.Rules
use hwprivacy.Daemon.{DaemonState}
use hwprivacy.Device.{DeviceCategory, microphone, camera, monitor}
use hwprivacy.Identity.{Identities}
use hwprivacy.Names.{Lowercase, normalize_app_name}
use hwprivacy.Preset.{Preset, ImportPlan, is_added, plan, apply_preset, has_rule}
use hwprivacy.RuleMerge.{MergeChoices, MergeError, Line, merge_rules}
use hwprivacy.RuleMerge
use hwprivacy.RuleMerge.Splits.{RuleSplit, find_rule_splits}

-- `FromStr for DeviceCategory`
unfoldable pub parse_category : ⦃lc : Lowercase⦄ → Text → Option DeviceCategory
parse_category ⦃lc⦄ s =
    let lower = lc.to_lowercase s in
    if lower == codes "microphone"
    then some microphone
    else if lower == codes "mic"
    then some microphone
    else if lower == codes "camera"
    then some camera
    else if lower == codes "cam"
    then some camera
    else if lower == codes "monitor"
    then some monitor
    else if lower == codes "mon"
    then some monitor
    else none

pub data BusEffect : Type 0 where
  -- `policy_dirty.notify_waiters`
  policy_changed : BusEffect
  -- the signal
  rule_changed : Text → Text → Text → BusEffect
  notify_kernel_gap : Text → CameraGap → BusEffect

pub record Called (A : Type 0) : Type 0 where
  pub answer : A
  pub state : DaemonState
  pub saved : Config
  pub effects : List BusEffect

pub data Message : Type 0 where
  exe_refused : ExeError → Message
  saved_nothing : Message
  exe_cleared : Text → Message
  exe_named : Text → Text → Message
  not_usable : Text → Message
  camera_granted : Text → Text → Message
  not_a_permission : Text → DeviceCategory → Message
  other_way_round : RuleSplit → Message
  merge_refused : MergeError → Message
  -- the report, and whether the two rules have been seen as one program
  merge_report : List Line → Bool → Message

abbrev pub Answer : Type 0
Answer = Bool × Message

-- A call that changes nothing.
abbrev pub no_change : {A : Type 0} → DaemonState → Config → A → Called A
no_change s saved answer = record { answer = answer; state = s; saved = saved; effects = [] }

abbrev pub with_config : DaemonState → Config → DaemonState
with_config s config = record s { config = config }

-- The choices, or the text that is not a permission, with its category.
pub data Choices : Type 0 where
  chosen : MergeChoices → Choices
  unreadable : Text → DeviceCategory → Choices

module _ ⦃lc : Lowercase⦄ where
  abbrev pub same_app : Text → Text → Bool
  same_app app_name app = normalize_app_name app == normalize_app_name app_name

  -- What `set_rule` says of a rule that the kernel layer cannot follow.
  abbrev pub gap_notice : Config → Text → List BusEffect
  gap_notice config app_name =
      elim (find (λ (app, _). same_app app_name app) (kernel_camera_gaps config)) [
        | none ↦ []
        | some (app, why) ↦ notify_kernel_gap app why ∷ []
      ]

  -- An empty text leaves a category as it is; `none` stands for the error.
  abbrev pub parse_choice : Text → Option (Option Permission)
  parse_choice text =
      if is_empty text then some none else map_some (parse_permission text) (λ perm. some perm)

  unfoldable pub parse_choices : Text → Text → Text → Choices
  parse_choices mic cam mon = elim (parse_choice mic) [
    | none ↦ unreadable mic microphone
    | some m ↦ elim (parse_choice cam) [
      | none ↦ unreadable cam camera
      | some c ↦ elim (parse_choice mon) [
        | none ↦ unreadable mon monitor
        | some o ↦ chosen (record { microphone = m; camera = c; monitor = o })
      ]
    ]
  ]

  abbrev pub splits_rules : Text → Text → RuleSplit → Bool
  splits_rules name_rule exe_rule ((name, exe), _) =
      same_app name_rule name && same_app exe_rule exe

module _ ⦃lc : Lowercase⦄ (path_exists : Text → Bool) (can_write : Bool) where
  -- `config.save`
  abbrev pub config_written : Config → Config → Config
  config_written saved config = if can_write then config else saved

  unfoldable pub set_rule_call : DaemonState → Config → Text → Text → Text → Called Bool
  set_rule_call s saved app_name device permission = elim (parse_category device) [
    | none ↦ no_change s saved false
    | some category ↦ elim (parse_permission permission) [
      | none ↦ no_change s saved false
      | some perm ↦ elim (set_rule s.config app_name category perm) [
        | none ↦ no_change s saved false
        | some config ↦ record {
          answer = true;
          state = with_config s config;
          saved = config_written saved config;
          effects =
              policy_changed ∷ rule_changed app_name device permission ∷ gap_notice config app_name;
        }
      ]
    ]
  ]

  -- The end of `set_rule_exe` and of `allow_camera`: a failed write is answered, and nobody is told.
  abbrev pub save_or_tell : DaemonState → Config → Config → BusEffect → Message → Called Answer
  save_or_tell s saved config signal message =
      if can_write
      then record {
        answer = (true, message);
        state = with_config s config;
        saved = config;
        effects = policy_changed ∷ signal ∷ [];
      }
      else no_change (with_config s config) saved (false, saved_nothing)

  unfoldable pub set_rule_exe_call : DaemonState → Config → Text → Text → Called Answer
  set_rule_exe_call s saved app_name exe_path =
      elim (set_rule_exe path_exists s.config app_name exe_path) [
        | Rules.failed why ↦ no_change s saved (false, exe_refused why)
        | Rules.done config ↦
            save_or_tell s saved config (rule_changed app_name (codes "exe_path") exe_path)
              (if is_empty exe_path then exe_cleared app_name else exe_named app_name exe_path)
      ]

  unfoldable pub allow_camera_call : DaemonState → Config → Text → Text → Called Answer
  allow_camera_call s saved app_name exe_path =
      elim (set_rule s.config app_name camera Permission.allow) [
        | none ↦ no_change s saved (false, not_usable app_name)
        | some granted ↦ elim (set_rule_exe path_exists granted app_name exe_path) [
          | Rules.failed why ↦
              no_change (with_config s (remove_rule granted app_name).0) saved
                (false, exe_refused why)
          | Rules.done config ↦
              save_or_tell s saved config (rule_changed app_name (codes "camera") (codes "allow"))
                (camera_granted app_name exe_path)
        ]
      ]

  unfoldable pub remove_rule_call : DaemonState → Config → Text → Called Bool
  remove_rule_call s saved app_name =
      let (config, removed) = remove_rule s.config app_name in
      if removed
      then record {
        answer = true;
        state = with_config s config;
        saved = config_written saved config;
        effects = policy_changed ∷ rule_changed app_name (codes "*") (codes "removed") ∷ [];
      }
      else no_change (with_config s config) saved false

  -- The merge, once the rules are the right way round.
  abbrev pub merge_into :
      DaemonState → Config → Text → Text → MergeChoices → Bool → Bool → Called Answer
  merge_into s saved from into choices seen_as_one apply =
      elim (merge_rules s.config from into choices) [
        | RuleMerge.failed why ↦ no_change s saved (false, merge_refused why)
        | RuleMerge.merged after report ↦
            if not apply
            then no_change s saved (true, merge_report report seen_as_one)
            else if can_write
            then record {
              answer = (true, merge_report report seen_as_one);
              state = with_config s after;
              saved = after;
              effects = policy_changed ∷ rule_changed into (codes "all") (codes "merged") ∷ [];
            }
            else no_change s saved (false, saved_nothing)
      ]

  unfoldable pub merge_rules_call :
      DaemonState → Config → Text → Text → Text → Text → Text → Bool → Called Answer
  unfolding parse_choices
  merge_rules_call s saved from into mic cam mon apply = elim (parse_choices mic cam mon) [
    | unreadable text category ↦ no_change s saved (false, not_a_permission text category)
    | chosen choices ↦
        let splits = find_rule_splits s.config s.identities.pairs in
        elim (find (splits_rules from into) splits) [
          | some split ↦ no_change s saved (false, other_way_round split)
          | none ↦ merge_into s saved from into choices (any (splits_rules into from) splits) apply
        ]
  ]

  -- A line for each entry of the plan: the name, and whether it is added. `none` stands for a preset
  -- that does not load.
  unfoldable pub import_preset_call :
      DaemonState → Config → Text → Option Preset → Bool → Called (List (Text × Bool))
  import_preset_call s saved name none apply = no_change s saved ((name, false) ∷ [])
  import_preset_call s saved name (some preset) apply =
      let planned = plan path_exists (has_rule s.config) preset in
      let report = map (λ (app, outcome, _). (app, is_added outcome)) planned.entries in
      let (config, added) = apply_preset s.config planned in
      if not apply
      then no_change s saved report
      else if ltb 0 added
      then record {
        answer = report;
        state = with_config s config;
        saved = config_written saved config;
        effects = rule_changed name (codes "*") (codes "preset-imported") ∷ [];
      }
      else no_change (with_config s config) saved report

-- `block_all` and `unblock_all`
abbrev pub block_all_call : DaemonState → Config → Called Bool
block_all_call s saved = no_change (record s { block_all = true }) saved true

abbrev pub unblock_all_call : DaemonState → Config → Called Bool
unblock_all_call s saved = no_change (record s { block_all = false }) saved true
