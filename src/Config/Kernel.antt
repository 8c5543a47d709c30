-- ===== src/Config/Kernel.antt =====
-- hwprivacy-common/src/config.rs: what the kernel layer is told. An allowlist pairs a path with
-- `Permission::Allow`, and the pairs here are kept as the source has them.
use hwprivacy.Common.{
  Bool, true, false, not, Option, none, some, List, [], ◌∷◌, Eq, ◌==◌, nat_eq, list_eq, option_eq,
  if◌then◌else◌, retain, filter_map, any, contains, is_empty,
}
use hwprivacy.Common.Text.{Text}
use hwprivacy.Names.{short_name, audio_server_names}
use hwprivacy.Config.{Permission, allow, while_in_use, ask, deny, permission_eq, AppRule, Config}

-- `dedup_by_path`: the first pair of each path stays. `seen` is the hash set of the paths so far.
unfoldable pub dedup_from : List Text → List (Text × Permission) → List (Text × Permission)
dedup_from seen [] = []
dedup_from seen ((p, perm) ∷ v) =
    let rest = dedup_from (p ∷ seen) v in
    let rest_seen = dedup_from seen v in if contains seen p then rest_seen else (p, perm) ∷ rest

abbrev pub dedup_by_path : List (Text × Permission) → List (Text × Permission)
dedup_by_path = dedup_from []

-- `r.exe_path.clone().map(|p| (p, Permission::Allow))`
abbrev pub allow_entry : AppRule → Option (Text × Permission)
allow_entry rule = elim rule.exe_path [ none ↦ none | some p ↦ some (p, allow) ]

-- The chain `filter`, `filter_map`, `dedup_by_path` that the allowlists share.
unfoldable pub allowlist_of : (AppRule → Bool) → List AppRule → List (Text × Permission)
unfolding dedup_from
allowlist_of test rules = dedup_by_path (filter_map allow_entry (retain test rules))

unfoldable pub kernel_camera_allowlist : Config → List (Text × Permission)
kernel_camera_allowlist config = allowlist_of (λ rule. rule.camera == some allow) config.rules

-- A rule's camera is open while it allows it, or while its session lives.
abbrev pub camera_open : (Text → Bool) → AppRule → Bool
camera_open session_live rule = elim rule.camera [
  | none ↦ false
  | some perm ↦ elim perm [
    | allow ↦ true
    | while_in_use ↦ session_live rule.app_name
    | ask ↦ false
    | deny ↦ false
  ]
]

unfoldable pub kernel_camera_allowlist_with_sessions :
    (Text → Bool) → Config → List (Text × Permission)
kernel_camera_allowlist_with_sessions session_live config =
    allowlist_of (camera_open session_live) config.rules

unfoldable pub kernel_audio_allowlist : Config → List (Text × Permission)
kernel_audio_allowlist config = allowlist_of (λ rule. rule.microphone == some allow) config.rules

-- The two messages of `kernel_camera_gaps`.
pub data CameraGap : Type 0 where
  no_exe_path no_kernel_equivalent : CameraGap

abbrev pub camera_gap : AppRule → Option (Text × CameraGap)
camera_gap rule = elim rule.camera [
  | none ↦ none
  | some perm ↦ elim perm [
    | allow ↦ some (rule.app_name, no_exe_path)
    | ask ↦ some (rule.app_name, no_kernel_equivalent)
    | while_in_use ↦ some (rule.app_name, no_kernel_equivalent)
    | deny ↦ none
  ]
]

unfoldable pub kernel_camera_gaps : Config → List (Text × CameraGap)
kernel_camera_gaps config =
    filter_map camera_gap (retain (λ rule. rule.exe_path == none) config.rules)

-- The two reasons of `audio_backstop_blocker`.
pub data Blocker : Type 0 where
  nothing_allowed server_not_allowed : Blocker

blocker_dec : Discrete Blocker
blocker_dec = hlevel

instance unfoldable pub blocker_eq : Eq Blocker
unfolding blocker_dec
blocker_eq = record { dec = blocker_dec }

abbrev pub is_audio_server : Text × Permission → Bool
is_audio_server (path, _) = contains audio_server_names (short_name path)

unfoldable pub audio_backstop_blocker : Config → Option Blocker
unfolding kernel_audio_allowlist
audio_backstop_blocker config =
    let list = kernel_audio_allowlist config in
    if is_empty list
    then some nothing_allowed
    else if not (any is_audio_server list)
    then some server_not_allowed
    else none

-- `global_camera_gap` is the message, or `None`.
abbrev pub global_camera_gap : Config → Bool
global_camera_gap config = config.policy.default_action == allow
