-- ===== src/KernelClient/Policy.antt =====
-- hwprivacy-daemon/src/lsm_client.rs: the policy that the configuration intends for the kernel layer,
-- what is remembered of the one that was pushed, and what is reported of it.
use hwprivacy.Common.{
  ℕ, Bool, true, false, not, ◌&&◌, Option, none, some, List, [], ◌∷◌, Eq, ◌==◌, nat_eq, list_eq,
  pair_eq, option_eq, bool_eq, if◌then◌else◌, contains, any, retain, map, leb, Map, get, insert,
  sort, text_le,
}
use hwprivacy.Common.Options.{unwrap_or, is_some}
use hwprivacy.Common.Text.{Text, codes}
use hwprivacy.Config.{Permission, is_guarded}
use hwprivacy.Config.Kernel.{
  CameraGap, kernel_camera_allowlist_with_sessions, kernel_audio_allowlist, kernel_camera_gaps,
  audio_backstop_blocker,
}
use hwprivacy.Daemon.{DaemonState, Moment}
use hwprivacy.Daemon.Enforce.{settle_of}
use hwprivacy.Device.{camera, microphone}
use hwprivacy.KernelPerms.{set_camera, set_audio}
use hwprivacy.Names.{Lowercase}
use hwprivacy.Proto.{PushedEntry}
use hwprivacy.StreamTracker.{session_live}

-- `*by_path.entry(exe_path).or_insert(0) |= bit`
abbrev pub add_bit : (ℕ → ℕ) → Text → Map Text ℕ → Map Text ℕ
add_bit set path by_path = insert path (set (unwrap_or (get by_path path) 0)) by_path

-- The `for` loops over an allowlist.
unfoldable pub add_bits : (ℕ → ℕ) → List (Text × Permission) → Map Text ℕ → Map Text ℕ
add_bits set [] by_path = by_path
add_bits set ((path, _) ∷ list) by_path = add_bits set list (add_bit set path by_path)

unfoldable pub bits_by_path : List (Text × Permission) → List (Text × Permission) → Map Text ℕ
unfolding add_bits
bits_by_path camera_list audio_list =
    add_bits set_audio audio_list (add_bits set_camera camera_list [])

-- The entries in the order of the `BTreeMap`.
abbrev pub pushed_entries : Map Text ℕ → List PushedEntry
pushed_entries by_path =
    map (λ (path, perms). record { exe_path = path; perms = perms })
      (sort (λ (a, _) (b, _). text_le a b) by_path)

pub record Intended : Type 0 where
  pub entries : List PushedEntry
  pub enforce_camera : Bool
  pub enforce_audio : Bool
  pub gaps : List (Text × CameraGap)

unfoldable pub intended_policy : ⦃lc : Lowercase⦄ → Moment → DaemonState → Intended
unfolding bits_by_path
intended_policy moment s = record {
  entries = pushed_entries (
      bits_by_path
        (kernel_camera_allowlist_with_sessions
          (λ app. session_live s.tracker moment.now app camera (settle_of s)) s.config)
        (kernel_audio_allowlist s.config));
  enforce_camera = is_guarded s.config.devices camera;
  enforce_audio =
      not (is_some (audio_backstop_blocker s.config)) && is_guarded s.config.devices microphone;
  gaps = kernel_camera_gaps s.config;
}

-- `gap_delta`: the gaps that are new, and the rules that have none any more.
unfoldable pub gap_delta :
    {W : Type 0} ⦃e : Eq W⦄ → List (Text × W) → List (Text × W) → List (Text × W) × List Text
gap_delta prev next = (
  retain (λ gap. not (contains prev gap)) next,
  map (λ (app, _). app) (retain (λ (app, _). not (any (λ (a, _). a == app) next)) prev),
)

-- The sentences of `audio_backstop_report`.
abbrev pub unknown_report : Text
unknown_report =
    codes
      "unknown — the daemon cannot reach the kernel helper, so it cannot see whether capture nodes are enforced. Check directly with: systemctl is-active hwprivacy-lsm"

abbrev pub unguarded_report : Text
unguarded_report =
    codes
      "the microphone is not guarded ([devices] microphone = false in config.toml), so layer 2 does not enforce capture nodes"

abbrev pub helper_off_report : Text
helper_off_report =
    codes
      "the helper is connected and nothing is blocking enforcement, yet it reports the backstop OFF — it is running without --enforce-audio. Check: systemctl show hwprivacy-lsm -p ExecStart"

abbrev pub why_not_enforcing : Bool → Option Text → Text
why_not_enforcing mic_guarded (some why) = why
why_not_enforcing mic_guarded none = if mic_guarded then helper_off_report else unguarded_report

unfoldable pub audio_backstop_report : Bool → Bool → Bool → Option Text → Bool × Text
audio_backstop_report connected enforcing mic_guarded blocker =
    if not connected
    then (false, unknown_report)
    else if enforcing
    then (true, [])
    else (false, why_not_enforcing mic_guarded blocker)

-- The executable's permissions and what `stat` says of the file.
abbrev pub FileIdentity : Type 0
FileIdentity = (Text × ℕ) × Option (ℕ × ℕ)

pub record PolicyFingerprint : Type 0 where
  pub files : List FileIdentity
  pub enforce_camera : Bool
  pub enforce_audio : Bool

-- The order of the tuples, where no identity comes before any.
abbrev pub identity_le : Option (ℕ × ℕ) → Option (ℕ × ℕ) → Bool
identity_le none b = true
identity_le (some a) none = false
identity_le (some (dev, ino)) (some (dev', ino')) =
    if dev == dev' then leb ino ino' else leb dev dev'

abbrev pub file_le : FileIdentity → FileIdentity → Bool
file_le ((path, perms), id) ((path', perms'), id') =
    if path == path'
    then if perms == perms' then identity_le id id' else leb perms perms'
    else text_le path path'

-- `Vec::dedup`
unfoldable pub dedup_files : List FileIdentity → List FileIdentity
dedup_files [] = []
dedup_files (x ∷ []) = x ∷ []
dedup_files (x ∷ y ∷ xs) = let rest = dedup_files (y ∷ xs) in if x == y then rest else x ∷ rest

-- `PolicyFingerprint::take`, where `stat_identity` is what the file system says.
unfoldable pub take_fingerprint :
    (Text → Option (ℕ × ℕ)) → List PushedEntry → Bool → Bool → PolicyFingerprint
unfolding dedup_files
take_fingerprint stat_identity entries enforce_camera enforce_audio = record {
  files =
      dedup_files
        (sort file_le (map (λ e. ((e.exe_path, e.perms), stat_identity e.exe_path)) entries));
  enforce_camera = enforce_camera;
  enforce_audio = enforce_audio;
}

-- `==` of fingerprints
abbrev pub same_fingerprint : PolicyFingerprint → PolicyFingerprint → Bool
same_fingerprint a b =
    a.files == b.files && a.enforce_camera == b.enforce_camera && a.enforce_audio == b.enforce_audio

abbrev pub listed : List (Text × Permission) → Text → Bool
listed list path = contains (map (λ (p, _). p) list) path

-- The bits of an executable: none if it is not there.
abbrev pub bits_of : Map Text ℕ → Text → ℕ
bits_of by_path path = unwrap_or (get by_path path) 0
