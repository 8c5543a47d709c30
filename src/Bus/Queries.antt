-- ===== src/Bus/Queries.antt =====
-- hwprivacy-daemon/src/dbus_service.rs: the methods by which the interfaces read the daemon. Each is a
-- table of what the state holds. A row is a tuple of the types that the bus has, so a count has 32 bits.
use hwprivacy.Common.{
  ℕ, ◌%◌, ◌^◌, Bool, true, List, ◌==◌, nat_eq, list_eq, find, map, retain, length,
}
use hwprivacy.Common.Options.{map_some, unwrap_or}
use hwprivacy.Common.Text.{Text, codes}
use hwprivacy.Config.{permission_text, AppRule, opinion, is_guarded}
use hwprivacy.Config.Kernel.{
  CameraGap, no_exe_path, no_kernel_equivalent, kernel_camera_gaps, Blocker, nothing_allowed,
  server_not_allowed, audio_backstop_blocker,
}
use hwprivacy.Daemon.{DaemonState}
use hwprivacy.Daemon.Enforce.{settle_of}
use hwprivacy.Device.{DeviceCategory, microphone, camera, monitor, category_text, ProtectedDevice}
use hwprivacy.History.{HistoryEntry, sorted}
use hwprivacy.KernelClient.Policy.{audio_backstop_report}
use hwprivacy.Names.{Lowercase}
use hwprivacy.RuleMerge.Splits.{find_rule_splits}
use hwprivacy.Stream.{ActiveConnection, AccessEvent, action_text}
use hwprivacy.StreamTracker.{active_count, live_sessions, recent_events, as_secs}

-- `as u32`
abbrev pub as_count : ℕ → ℕ
as_count n = n % 2 ^ 32

-- The text of a gap, as `kernel_camera_gaps` has it.
unfoldable pub gap_text : CameraGap → Text
gap_text no_exe_path = codes "camera = allow but no exe_path — the kernel layer will still deny it"
gap_text no_kernel_equivalent =
    codes "prompting permissions have no kernel equivalent; treated as deny there"

-- The text of a reason, as `audio_backstop_blocker` has it.
unfoldable pub blocker_text : Blocker → Text
blocker_text nothing_allowed =
    codes
      "no executable is allowed to open a capture device — enforcing would deny the audio server itself and stop ALL microphone access. Import the audio-backstop preset: hwprivacy-ctl preset import audio-backstop --apply"
blocker_text server_not_allowed =
    codes
      "the audio server (pipewire / wireplumber / pipewire-pulse) is not in the capture allowlist — enforcing would deny EVERY application's microphone, because the server is what opens /dev/snd on their behalf. If this machine runs a different audio server (JACK, PulseAudio, bare ALSA), hwprivacy does not recognise it yet — see audio_backstop_blocker() in hwprivacy-common/src/config.rs"

unfoldable pub get_devices : DaemonState → List (Text × Text × Text × Bool)
get_devices s =
    map (λ (d : ProtectedDevice). (category_text d.category, d.node_name, d.description, d.guarded))
      s.devices

-- The text of an opinion, which is empty where a rule has none.
abbrev pub opinion_text : AppRule → DeviceCategory → Text
opinion_text rule category = unwrap_or (map_some (opinion rule category) permission_text) (codes "")

abbrev pub gap_note : List (Text × CameraGap) → AppRule → Text
gap_note gaps rule =
    unwrap_or (map_some (find (λ (app, _). app == rule.app_name) gaps) (λ (_, why). gap_text why))
      (codes "")

abbrev pub rule_row : List (Text × CameraGap) → AppRule → Text × Text × Text × Text × Text × Text
rule_row gaps rule = (
  rule.app_name,
  opinion_text rule microphone,
  opinion_text rule camera,
  opinion_text rule monitor,
  unwrap_or rule.exe_path (codes ""),
  gap_note gaps rule,
)

unfoldable pub get_rules : DaemonState → List (Text × Text × Text × Text × Text × Text)
get_rules s = map (rule_row (kernel_camera_gaps s.config)) s.config.rules

abbrev pub stream_row : ActiveConnection → Text × ℕ × Text × Text × Text × Text × Bool
stream_row c = (
  c.stream.app_name,
  c.stream.pid,
  category_text c.device_category,
  c.stream.node_name,
  c.stream.media_name,
  permission_text c.permission,
  c.active,
)

unfoldable pub get_active_streams : DaemonState → List (Text × ℕ × Text × Text × Text × Text × Bool)
get_active_streams s = map (λ (_, c). stream_row c) s.tracker.active

unfoldable pub get_status : DaemonState → Bool × ℕ × ℕ × ℕ × ℕ
get_status s = (
  true,
  as_count (length (retain (λ (d : ProtectedDevice). d.guarded) s.devices)),
  as_count (length s.config.rules),
  s.tracker.blocked_count,
  active_count s.tracker,
)

unfoldable pub get_kernel_status : DaemonState → Bool × Bool × ℕ × ℕ × Text
get_kernel_status s = (
  s.kernel.connected,
  s.kernel.enforcing_camera,
  s.kernel.allowed_exes,
  as_count (length s.kernel.unresolved),
  unwrap_or s.kernel.last_error (codes ""),
)

unfoldable pub get_link_audit : DaemonState → ℕ × ℕ × ℕ × ℕ
get_link_audit s =
    let counts = s.link_ledger.counts in
    (counts.seen, counts.protected, counts.decided_late, counts.denied_alive)

unfoldable pub get_audio_backstop : DaemonState → Bool × Text
get_audio_backstop s =
    audio_backstop_report s.kernel.connected s.kernel.enforcing_audio
      (is_guarded s.config.devices microphone)
      (map_some (audio_backstop_blocker s.config) blocker_text)

abbrev pub history_row : HistoryEntry → Text × Text × Text × ℕ × ℕ × Text × Text
history_row o = (o.identity, o.device, o.source, o.denied, o.allowed, o.first_seen, o.last_seen)

unfoldable pub get_history : DaemonState → List (Text × Text × Text × ℕ × ℕ × Text × Text)
get_history s = map history_row (sorted s.history)

-- `AccessEvent::device_display` is the text of the category.
abbrev pub event_row : AccessEvent → Text × Text × Text × Text
event_row e = (e.timestamp, e.app_name, category_text e.device_category, action_text e.action)

unfoldable pub get_events : DaemonState → ℕ → List (Text × Text × Text × Text)
get_events s last_n = map event_row (recent_events s.tracker last_n)

module _ ⦃lc : Lowercase⦄ where
  unfoldable pub get_rule_splits : DaemonState → List (Text × Text × Text × List Text)
  get_rule_splits s =
      map
        (λ ((name_rule, exe_rule), (exe_path, conflicts)).
          (name_rule, exe_rule, exe_path, conflicts))
        (find_rule_splits s.config s.identities.pairs)

  -- The live sessions, with their age in seconds, at an instant.
  unfoldable pub get_sessions : DaemonState → ℕ → List (Text × Text × ℕ)
  get_sessions s now =
      map (λ (app, category, age). (app, category_text category, as_count (as_secs age)))
        (live_sessions s.tracker now (settle_of s))
