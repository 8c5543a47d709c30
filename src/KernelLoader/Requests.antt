-- ===== src/KernelLoader/Requests.antt =====
-- hwprivacy-lsm/src/main.rs: `handle_request`, which answers the daemon. The helper is the only one
-- that writes the maps of policy, configuration and minors.
use hwprivacy.Common.{
  ℕ, Bool, Option, none, some, List, [], ◌++◌, nat_eq, list_eq, ltb, if◌then◌else◌, filter_map,
  find, map, length, get, insert,
}
use hwprivacy.Common.Text.{Text, codes}
use hwprivacy.DeviceIndex.{DeviceMap, Listing, capture_minors}
use hwprivacy.KernelEvents.{word_at, bytes_of}
use hwprivacy.KernelLoader.{Bytes, BpfMap, after_calls, config_bytes, config_key}
use hwprivacy.KernelLoader.Minors.{push_capture_minors}
use hwprivacy.KernelLoader.Replace.{replace_policy}
use hwprivacy.KernelPolicy.{PolicyKey, render_cache}
use hwprivacy.Proto.{
  PushedEntry, UnresolvedEntry, Request, hello_request, set_policy, get_policy, ping, Reply, hello,
  policy_applied, policy_held, pong, error_reply, proto_version,
}

-- What the helper programs, and the file of `--policy-cache`.
pub record Helper : Type 0 where
  pub policy_map : BpfMap
  pub config_map : BpfMap
  pub minors_map : BpfMap
  pub index : DeviceMap
  pub enforcing : Bool
  pub enforcing_audio : Bool
  pub cache : Option Text

-- What the machine answers during a request: the resolution of a path, or why it has none; the keys
-- of each map that the kernel refuses to write, with its error; what the scans of `/dev` and
-- `/dev/snd` find; and whether there is a cache and it can be written.
pub record Machine : Type 0 where
  pub resolve : Text → Option PolicyKey
  pub stat_error : Text → Text
  pub refuses_policy : Bytes → Bool
  pub refuses_minor : Bytes → Bool
  pub refuses_config : Bytes → Bool
  pub os_error : Text
  pub dev : Listing
  pub snd : Listing
  pub writes_cache : Bool

-- A number as `format!` writes it.
module _ (show : ℕ → Text) where
  abbrev pub permissions_of : Option Bytes → ℕ
  permissions_of none = 0
  permissions_of (some value) = if ltb (length value) 4 then 0 else word_at 0 4 value

  -- `<dev={dev} ino={ino}>`
  abbrev pub key_text : Bytes → Text
  key_text key =
      codes "<dev="
      ++ (show (word_at 8 4 key) ++ (codes " ino=" ++ (show (word_at 0 8 key) ++ codes ">")))

  -- `read_policy`. Looking up a key that the map holds does not fail.
  unfoldable pub read_policy : BpfMap → List PushedEntry
  read_policy m =
      filter_map
        (λ (key, _).
          if ltb (length key) 12
          then none
          else some (record { exe_path = key_text key; perms = permissions_of (get m key) }))
        m

  -- The error names the first minor that is refused.
  abbrev pub minors_error : Machine → List ℕ → Text
  minors_error machine minors =
      codes "policy written but capture minors failed: failed to add capture minor "
      ++ ((elim (find (λ minor. machine.refuses_minor (bytes_of 4 minor)) minors) [
        | none ↦ []
        | some minor ↦ show minor
      ])
          ++ (codes ": " ++ machine.os_error))

  abbrev pub cache_text : List PushedEntry → Text
  cache_text entries = render_cache (map (λ (e : PushedEntry). (e.exe_path, e.perms)) entries)

  -- The end of a push: the enforcement flags and the cache.
  unfoldable pub finish_push :
      Machine
      → ℕ
      → Helper
      → List PushedEntry
      → Bool
      → Bool
      → ℕ × List UnresolvedEntry
      → Reply × Helper
  finish_push machine coalesce_ns h entries enforce_camera enforce_audio (applied, unresolved) =
      if machine.refuses_config config_key
      then (
        error_reply (
            codes "policy written but enforcement flag failed: failed to write the config map: "
            ++ machine.os_error),
        h,
      )
      else (
        policy_applied applied unresolved,
        record h {
          config_map =
              insert config_key (config_bytes enforce_camera enforce_audio coalesce_ns)
                h.config_map;
          enforcing = enforce_camera;
          enforcing_audio = enforce_audio;
          cache = if machine.writes_cache then some (cache_text entries) else h.cache;
        },
      )

  -- The minors, once the policy is written.
  unfoldable pub push_minors :
      Machine
      → ℕ
      → Helper
      → List PushedEntry
      → Bool
      → Bool
      → ℕ × List UnresolvedEntry
      → Reply × Helper
  push_minors machine coalesce_ns h entries enforce_camera enforce_audio answer =
      let (index, (calls, ok)) =
        push_capture_minors machine.refuses_minor machine.dev machine.snd h.minors_map in
      let h' : Helper = record h { index = index; minors_map = after_calls h.minors_map calls } in
      if ok
      then finish_push machine coalesce_ns h' entries enforce_camera enforce_audio answer
      else (error_reply (minors_error machine (capture_minors index)), h')

  unfoldable pub push_policy :
      Machine → ℕ → Helper → List PushedEntry → Bool → Bool → Reply × Helper
  push_policy machine coalesce_ns h entries enforce_camera enforce_audio =
      let r =
        replace_policy machine.resolve machine.stat_error machine.refuses_policy h.policy_map
          entries in
      let h' : Helper = record h { policy_map = after_calls h.policy_map r.calls } in
      elim r.answer [
        | none ↦ (error_reply (codes "failed to write a policy entry: " ++ machine.os_error), h')
        | some answer ↦
            push_minors machine coalesce_ns h' entries enforce_camera enforce_audio answer
      ]

  unfoldable pub handle_request : Machine → ℕ → Helper → Request → Reply × Helper
  handle_request machine coalesce_ns h (hello_request version) =
      (hello proto_version h.enforcing h.enforcing_audio, h)
  handle_request machine coalesce_ns h ping = (pong, h)
  handle_request machine coalesce_ns h (set_policy entries enforce_camera enforce_audio) =
      push_policy machine coalesce_ns h entries enforce_camera enforce_audio
  handle_request machine coalesce_ns h get_policy = (policy_held (read_policy h.policy_map), h)
