-- ===== src/KernelLoader/Boot.antt =====
-- hwprivacy-lsm/src/main.rs: how `main` programs the kernel before it attaches, and when its loop ends.
-- The files are what reading them gives.
use hwprivacy.Common.{
  ℕ, ◌*◌, ◌%◌, ◌^◌, Bool, not, ◌&&◌, Option, none, some, List, [], ◌∷◌, nat_eq, list_eq, pair_eq,
  if◌then◌else◌, ltb, leb, is_empty, map, insert,
}
use hwprivacy.Common.Options.{is_some}
use hwprivacy.Common.Text.{Text}
use hwprivacy.KernelEvents.{bytes_of}
use hwprivacy.KernelLoader.{Bytes, after_calls, put_all, to_bytes, config_key, config_bytes}
use hwprivacy.KernelLoader.Minors.{push_capture_minors}
use hwprivacy.KernelLoader.Requests.{Helper, Machine}
use hwprivacy.KernelPolicy.{PolicyKey, Policy, empty_policy, parse, allow_path}
use hwprivacy.KernelPolicy.Merge.{Key, to_map}

-- The file of `--policy-cache`.
pub data CacheFile : Type 0 where
  readable : Text → CacheFile
  unreadable missing : CacheFile

-- `Cli`, as far as it decides on the policy and the end. A policy file that cannot be read is `none`.
pub record Cli : Type 0 where
  pub policy_file : Option (Option Text)
  pub allow : List Text
  pub policy_cache : Option CacheFile
  pub enforce : Bool
  pub enforce_audio : Bool
  pub coalesce_ms : ℕ
  pub max_events : ℕ
  pub duration : ℕ

module _ (resolve : Text → Option PolicyKey) where
  abbrev pub allow_paths : Policy → List Text → Policy
  allow_paths pol [] = pol
  allow_paths pol (path ∷ paths) = allow_paths (allow_path resolve pol path) paths

  -- The cache is read if no policy was named.
  abbrev pub or_cached : Cli → Policy → Option Policy
  or_cached cli pol =
      if is_empty pol.entries && not (is_some cli.policy_file) && is_empty cli.allow
      then elim cli.policy_cache [
        | none ↦ some pol
        | some file ↦ elim file [
          | readable text ↦ some (parse resolve text)
          | unreadable ↦ none
          | missing ↦ some pol
        ]
      ]
      else some pol

  -- `none` if `main` refuses to start.
  unfoldable pub initial_policy : Cli → Option Policy
  initial_policy cli = elim cli.policy_file [
    | none ↦ or_cached cli (allow_paths empty_policy cli.allow)
    | some file ↦ elim file [
      | none ↦ none
      | some text ↦ or_cached cli (allow_paths (parse resolve text) cli.allow)
    ]
  ]

abbrev pub entry_bytes : Key × ℕ → Bytes × Bytes
entry_bytes ((ino, dev), perms) =
    (to_bytes (record { exe_ino = ino; exe_dev = dev }), bytes_of 4 perms)

-- `cli.coalesce_ms * 1_000_000` on `u64`
abbrev pub coalesce_ns_of : Cli → ℕ
coalesce_ns_of cli = (cli.coalesce_ms * 1_000_000) % 2 ^ 64

-- The maps as `main` programs them, before it attaches. The maps are empty when the program loads.
unfoldable pub program_policy : Machine → Cli → Option Text → Policy → Option Helper
program_policy machine cli cache pol =
    let (puts, ok) = put_all machine.refuses_policy (map entry_bytes (to_map pol)) in
    let (index, (calls, known)) =
      push_capture_minors machine.refuses_minor machine.dev machine.snd [] in
    if ok && not (machine.refuses_config config_key) && known
    then some (record {
      policy_map = after_calls [] puts;
      config_map =
          insert config_key (config_bytes cli.enforce cli.enforce_audio (coalesce_ns_of cli)) [];
      minors_map = after_calls [] calls;
      index = index;
      enforcing = cli.enforce;
      enforcing_audio = cli.enforce_audio;
      cache = cache;
    })
    else none

abbrev pub cache_held : Option CacheFile → Option Text
cache_held none = none
cache_held (some (readable text)) = some text
cache_held (some unreadable) = none
cache_held (some missing) = none

-- The helper when the program is attached, if it comes to that.
unfoldable pub boot : Machine → Cli → Bool → Option Helper
unfolding initial_policy program_policy
boot machine cli attaches = elim (initial_policy machine.resolve cli) [
  | none ↦ none
  | some pol ↦
      if attaches then program_policy machine cli (cache_held cli.policy_cache) pol else none
]

pub data StopReason : Type 0 where
  interrupted duration_elapsed event_limit : StopReason

-- Whether the loop ends, for the events that were reported and the seconds since the start.
unfoldable pub stop_reason : Cli → Bool → ℕ → ℕ → Option StopReason
stop_reason cli running reported elapsed_secs =
    if not running
    then some interrupted
    else if ltb 0 cli.max_events && leb cli.max_events reported
    then some event_limit
    else if ltb 0 cli.duration && leb cli.duration elapsed_secs
    then some duration_elapsed
    else none
