-- ===== src/Tests/KernelLoader.antt =====
-- The helper at concrete inputs: a push, a restart from the cache and a burst.
use hwprivacy.Common.{
  ℕ, ◌<◌, ◌^◌, ◌≡◌, refl, subst, sym, All, Bool, true, false, Option, none, some, List, [], ◌∷◌,
  ◌==◌, nat_eq, list_eq, pair_eq, option_eq, arith, if◌then◌else◌, get, insert, contains,
  contains_key, take, map,
}
use hwprivacy.Common.Options.{map_some}
use hwprivacy.Common.Text.{Text, codes, strip_prefix, trim, trim_end, ends_with}
use hwprivacy.DeviceIndex.{
  rescan, capture_minors, scan_dir, index_entry, index_node, classify_node, role_eq,
}
use hwprivacy.KernelEvents.{bytes_of, parse_coalesce, cleared_value}
use hwprivacy.KernelLoader.{
  Bytes, BpfMap, after_call, after_calls, put_all, delete_all, to_bytes, config_key, config_bytes,
}
use hwprivacy.KernelLoader.Allowlist.{grants, grants-replace_policy, grants-during_replace_policy}
use hwprivacy.KernelLoader.Answers.{
  after_requests, hello-after_requests, set_policy_applied, set_policy_failed,
}
use hwprivacy.KernelLoader.Boot.{Cli, readable, boot, initial_policy, program_policy}
use hwprivacy.KernelLoader.Bursts.{burst_key, pending_bursts, flush_stale_bursts, opens_told}
use hwprivacy.KernelLoader.Flushed.{opens_due, told, to_tell, IsQuiet, flush_stale_bursts_lem}
use hwprivacy.KernelLoader.Minors.{minor_calls, push_capture_minors}
use hwprivacy.KernelLoader.Programmed.{IsRefused, read_config}
use hwprivacy.KernelLoader.Replace.{want_entry, want_entries, replace_policy}
use hwprivacy.KernelLoader.Requests.{
  Helper, Machine, handle_request, push_policy, push_minors, finish_push, cache_text,
}
use hwprivacy.KernelLoader.Restart.{ResolvesSized, grants-restart}
use hwprivacy.KernelLoader.Wanted.{pushed}
use hwprivacy.KernelPerms.{perm_camera, has}
use hwprivacy.KernelPerms.{perms_word, parse_perms}
use hwprivacy.KernelPolicy.{
  PolicyKey, parse, parse_lines, lines_of, render_cache, parse_line, before_hash, parse_entry,
  split_space, push_path,
}
use hwprivacy.KernelPolicy.Merge.{bit_or, to_map}
use hwprivacy.Proto.{
  PushedEntry, Request, hello_request, set_policy, hello, policy_applied, error_reply,
  proto_version,
}

abbrev cheese_file : PolicyKey
cheese_file = record { exe_ino = 263; exe_dev = 3 }

abbrev only_cheese : Text → Option PolicyKey
only_cheese path = if path == codes "/bin/cheese" then some cheese_file else none

abbrev machine : Machine
machine = record {
  resolve = only_cheese;
  stat_error = λ _. codes "cannot stat";
  refuses_policy = λ _. false;
  refuses_minor = λ _. false;
  refuses_config = λ _. false;
  os_error = codes "full";
  dev = [];
  snd = (codes "pcmC0D0c", some (116, 24)) ∷ [];
  writes_cache = true;
}

abbrev full : Machine
full = record machine { refuses_config = λ _. true }

abbrev one_digit : ℕ → Text
one_digit n = 48 ∷ []

abbrev cheese_camera : List PushedEntry
cheese_camera = record { exe_path = codes "/bin/cheese"; perms = 1 } ∷ []

abbrev old_map : BpfMap
old_map =
    (to_bytes cheese_file, 1 ∷ 0 ∷ 0 ∷ 0 ∷ [])
    ∷ (to_bytes (record { exe_ino = 9; exe_dev = 3 }), 3 ∷ 0 ∷ 0 ∷ 0 ∷ [])
    ∷ []

abbrev key : Bytes
key = to_bytes cheese_file

grants-replace_policy_example :
    grants
      (has perm_camera)
      (after_calls old_map
        (replace_policy machine.resolve machine.stat_error machine.refuses_policy old_map
          cheese_camera).calls)
      key
    ≡ pushed machine.resolve (has perm_camera) cheese_camera key
unfolding replace_policy want_entries want_entry put_all insert nat_eq list_eq strip_prefix
grants-replace_policy_example =
    grants-replace_policy machine.resolve machine.stat_error machine.refuses_policy perm_camera
      old_map cheese_camera key refl

grants-during_replace_policy_example :
    grants
      (has perm_camera)
      (after_calls old_map (
        take 1
          (replace_policy machine.resolve machine.stat_error machine.refuses_policy old_map
            cheese_camera).calls))
      key
    ≡ true
unfolding get nat_eq list_eq strip_prefix
grants-during_replace_policy_example =
    grants-during_replace_policy machine.resolve machine.stat_error machine.refuses_policy
      perm_camera old_map cheese_camera key 1 refl refl

abbrev helper : Helper
helper = record {
  policy_map = old_map;
  config_map = (config_key, config_bytes false false 5) ∷ [];
  minors_map = [];
  index = [];
  enforcing = false;
  enforcing_audio = false;
  cache = none;
}

abbrev requests : List (Machine × Request)
requests =
    (full, set_policy cheese_camera true true) ∷ (machine, set_policy cheese_camera true false) ∷ []

hello-after_requests_example :
    let h' = after_requests one_digit 5 helper requests in
    (camera audio : Bool) × ((handle_request one_digit machine 5 h' (hello_request 1)).0
      ≡ hello proto_version camera audio)
    × (map_some (get h'.config_map config_key) read_config ≡ some (camera, audio, 5))
unfolding get nat_eq list_eq
hello-after_requests_example =
    hello-after_requests one_digit 5 helper requests machine 1 refl (omega arith)

abbrev after_push : Helper
after_push = (handle_request one_digit machine 5 helper (set_policy cheese_camera true false)).1

pushed_test :
    (handle_request one_digit machine 5 helper (set_policy cheese_camera true false)).0
    ≡ policy_applied 1 []
unfolding handle_request push_policy push_minors finish_push replace_policy want_entries want_entry
    put_all minor_calls push_capture_minors rescan scan_dir index_entry index_node classify_node
    capture_minors role_eq get insert nat_eq list_eq pair_eq strip_prefix ends_with
pushed_test = refl

cached_test : after_push.cache ≡ some (cache_text one_digit cheese_camera)
unfolding handle_request push_policy push_minors finish_push replace_policy want_entries want_entry
    put_all minor_calls push_capture_minors rescan scan_dir index_entry index_node classify_node
    capture_minors role_eq get insert nat_eq list_eq pair_eq strip_prefix ends_with
cached_test = refl

minors_found : capture_minors (rescan machine.dev machine.snd) ≡ 24 ∷ []
unfolding rescan scan_dir index_entry index_node classify_node capture_minors role_eq insert nat_eq
    pair_eq strip_prefix ends_with
minors_found = refl

set_policy_applied_example :
    (grants (has perm_camera) after_push.policy_map key
      ≡ pushed machine.resolve (has perm_camera) cheese_camera key)
    × (contains_key after_push.minors_map (bytes_of 4 24)
        ≡ contains (capture_minors (rescan machine.dev machine.snd)) 24)
    × (map_some (get after_push.config_map config_key) read_config ≡ some (true, false, 5))
set_policy_applied_example =
    set_policy_applied one_digit 5 machine helper cheese_camera true false 1 [] perm_camera key 24
      pushed_test (subst (All (λ x. x < 2 ^ 32)) (sym minors_found) (omega arith)) (omega arith)
      (omega arith)

abbrev after_failure : Helper
after_failure = (handle_request one_digit full 5 helper (set_policy cheese_camera true true)).1

failed_test :
    (handle_request one_digit full 5 helper (set_policy cheese_camera true true)).0
    ≡ error_reply
        (codes "policy written but enforcement flag failed: failed to write the config map: full")
unfolding handle_request push_policy push_minors finish_push replace_policy want_entries want_entry
    put_all minor_calls push_capture_minors rescan scan_dir index_entry index_node classify_node
    capture_minors role_eq get insert nat_eq list_eq pair_eq strip_prefix ends_with
failed_test = refl

set_policy_failed_example :
    (after_failure.config_map ≡ helper.config_map)
    × (after_failure.enforcing ≡ helper.enforcing)
    × (after_failure.enforcing_audio ≡ helper.enforcing_audio)
    × (after_failure.cache ≡ helper.cache)
    × IsRefused full
set_policy_failed_example =
    set_policy_failed one_digit 5 full helper cheese_camera true true
      (codes "policy written but enforcement flag failed: failed to write the config map: full")
      failed_test

abbrev cli : Cli
cli = record {
  policy_file = none;
  allow = [];
  policy_cache = some (readable (cache_text one_digit cheese_camera));
  enforce = true;
  enforce_audio = false;
  coalesce_ms = 2;
  max_events = 0;
  duration = 0;
}

cheese_fits : ResolvesSized only_cheese
cheese_fits path file e = ground (arith, e)

abbrev restarted : Helper
restarted = record {
  policy_map = (key, bytes_of 4 1) ∷ [];
  config_map = (config_key, config_bytes true false 2_000_000) ∷ [];
  minors_map = (bytes_of 4 24, 1 ∷ []) ∷ [];
  index = rescan machine.dev machine.snd;
  enforcing = true;
  enforcing_audio = false;
  cache = some (cache_text one_digit cheese_camera);
}

booted : boot machine cli true ≡ some restarted
unfolding boot initial_policy program_policy handle_request push_policy push_minors finish_push
    replace_policy want_entries want_entry put_all minor_calls push_capture_minors rescan scan_dir
    index_entry index_node classify_node capture_minors role_eq get insert nat_eq list_eq pair_eq
    strip_prefix ends_with to_map parse parse_lines lines_of render_cache perms_word parse_line trim
    before_hash parse_entry split_space parse_perms push_path after_calls after_call delete_all
    bit_or
booted = refl

grants-restart_example :
    grants (has perm_camera) restarted.policy_map key
    ≡ grants (has perm_camera) after_push.policy_map key
unfolding nat_eq list_eq strip_prefix trim_end
grants-restart_example =
    grants-restart one_digit 5 machine helper cheese_camera true false 1 []
      (cache_text one_digit cheese_camera) machine cli restarted perm_camera cheese_file pushed_test
      refl ((refl, refl, refl, refl), tt) cheese_fits (omega arith) refl refl refl refl cached_test
      booted

abbrev bursts_held : BpfMap
bursts_held =
    (
      7 ∷ 1 ∷ 0 ∷ 0 ∷ 0 ∷ 0 ∷ 0 ∷ 0 ∷ 3 ∷ 0 ∷ 0 ∷ 0 ∷ 81 ∷ 0 ∷ 0 ∷ 0 ∷ [],
      9 ∷ 2 ∷ 0 ∷ 0 ∷ 0 ∷ 0 ∷ 0 ∷ 0 ∷ 12 ∷ 0 ∷ 0 ∷ 0 ∷ 1 ∷ 0 ∷ 0 ∷ 0 ∷ [],
    )
    ∷ []

-- The count rises by one between the read and the write.
abbrev one_more : BpfMap → BpfMap
one_more m =
    map (λ (k, _). (k, 10 ∷ 2 ∷ 0 ∷ 0 ∷ 0 ∷ 0 ∷ 0 ∷ 0 ∷ 13 ∷ 0 ∷ 0 ∷ 0 ∷ 1 ∷ 0 ∷ 0 ∷ 0 ∷ [])) m

flushed_test :
    (flush_stale_bursts one_digit [] (λ _. false) one_more 9_000 2_000 bursts_held).total ≡ some 12
unfolding flush_stale_bursts parse_coalesce cleared_value burst_key get insert nat_eq list_eq
flushed_test = refl

flush_stale_bursts_example :
    let flushed = flush_stale_bursts one_digit [] (λ _. false) one_more 9_000 2_000 bursts_held in
    (12 ≡ opens_due 9_000 2_000 bursts_held)
    × (opens_told flushed.events ≡ 12)
    × (map told flushed.events ≡ map to_tell (pending_bursts 9_000 2_000 bursts_held))
    × All
        (λ e. IsQuiet (get flushed.bursts (burst_key e)) e)
        (pending_bursts 9_000 2_000 bursts_held)
unfolding pending_bursts parse_coalesce nat_eq
flush_stale_bursts_example =
    flush_stale_bursts_lem one_digit [] (λ _. false) one_more 9_000 2_000 bursts_held 12
      flushed_test (refl, tt)
