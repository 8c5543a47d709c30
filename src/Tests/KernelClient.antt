-- ===== src/Tests/KernelClient.antt =====
-- The kernel layer's client at concrete inputs: denied opens, a release, a policy and a prompt.
use hwprivacy.Common.{
  ℕ, ◌≡◌, ◌⊎◌, List, refl, Bool, true, false, Option, none, some, [], ◌∷◌, nat_eq, list_eq, pair_eq,
  option_eq, bool_eq, arith, NodupKeys, get,
}
use hwprivacy.Common.Text.{Text, codes, strip_prefix, trim, ends_with}
use hwprivacy.Config.{Config, Permission, permission_eq, default_config, empty_rule}
use hwprivacy.Config.Rules.{find_rule_by_exe, set_rule}
use hwprivacy.Daemon.{DaemonState, new_state}
use hwprivacy.Device.{camera, category_eq}
use hwprivacy.Identity.{no_identities}
use hwprivacy.KernelClient.{
  kernel_key, denied_opens, handle_event, rule_key_for, answer_kernel_prompt, category_of_role,
}
use hwprivacy.KernelClient.Answering.{answer_kernel_prompt_unattached}
use hwprivacy.KernelClient.Counting.{
  Counts, Releases, still, handle_event-Counts, handle_event-Releases,
}
use hwprivacy.KernelClient.Policy.{Intended, bits_by_path, bits_of, listed}
use hwprivacy.KernelClient.PolicyLaws.{bits_by_path_lem}
use hwprivacy.KernelClient.Pushing.{IsSamePolicy, IsChanged, session_step_lem}
use hwprivacy.KernelClient.Reported.{run_session, last_policy, flags_reported, session_flags_lem}
use hwprivacy.KernelClient.Session.{
  Session, Input, handle_reply, start_session, session_step, fingerprint_of, policy_changed,
  recheck_tick, line,
}
use hwprivacy.KernelPerms.{has_camera, has_audio}
use hwprivacy.Names.{sanitize_rule_name, normalize_app_name}
use hwprivacy.Names.Ascii.{ascii_lowercase}
use hwprivacy.Prompt.{chosen}
use hwprivacy.Proto.{KernelEvent, set_policy, policy_applied, pong}
use hwprivacy.Tests.Daemon.{start, at_home}

-- Thirteen opens of the camera by the browser that is denied.
abbrev burst : KernelEvent
burst = record {
  exe_path = codes "/bin/cheese";
  pid = 3_271;
  device = codes "/dev/video0";
  role = codes "CAMERA";
  denied = true;
  additional_opens = 12;
  released = false;
}

handle_event-Counts_example :
    Counts start
      (kernel_key (codes "/bin/cheese") camera)
      (denied_opens burst)
      at_home
      (handle_event start still at_home burst).state
unfolding category_of_role nat_eq list_eq get
handle_event-Counts_example =
    handle_event-Counts start at_home burst camera (omega arith) (omega arith) refl refl

abbrev closed : KernelEvent
closed = record burst { denied = false; additional_opens = 0; released = true }

handle_event-Releases_example :
    Releases start at_home closed camera (handle_event start still at_home closed)
unfolding category_of_role nat_eq list_eq get
handle_event-Releases_example = handle_event-Releases start at_home closed camera refl refl

abbrev firefox_entry : Text × Permission
firefox_entry = (codes "/bin/firefox", Permission.allow)

bits_by_path_example :
    NodupKeys (bits_by_path (firefox_entry ∷ []) (firefox_entry ∷ []))
    × (has_camera
          (bits_of (bits_by_path (firefox_entry ∷ []) (firefox_entry ∷ [])) (codes "/bin/firefox"))
        ≡ listed (firefox_entry ∷ []) (codes "/bin/firefox"))
    × (has_audio
          (bits_of (bits_by_path (firefox_entry ∷ []) (firefox_entry ∷ [])) (codes "/bin/firefox"))
        ≡ listed (firefox_entry ∷ []) (codes "/bin/firefox"))
bits_by_path_example =
    bits_by_path_lem (firefox_entry ∷ []) (firefox_entry ∷ []) (codes "/bin/firefox")

abbrev no_stat : Text → Option (ℕ × ℕ)
no_stat path = none

abbrev without_audio : Intended
without_audio = record { entries = []; enforce_camera = true; enforce_audio = false; gaps = [] }

abbrev with_audio : Intended
with_audio = record without_audio { enforce_audio = true }

abbrev started : Session
started = (start_session no_stat without_audio).session

session_step_example :
    let changed = session_step no_stat started with_audio policy_changed in
    let ticked = session_step no_stat started with_audio recheck_tick in
    let read = session_step no_stat started with_audio (line (some pong)) in
    (((changed.requests ≡ []) × IsSamePolicy no_stat with_audio no_stat without_audio)
      ⊎ ((changed.requests ≡ set_policy [] true true ∷ [])
          × IsChanged no_stat with_audio no_stat without_audio))
    × (ticked.requests ≡ changed.requests)
    × (changed.session.fingerprint ≡ fingerprint_of no_stat with_audio)
    × (ticked.session.fingerprint ≡ fingerprint_of no_stat with_audio)
    × (read ≡ record { session = started; requests = [] })
unfolding start_session
session_step_example =
    session_step_lem no_stat no_stat started with_audio without_audio (some pong) refl

abbrev changes : List ((Text → Option (ℕ × ℕ)) × (Intended × Input))
changes = (no_stat, (with_audio, policy_changed)) ∷ []

session_flags_example :
    let sent = run_session (start_session no_stat without_audio) changes in
    let answered = handle_reply start still sent.session at_home (policy_applied 0 []) in
    (files : Text → Option (ℕ × ℕ)) × (i : Intended) × (last_policy sent.requests
      ≡ some (i.entries, (i.enforce_camera, i.enforce_audio)))
    × (sent.session.fingerprint ≡ fingerprint_of files i)
    × (flags_reported answered ≡ some (i.enforce_camera, false))
session_flags_example = session_flags_lem start still at_home no_stat without_audio changes 0 []

-- The rule that is made to carry the executable.
abbrev new_rule : Config
new_rule = record default_config {
  rules = record (empty_rule (codes "cheese")) { camera = some Permission.deny } ∷ [];
}

abbrev fresh_state : DaemonState
fresh_state = new_state default_config no_identities (record { by_key = []; dirty = false }) 0

abbrev nothing_exists : Text → Bool
nothing_exists path = false

answer_unattached_example :
    ((answer_kernel_prompt start nothing_exists fresh_state
        (codes "cheese")
        (codes "/bin/cheese")
        (chosen Permission.allow)).state.config
      ≡ new_rule)
    × ((answer_kernel_prompt start nothing_exists fresh_state
          (codes "cheese")
          (codes "/bin/cheese")
          (chosen Permission.allow)).effects
        ≡ [])
unfolding set_rule sanitize_rule_name normalize_app_name ascii_lowercase nat_eq list_eq category_eq
    permission_eq strip_prefix trim ends_with rule_key_for find_rule_by_exe
answer_unattached_example =
    answer_kernel_prompt_unattached start nothing_exists fresh_state (codes "cheese")
      (codes "/bin/cheese") Permission.allow new_rule refl refl refl refl
