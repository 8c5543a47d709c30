-- ===== src/Config/KernelLaws.antt =====
-- Exactly which executables the kernel allowlists hold, and what blocks the audio backstop.
use hwprivacy.Common.{
  ◌≡◌, refl, sym, ap, ◌∙◌, Bool, true, false, ◌&&◌, ◌||◌, Option, none, some, List, [], ◌∷◌, arith,
  ◌==◌, nat_eq, list_eq, option_eq, retain, filter_map, any, contains, map, Distinct,
}
use hwprivacy.Common.Text.{Text}
use hwprivacy.Names.{short_name, audio_server_names}
use hwprivacy.Config.{Permission, allow, while_in_use, ask, deny, permission_eq, AppRule, Config}
use hwprivacy.Config.Kernel.{
  dedup_from, allow_entry, allowlist_of, kernel_camera_allowlist, camera_open,
  kernel_camera_allowlist_with_sessions, kernel_audio_allowlist, is_audio_server,
  audio_backstop_blocker, blocker_eq,
}

-- The paths of an allowlist.
abbrev pub paths : List (Text × Permission) → List Text
paths = map (λ (p, _). p)

any_of_contains :
    (test : Text → Bool) (seen : List Text) (p : Text)
    → contains seen p ≡ true
    → test p ≡ true
    → any test seen ≡ true
any_of_contains test [] p h t = cc
any_of_contains test (q ∷ seen) p h t = ground (arith, any_of_contains test seen p)

any-dedup_from :
    (test : Text → Bool) (seen : List Text) (v : List (Text × Permission))
    → (any test seen || any test (paths (dedup_from seen v)))
      ≡ (any test seen || any test (paths v))
unfolding dedup_from
any-dedup_from test seen [] = refl
any-dedup_from test seen ((p, perm) ∷ v) = ground (
  arith,
  any_of_contains test seen p,
  any-dedup_from test seen v,
  any-dedup_from test (p ∷ seen) v,
)

-- What was seen is not listed again.
contains-dedup_from :
    (seen : List Text) (v : List (Text × Permission)) (p : Text)
    → contains seen p ≡ true
    → contains (paths (dedup_from seen v)) p ≡ false
unfolding dedup_from
contains-dedup_from seen [] p h = refl
contains-dedup_from seen ((q, perm) ∷ v) p h =
    ground (arith, contains-dedup_from seen v p, contains-dedup_from (q ∷ seen) v p)

Distinct-dedup_from :
    (seen : List Text) (v : List (Text × Permission)) → Distinct (paths (dedup_from seen v))
unfolding dedup_from
Distinct-dedup_from seen [] = tt
Distinct-dedup_from seen ((p, perm) ∷ v) = ground (
  arith,
  Distinct-dedup_from seen v,
  Distinct-dedup_from (p ∷ seen) v,
  contains-dedup_from (p ∷ seen) v p,
)

any-entries :
    (test : Text → Bool) (keep : AppRule → Bool) (rules : List AppRule)
    → any test (paths (filter_map allow_entry (retain keep rules)))
      ≡ any (λ rule. keep rule && (elim rule.exe_path [ none ↦ false | some p ↦ test p ])) rules
any-entries test keep [] = refl
any-entries test keep (rule ∷ rules) = ground (arith, any-entries test keep rules)

any-allowlist_of :
    (test : Text → Bool) (keep : AppRule → Bool) (rules : List AppRule)
    → any test (paths (allowlist_of keep rules))
      ≡ any (λ rule. keep rule && (elim rule.exe_path [ none ↦ false | some p ↦ test p ])) rules
unfolding allowlist_of
any-allowlist_of test keep rules =
    any-dedup_from test [] (filter_map allow_entry (retain keep rules))
    ∙ any-entries test keep rules

contains-any : (path : Text) (v : List Text) → contains v path ≡ any (λ p. path == p) v
contains-any path [] = refl
contains-any path (p ∷ v) = rw (contains-any path v)

-- Some rule passes the test and names the executable.
abbrev pub names_exe : (AppRule → Bool) → Text → List AppRule → Bool
names_exe test path = any (λ rule. test rule && rule.exe_path == some path)

exe_test :
    (test : AppRule → Bool) (path : Text) (rules : List AppRule)
    → any (λ rule. test rule && (elim rule.exe_path [ none ↦ false | some p ↦ path == p ])) rules
      ≡ names_exe test path rules
exe_test test path [] = refl
exe_test test path (rule ∷ rules) = ground (arith, exe_test test path rules)

-- An executable is listed exactly when a rule of the right kind names it, and once.
contains-allowlist_of :
    (test : AppRule → Bool) (path : Text) (rules : List AppRule)
    → (contains (paths (allowlist_of test rules)) path ≡ names_exe test path rules)
      × Distinct (paths (allowlist_of test rules))
unfolding allowlist_of
contains-allowlist_of test path rules = (
  contains-any path (paths (allowlist_of test rules))
      ∙ any-allowlist_of (λ p. path == p) test rules
      ∙ exe_test test path rules,
  Distinct-dedup_from [] (filter_map allow_entry (retain test rules)),
)

-- The camera allowlist holds an executable exactly when some rule that allows the camera names
-- it, and holds no executable twice.
pub kernel_camera_allowlist_lem :
    (config : Config) (path : Text)
    → (contains (paths (kernel_camera_allowlist config)) path
        ≡ names_exe (λ rule. rule.camera == some allow) path config.rules)
      × Distinct (paths (kernel_camera_allowlist config))
unfolding kernel_camera_allowlist
kernel_camera_allowlist_lem config path =
    contains-allowlist_of (λ rule. rule.camera == some allow) path config.rules

camera_open_cases :
    (session_live : Text → Bool) (name : Text) (microphone camera monitor : Option Permission)
    (exe : Option Text)
    → let rule : AppRule = record {
      app_name = name;
      microphone = microphone;
      camera = camera;
      monitor = monitor;
      exe_path = exe;
    } in
      camera_open session_live rule
      ≡ (camera == some allow || camera == some while_in_use && session_live name)
unfolding permission_eq option_eq
camera_open_cases session_live name microphone none monitor exe = refl
camera_open_cases session_live name microphone (some allow) monitor exe = refl
camera_open_cases session_live name microphone (some while_in_use) monitor exe = refl
camera_open_cases session_live name microphone (some ask) monitor exe = refl
camera_open_cases session_live name microphone (some deny) monitor exe = refl

camera_open_lem :
    (session_live : Text → Bool) (rule : AppRule)
    → camera_open session_live rule ≡ (
        rule.camera == some allow || rule.camera == some while_in_use && session_live rule.app_name)
camera_open_lem session_live rule =
    camera_open_cases session_live rule.app_name rule.microphone rule.camera rule.monitor
      rule.exe_path

-- With sessions, an executable is in the camera allowlist exactly when it was there before, or a
-- `while_in_use` camera rule names it whose session is live. None is there twice.
pub camera_sessions_lem :
    (session_live : Text → Bool) (config : Config) (path : Text)
    → (contains (paths (kernel_camera_allowlist_with_sessions session_live config)) path ≡ (
        contains (paths (kernel_camera_allowlist config)) path
        || names_exe
            (λ rule. rule.camera == some while_in_use && session_live rule.app_name)
            path
            config.rules))
      × Distinct (paths (kernel_camera_allowlist_with_sessions session_live config))
unfolding kernel_camera_allowlist_with_sessions kernel_camera_allowlist
camera_sessions_lem session_live config path =
    let (live, once) = contains-allowlist_of (camera_open session_live) path config.rules in
    (
      live
          ∙ split_open config.rules
          ∙ ap (λ b. b || names_exe session path config.rules)
              (sym (contains-allowlist_of (λ rule. rule.camera == some allow) path config.rules).0),
      once,
    )
  where
    session : AppRule → Bool
    session rule = rule.camera == some while_in_use && session_live rule.app_name

    split_open :
        (rules : List AppRule)
        → names_exe (camera_open session_live) path rules ≡ (
            names_exe (λ rule. rule.camera == some allow) path rules
            || names_exe session path rules)
    split_open [] = refl
    split_open (rule ∷ rules) = ground (arith, camera_open_lem session_live rule, split_open rules)

any-paths :
    (test : Text → Bool) (v : List (Text × Permission))
    → any (λ (p, _). test p) v ≡ any test (paths v)
any-paths test [] = refl
any-paths test ((p, perm) ∷ v) = rw (any-paths test v)

abbrev is_server_path : Text → Bool
is_server_path path = contains audio_server_names (short_name path)

blocker_of_list :
    (config : Config)
    → (audio_backstop_blocker config == none) ≡ any is_audio_server (kernel_audio_allowlist config)
unfolding audio_backstop_blocker
blocker_of_list config = ground arith

-- Nothing blocks the audio backstop exactly when some rule that allows the microphone names an
-- executable whose last path component is one of the audio server's.
pub audio_backstop_blocker_lem :
    (config : Config)
    → (audio_backstop_blocker config == none)
      ≡ any
          (λ rule. rule.microphone == some allow && (elim rule.exe_path [
            | none ↦ false
            | some path ↦ contains audio_server_names (short_name path)
          ]))
          config.rules
unfolding kernel_audio_allowlist
audio_backstop_blocker_lem config =
    blocker_of_list config
    ∙ any-paths is_server_path (kernel_audio_allowlist config)
    ∙ any-allowlist_of is_server_path (λ rule. rule.microphone == some allow) config.rules
