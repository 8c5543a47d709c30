-- ===== src/Tests/Rules.antt =====
-- Names, rules, presets and merges at concrete inputs.
use hwprivacy.Common.{
  arith, ◌≡◌, refl, true, false, ◌&&◌, ◌||◌, none, some, List, [], ◌∷◌, ◌==◌, nat_eq, list_eq,
  option_eq, pair_eq, if◌then◌else◌, contains, Distinct,
}
use hwprivacy.Common.Text.{codes, ends_with, rfind, strip_prefix, trim}
use hwprivacy.Device.{category_eq, microphone, camera, monitor}
use hwprivacy.Names.{strip_annotations, normalize_app_name, sanitize_rule_name}
use hwprivacy.Names.Ascii.{ascii_lowercase}
use hwprivacy.Names.Normalize.{IsSettled, normalize_app_name_idem, strip_annotations_ends}
use hwprivacy.Config.{Permission, permission_eq, AppRule, empty_rule, Config, default_config}
use hwprivacy.Config.Rules.{set_rule, find_rule, get_permission, set_rule_exe, done, remove_rule}
use hwprivacy.Config.RuleLaws.{get_permission-set_rule}
use hwprivacy.Config.Kernel.{
  kernel_camera_allowlist, kernel_camera_allowlist_with_sessions, blocker_eq, allowlist_of,
}
use hwprivacy.Config.KernelLaws.{camera_sessions_lem, paths, names_exe}
use hwprivacy.Config.Invariant.{IsTidy}
use hwprivacy.Preset.{PresetApp, Preset}
use hwprivacy.RuleMerge.{MergeChoices, Line, merge_rules, merged, binary_conflict}
use hwprivacy.RuleMerge.Laws.{find_rule-merge_rules, settled_rule, Decides}
use hwprivacy.Tests.{firefox, cheese, home}

normalize_app_name_idem_example :
    normalize_app_name (normalize_app_name (codes " ALSA plug-in [Cheese] "))
    ≡ normalize_app_name (codes " ALSA plug-in [Cheese] ")
normalize_app_name_idem_example = normalize_app_name_idem (codes " ALSA plug-in [Cheese] ")

annotations_test : normalize_app_name (codes " Cheese [x] [y]") ≡ codes "cheese"
unfolding normalize_app_name ascii_lowercase strip_prefix trim nat_eq ends_with rfind
annotations_test = refl

abbrev cheese_denied : Config
cheese_denied = record home {
  rules = firefox ∷ record cheese { microphone = some Permission.deny } ∷ [];
}

set_cheese : set_rule home (codes "Cheese") microphone Permission.deny ≡ some cheese_denied
unfolding set_rule ascii_lowercase nat_eq list_eq option_eq category_eq permission_eq
    sanitize_rule_name strip_prefix trim ends_with
set_cheese = refl

get_permission-set_rule_example : get_permission cheese_denied (codes "cheese") microphone ≡ (
    if sanitize_rule_name (codes "Cheese") == some (normalize_app_name (codes "cheese"))
      && microphone == microphone
    then Permission.deny
    else get_permission home (codes "cheese") microphone)
get_permission-set_rule_example =
    get_permission-set_rule home cheese_denied (codes "Cheese") (codes "cheese") microphone
      microphone Permission.deny set_cheese

-- The rule is found, and goes.
remove_test : (remove_rule home (codes "CHEESE")).1 ≡ true
unfolding remove_rule normalize_app_name ascii_lowercase nat_eq list_eq strip_prefix trim ends_with
remove_test = refl

abbrev cheese_moved : Config
cheese_moved = record home { rules = firefox ∷ record cheese { exe_path = some (codes "/c") } ∷ [] }

move_cheese : set_rule_exe (λ _. true) home (codes "cheese") (codes "/c") ≡ done cheese_moved
unfolding set_rule_exe normalize_app_name ascii_lowercase nat_eq list_eq strip_prefix trim ends_with
move_cheese = refl

allowlist_test : paths (kernel_camera_allowlist home) ≡ codes "/bin/cheese" ∷ []
unfolding kernel_camera_allowlist nat_eq list_eq option_eq permission_eq allowlist_of
allowlist_test = refl

camera_sessions_example :
    (contains
        (paths (kernel_camera_allowlist_with_sessions (λ _. true) home))
        (codes "/bin/firefox")
      ≡ (contains (paths (kernel_camera_allowlist home)) (codes "/bin/firefox")
          || names_exe
              (λ rule. rule.camera == some Permission.while_in_use && true)
              (codes "/bin/firefox")
              home.rules))
    × Distinct (paths (kernel_camera_allowlist_with_sessions (λ _. true) home))
camera_sessions_example = camera_sessions_lem (λ _. true) home (codes "/bin/firefox")

abbrev video_call : PresetApp
video_call = record {
  name = codes "zoom";
  microphone = Permission.allow;
  camera = Permission.allow;
  monitor = Permission.deny;
  exe_candidates = codes "/a" ∷ codes "/b" ∷ [];
}

abbrev calls : Preset
calls = record { name = codes "calls"; description = codes "calls"; apps = video_call ∷ [] }

abbrev no_choices : MergeChoices
no_choices = record { microphone = none; camera = none; monitor = none }

abbrev take_allow : MergeChoices
take_allow = record no_choices { camera = some Permission.allow }

abbrev browser : AppRule
browser = record {
  app_name = codes "browser";
  microphone = none;
  camera = some Permission.deny;
  monitor = none;
  exe_path = none;
}

abbrev two_rules : Config
two_rules = record home { rules = browser ∷ cheese ∷ [] }

two_rules-IsTidy : IsTidy two_rules
unfolding normalize_app_name ascii_lowercase nat_eq list_eq strip_prefix trim ends_with option_eq
    permission_eq
two_rules-IsTidy = record {
  keys = (refl, (refl, tt));
  distinct = (refl, (refl, tt));
  cameras = (refl, (refl, tt));
}

abbrev one_rule : Config
one_rule = record home { rules = cheese ∷ [] }

abbrev settled_lines : List Line
settled_lines =
    (microphone, none, false) ∷ (camera, some Permission.allow, true) ∷ (monitor, none, false) ∷ []

one_rule_lem :
    merge_rules two_rules (codes "browser") (codes "cheese") take_allow
    ≡ merged one_rule settled_lines
unfolding merge_rules normalize_app_name ascii_lowercase nat_eq list_eq strip_prefix trim ends_with
    option_eq permission_eq
one_rule_lem = refl

merge_rules_example :
    (find_rule one_rule (codes "cheese") ≡ (
      if normalize_app_name (codes "browser") == normalize_app_name (codes "cheese")
      then none
      else if normalize_app_name (codes "cheese") == normalize_app_name (codes "cheese")
      then some (settled_rule browser cheese take_allow (some (codes "/bin/cheese")))
      else find_rule two_rules (codes "cheese")))
    × Decides browser cheese take_allow microphone
    × Decides browser cheese take_allow camera
    × Decides browser cheese take_allow monitor
    × (binary_conflict none (some (codes "/bin/cheese")) ≡ none)
unfolding normalize_app_name ascii_lowercase nat_eq list_eq strip_prefix trim ends_with
merge_rules_example =
    find_rule-merge_rules two_rules one_rule (codes "browser") (codes "cheese") (codes "cheese")
      take_allow settled_lines browser cheese two_rules-IsTidy refl refl one_rule_lem

abbrev first_rule : Config
first_rule = record default_config {
  rules = record (empty_rule (codes "cheese")) { camera = some Permission.allow } ∷ [];
}

first_edit : set_rule default_config (codes "Cheese") camera Permission.allow ≡ some first_rule
unfolding set_rule ascii_lowercase nat_eq list_eq option_eq category_eq permission_eq
    sanitize_rule_name strip_prefix trim ends_with
first_edit = refl

strip_annotations_ends_example :
    IsSettled (strip_annotations 12 (codes "cheese [x]"))
    × (strip_annotations 12 (codes "cheese [x]") ≡ strip_annotations 10 (codes "cheese [x]"))
unfolding nat_eq
strip_annotations_ends_example = strip_annotations_ends 12 (codes "cheese [x]") (ground arith)
