-- ===== src/Tests/Bus.antt =====
-- Calls of the bus at concrete inputs: edits in order, a grant, a refused grant and a merge.
use hwprivacy.Bus.{Called, Answer, allow_camera_call, merge_rules_call}
use hwprivacy.Bus.Laws.{AreEdits}
use hwprivacy.Bus.Promises.{allow_camera_grants, allow_camera_forgets, merge_rules_call_keeps}
use hwprivacy.Bus.Refinement.{
  BusCall, set_rule_request, allow_camera_request, remove_rule_request, after_bus_calls,
  after_bus_calls-AreEdits,
}
use hwprivacy.Common.{
  ◌≡◌, refl, inr, Bool, true, false, none, some, List, [], ◌∷◌, nat_eq, list_eq, option_eq,
  contains,
}
use hwprivacy.Common.Text.{Text, codes, strip_prefix, trim, ends_with}
use hwprivacy.Config.{permission_eq, default_config}
use hwprivacy.Config.Invariant.{IsTidy}
use hwprivacy.Config.Kernel.{kernel_camera_allowlist}
use hwprivacy.Config.KernelLaws.{paths}
use hwprivacy.Config.Rules.{missing_path, find_rule, set_rule, set_rule_exe}
use hwprivacy.Daemon.{DaemonState, new_state}
use hwprivacy.Device.{category_eq}
use hwprivacy.Edits.{start}
use hwprivacy.Identity.{no_identities}
use hwprivacy.Names.{sanitize_rule_name, normalize_app_name}
use hwprivacy.Names.Ascii.{ascii_lowercase}
use hwprivacy.Tests.{home, cheese}

abbrev fresh : DaemonState
fresh = new_state default_config no_identities (record { by_key = []; dirty = false }) 0

abbrev at_work : DaemonState
at_work = new_state home no_identities (record { by_key = []; dirty = false }) 0

abbrev calls : List ((Text → Bool) × Bool × BusCall)
calls =
    (λ _. true, true, set_rule_request (codes "Cheese") (codes "mic") (codes "deny"))
    ∷ (λ _. true, false, allow_camera_request (codes "cheese") (codes "/bin/cheese"))
    ∷ (λ _. true, true, remove_rule_request (codes "vlc"))
    ∷ []

after_bus_calls-AreEdits_example :
    let (s', saved') = after_bus_calls (fresh, default_config) calls in
    AreEdits s' saved' × IsTidy s'.config × IsTidy saved'
after_bus_calls-AreEdits_example =
    after_bus_calls-AreEdits fresh default_config calls (tt, (tt, (tt, tt))) (start, start)

abbrev granted : Called Answer
granted = allow_camera_call (λ _. true) true at_work home (codes "cheese") (codes "/opt/cheese")

allow_camera_grants_example :
    (contains (paths (kernel_camera_allowlist granted.state.config)) (codes "/opt/cheese") ≡ true)
    × (granted.saved ≡ granted.state.config)
unfolding allow_camera_call set_rule set_rule_exe sanitize_rule_name normalize_app_name
    ascii_lowercase nat_eq list_eq strip_prefix trim ends_with category_eq permission_eq
allow_camera_grants_example =
    allow_camera_grants (λ _. true) true at_work home (codes "cheese") (codes "/opt/cheese") refl
      refl refl

abbrev refused : Called Answer
refused = allow_camera_call (λ _. false) true at_work home (codes "cheese") (codes "/opt/cheese")

allow_camera_forgets_example :
    (find_rule refused.state.config (codes "cheese") ≡ none) × (refused.saved ≡ home)
unfolding allow_camera_call set_rule set_rule_exe sanitize_rule_name normalize_app_name
    ascii_lowercase nat_eq list_eq strip_prefix trim ends_with category_eq permission_eq
allow_camera_forgets_example =
    allow_camera_forgets (λ _. false) true at_work home (codes "cheese") (codes "/opt/cheese")
      missing_path refl

-- The rule was there.
rule_test : find_rule home (codes "cheese") ≡ some cheese
unfolding normalize_app_name ascii_lowercase nat_eq list_eq strip_prefix trim ends_with
rule_test = refl

merge_rules_call_keeps_example :
    let c =
      merge_rules_call
        (λ _. true)
        true
        at_work
        home
        (codes "cheese")
        (codes "firefox")
        []
        (codes "deny")
        []
        false in
    (c.state ≡ at_work) × (c.saved ≡ home) × (c.effects ≡ [])
merge_rules_call_keeps_example =
    merge_rules_call_keeps (λ _. true) true at_work home (codes "cheese") (codes "firefox") []
      (codes "deny") [] false (inr refl)
