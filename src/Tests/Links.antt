-- ===== src/Tests/Links.antt =====
-- Links, the ledger and the decisions at concrete inputs.
use hwprivacy.Common.{
  ℕ, ◌≡◌, refl, true, false, ◌&&◌, ◌||◌, not, none, some, [], ◌∷◌, ◌==◌, nat_eq, list_eq, option_eq,
  pair_eq, Map, get, filter_map, contains,
}
use hwprivacy.Common.Text.{Text, codes, strip_prefix, trim, ends_with}
use hwprivacy.Device.{category_eq}
use hwprivacy.Names.{normalize_app_name}
use hwprivacy.Names.Ascii.{ascii_lowercase}
use hwprivacy.Config.{Permission, permission_eq, Config, is_guarded, default_config, empty_rule}
use hwprivacy.Config.Rules.{get_permission}
use hwprivacy.Graph.{NodeInfo, PwLink, GraphSnapshot}
use hwprivacy.PolicyEngine.{
  PolicyDecision, decision_eq, evaluate, LinkMatch, classify_link, node_to_stream_info,
}
use hwprivacy.PolicyEngine.Decide.{evaluate_lem, permission_for}
use hwprivacy.LinkAudit.{
  LinkKey, LinkLedger, decided, empty_ledger, reconcile, still_alive, verify_denial,
}
use hwprivacy.LinkAudit.Due.{pending-reconcile, due}
use hwprivacy.LinkAudit.Decided.{reconcile-IsDecided, reconcile_twice, IsDecided}
use hwprivacy.LinkAudit.Alive.{holds, verify_denial_lem}
use hwprivacy.Tests.{home, webcam, firefox_stream}

evaluate_example :
    ((evaluate home firefox_stream webcam true == PolicyDecision.allow) ≡ (
      not (is_guarded home.devices webcam.category)
      || permission_for home firefox_stream webcam == Permission.allow
      || permission_for home firefox_stream webcam == Permission.while_in_use && true))
    × ((evaluate home firefox_stream webcam true == PolicyDecision.deny) ≡ (
        is_guarded home.devices webcam.category
        && permission_for home firefox_stream webcam == Permission.deny))
evaluate_example = evaluate_lem home firefox_stream webcam true

-- Firefox may use the camera while its session lives, and is asked about otherwise.
evaluate_test :
    (evaluate home firefox_stream webcam true ≡ PolicyDecision.allow)
    × (evaluate home firefox_stream webcam false ≡ PolicyDecision.ask_user)
unfolding evaluate normalize_app_name ascii_lowercase nat_eq list_eq get_permission strip_prefix
    trim ends_with
evaluate_test = (refl, refl)

abbrev firefox_denied : Config
firefox_denied = record default_config {
  rules = record (empty_rule (codes "firefox")) { camera = some Permission.deny } ∷ [];
}

abbrev node : ℕ → Text → Text → NodeInfo
node id media_class node_name = record {
  id = id;
  media_class = media_class;
  node_name = node_name;
  app_name = codes "Firefox";
  pid = 1_200;
  media_name = [];
  declared_pid = 0;
  process_binary = [];
}

abbrev camera_node : NodeInfo
camera_node = node 40 (codes "Video/Source") (codes "v4l2_input")

abbrev browser_node : NodeInfo
browser_node = node 70 (codes "Stream/Input/Video") (codes "Firefox")

abbrev two_nodes : Map ℕ NodeInfo
two_nodes = (40, camera_node) ∷ (70, browser_node) ∷ []

abbrev camera_match : LinkMatch
camera_match = record { stream = node_to_stream_info browser_node; device = webcam }

abbrev camera_link : PwLink
camera_link = record {
  link_id = 90;
  serial = some 900;
  output_node = 40;
  output_port = 1;
  input_node = 70;
  input_port = 2;
}

abbrev graph : GraphSnapshot
graph = record { nodes = two_nodes; ports = []; links = camera_link ∷ [] }

pending-reconcile_example :
    (reconcile empty_ledger graph (90 ∷ []) (webcam ∷ [])).out.pending
    ≡ filter_map
        (λ l. due graph (90 ∷ []) (webcam ∷ []) (get empty_ledger.entries l.link_id) l)
        graph.links
pending-reconcile_example = pending-reconcile graph (90 ∷ []) (webcam ∷ []) empty_ledger (refl, tt)

-- Link 90 was decided with another serial, and link 91 is gone.
abbrev old_ledger : LinkLedger
old_ledger = record empty_ledger {
  entries =
      (90, record { serial = some 899; state = decided })
      ∷ (91, record { serial = none; state = decided })
      ∷ [];
}

reconcile-IsDecided_example :
    IsDecided (reconcile old_ledger graph [] (webcam ∷ [])).ledger camera_link
unfolding classify_link nat_eq list_eq category_eq get
reconcile-IsDecided_example =
    reconcile-IsDecided graph [] (webcam ∷ []) old_ledger [] [] camera_link camera_match (refl, tt)
      refl refl

reconcile_twice_example :
    (reconcile
      (reconcile old_ledger graph [] (webcam ∷ [])).ledger
      graph
      (90 ∷ [])
      (webcam ∷ [])).out.pending
    ≡ []
reconcile_twice_example = reconcile_twice graph (webcam ∷ []) old_ledger [] (90 ∷ []) (refl, tt)

-- A link that survives every attempt to destroy it is reported.
verify_denial_example :
    let key : LinkKey = (90, some 899) in
    contains (verify_denial (λ s. s) (λ s. still_alive s) (λ _ s. s) old_ledger (key ∷ [])).0 key
    ≡ (holds old_ledger key && (holds old_ledger key && contains (key ∷ []) key))
verify_denial_example =
    verify_denial_lem (λ s. s) (λ s. s) (λ _ s. s) old_ledger ((90, some 899) ∷ []) (90, some 899)
