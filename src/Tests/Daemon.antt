-- ===== src/Tests/Daemon.antt =====
-- The loop of the daemon at concrete inputs: Firefox opens the camera.
use hwprivacy.Common.{
  ℕ, ◌≡◌, refl, true, false, ◌||◌, Option, none, some, [], ◌∷◌, nat_eq, list_eq, pair_eq, option_eq,
  if◌then◌else◌, contains, ◌≤◌, List, length, get, insert, retain_entries,
}
use hwprivacy.Common.Text.{Text, codes, strip_prefix, trim, ends_with}
use hwprivacy.Config.{Config, permission_eq, while_in_use, deny}
use hwprivacy.Config.Rules.{set_rule}
use hwprivacy.Daemon.{DaemonState, Moment, new_state}
use hwprivacy.Daemon.Asking.{
  nobody, asks, asked_already, must_ask, handle_group-asks, answer_prompt_lem,
}
use hwprivacy.Daemon.BlockAll.{destroyed-handle_update}
use hwprivacy.Daemon.Enforce.{handle_group, decision_of}
use hwprivacy.Daemon.Grouped.{is_about, links_about, ids_about, groups_about, group_links_lem}
use hwprivacy.Daemon.Groups.{LinkGroup, group_links}
use hwprivacy.Daemon.Loop.{handle_update, answer_prompt, reconcile_update}
use hwprivacy.Daemon.Safety.{destroyed, must_destroy, destroyed-handle_group}
use hwprivacy.Daemon.Sessions.{decision-answer_prompt}
use hwprivacy.Device.{camera, microphone, category_eq}
use hwprivacy.Graph.{PwLink, NodeInfo}
use hwprivacy.Graph.Splitter.{GraphUpdate}
use hwprivacy.Identity.{no_identities}
use hwprivacy.LinkAudit.{Pending, DecideReason, reconcile}
use hwprivacy.Names.{sanitize_rule_name, normalize_app_name}
use hwprivacy.Names.Ascii.{ascii_lowercase}
use hwprivacy.PolicyEngine.{LinkMatch, decide, node_to_stream_info, classify_link}
use hwprivacy.Prompt.{chosen, dismissed, prompt_failed}
use hwprivacy.Common.Options.{unwrap_or}
use hwprivacy.StreamTracker.{prompt_pending}
use hwprivacy.Tests.{home, firefox, cheese, webcam, headset, firefox_stream}

abbrev pub start : Moment
start = record { now = 5_000_000_000; stamp = codes "now"; can_write = true }

abbrev later : Moment
later = record { now = 9_000_000_000; stamp = codes "later"; can_write = true }

abbrev pub at_home : DaemonState
at_home = new_state home no_identities (record { by_key = []; dirty = false }) 0

abbrev with_camera : LinkMatch
with_camera = record { stream = firefox_stream; device = webcam }

abbrev with_microphone : LinkMatch
with_microphone = record { stream = firefox_stream; device = headset }

abbrev camera_group : LinkGroup
camera_group = record { link_ids = 90 ∷ []; m = with_camera }

destroyed-handle_group_example :
    destroyed (handle_group start nobody at_home [] camera_group).effects
    ≡ (if must_destroy start at_home camera_group then 90 ∷ [] else [])
destroyed-handle_group_example = destroyed-handle_group start nobody at_home [] camera_group

handle_group-asks_example :
    (asks (handle_group start nobody at_home [] camera_group) ≡ must_ask start at_home camera_group)
    × (asked_already (handle_group start nobody at_home [] camera_group).state camera_group
        ≡ (asked_already at_home camera_group || must_ask start at_home camera_group))
handle_group-asks_example = handle_group-asks start at_home [] camera_group

answer_prompt_example :
    (prompt_pending
        (answer_prompt start at_home (codes "Firefox") camera (chosen while_in_use)).state.tracker
        (codes "Firefox")
        camera
      ≡ false)
    × ((answer_prompt start at_home (codes "Firefox") camera (chosen deny)).state.config
        ≡ unwrap_or (set_rule home (codes "Firefox") camera deny) home)
    × ((answer_prompt start at_home (codes "Firefox") camera dismissed).state.config ≡ home)
    × ((answer_prompt start at_home (codes "Firefox") camera (prompt_failed [])).state.config
        ≡ home)
answer_prompt_example =
    answer_prompt_lem start at_home (codes "Firefox") camera (chosen while_in_use) deny []

abbrev three_links : List (ℕ × LinkMatch)
three_links = (90, with_camera) ∷ (91, with_microphone) ∷ (92, with_camera) ∷ []

group_links_example :
    let test = is_about camera webcam.node_name firefox_stream.node_id in
    (length (groups_about test (group_links three_links)) ≤ 1)
    × (links_about test (group_links three_links) ≡ ids_about test three_links)
group_links_example = group_links_lem three_links camera webcam.node_name firefox_stream.node_id

abbrev microphone_group : LinkGroup
microphone_group = record { link_ids = 91 ∷ []; m = with_microphone }

abbrev session_rule : Config
session_rule = record home {
  rules = record firefox { microphone = some while_in_use } ∷ cheese ∷ [];
}

decision-answer_prompt_example :
    decision_of later
      (answer_prompt start at_home (codes "Firefox") microphone (chosen while_in_use)).state
      microphone_group
    ≡ decide while_in_use true
unfolding set_rule sanitize_rule_name normalize_app_name ascii_lowercase nat_eq list_eq category_eq
    permission_eq strip_prefix trim ends_with
decision-answer_prompt_example =
    decision-answer_prompt start later at_home microphone_group while_in_use session_rule refl refl
      refl

-- Everything is blocked.
abbrev blocked : DaemonState
blocked = record at_home { block_all = true; devices = webcam ∷ [] }

abbrev node : ℕ → Text → Text → NodeInfo
node id media_class node_name = record {
  id = id;
  media_class = media_class;
  node_name = node_name;
  app_name = codes "Firefox";
  pid = 1_200;
  media_name = [];
  declared_pid = 0;
  process_binary = [];
}

abbrev browser_node : NodeInfo
browser_node = node 70 (codes "Stream/Input/Video") (codes "Firefox")

abbrev camera_link : PwLink
camera_link = record {
  link_id = 90;
  serial = some 900;
  output_node = 40;
  output_port = 1;
  input_node = 70;
  input_port = 2;
}

abbrev opened : GraphUpdate
opened = record {
  seed = true;
  snapshot = record {
    nodes = (40, node 40 (codes "Video/Source") (codes "v4l2_input")) ∷ (70, browser_node) ∷ [];
    ports = [];
    links = camera_link ∷ [];
  };
  new_link_ids = 90 ∷ [];
  link_ids = 90 ∷ [];
  node_ids = 40 ∷ 70 ∷ [];
}

abbrev handed_out : Pending
handed_out = record {
  key = (90, some 900);
  link_match = record { stream = node_to_stream_info browser_node; device = webcam };
  reason = DecideReason.new;
}

abbrev no_executable : ℕ → Option Text
no_executable pid = none

destroyed-handle_update_example :
    contains (destroyed (handle_update start nobody no_executable blocked opened).effects) 90 ≡ true
unfolding reconcile_update reconcile classify_link nat_eq list_eq category_eq get option_eq
    retain_entries insert
destroyed-handle_update_example =
    destroyed-handle_update start nobody home.devices (λ p s b. b) no_executable blocked opened []
      [] handed_out (refl, refl) refl refl
