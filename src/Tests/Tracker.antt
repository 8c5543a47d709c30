-- ===== src/Tests/Tracker.antt =====
-- Sessions, prompts and the event ring at concrete inputs.
use hwprivacy.Common.{[], ◌∷◌, nat_eq, list_eq, option_eq, pair_eq}
use hwprivacy.Common.Text.{codes}
use hwprivacy.Device.{camera, category_eq}
use hwprivacy.Names.Ascii.{ascii_lowercase}
use hwprivacy.Stream.{AccessEvent, denied, action_eq}
use hwprivacy.StreamTracker.{StreamTracker, new_tracker, awaiting_first_open, open_since}

abbrev denial : AccessEvent
denial = record {
  timestamp = codes "now";
  app_name = codes "Firefox";
  pid = 1_200;
  device_category = camera;
  node_name = codes "v4l2_input";
  action = denied;
}

-- One session waits for its first use, and one was used at 5 seconds.
abbrev sessions : StreamTracker
sessions = record new_tracker {
  while_in_use =
      ((codes "zoom", camera), awaiting_first_open 0)
      ∷ ((codes "firefox", camera), open_since 5_000_000_000)
      ∷ [];
}
