-- ===== src/StreamTracker.antt =====
-- hwprivacy-daemon/src/stream_tracker.rs: live connections, sessions, prompts and the event ring.
-- An `Instant` is a number of nanoseconds on one clock, and the present is an argument, `now`. The
-- timestamp of an event is the text that the wall clock gives.
pub mod Events
pub mod Prompts
pub mod Sessions
use Prim.Native.Nat.{◌-◌}
use hwprivacy.Common.{
  ℕ, ◌+◌, ◌/◌, ◌%◌, ◌^◌, Bool, true, false, not, ◌&&◌, ◌||◌, Option, none, some, List, [], ◌∷◌,
  ◌++◌, Eq, ◌==◌, nat_eq, list_eq, pair_eq, if◌then◌else◌, any, contains, retain, map, length, drop,
  ltb, leb, Map, get, insert, remove, text_le, sort,
}
use hwprivacy.Common.Text.{Text, codes}
use hwprivacy.Device.{DeviceCategory, microphone, camera, monitor, category_eq}
use hwprivacy.Names.{Lowercase, normalize_app_name}
use hwprivacy.Config.{Permission}
use hwprivacy.Stream.{StreamInfo, ActiveConnection, AccessEvent, AccessAction, denied, action_eq}

-- `SessionState`, with the instant of the grant or of the first use.
pub data SessionState : Type 0 where
  awaiting_first_open : ℕ → SessionState
  open_since : ℕ → SessionState

-- `SessionState::granted_at`
abbrev pub granted_at : SessionState → ℕ
granted_at (awaiting_first_open t) = t
granted_at (open_since t) = t

abbrev pub SessionKey : Type 0
SessionKey = Text × DeviceCategory

pub record StreamTracker : Type 0 where
  pub active : Map ℕ ActiveConnection
  pub while_in_use : Map SessionKey SessionState
  pub events : List AccessEvent
  pub blocked_count : ℕ
  pub dismiss_cooldowns : Map SessionKey ℕ
  pub pending_prompts : List SessionKey

abbrev pub new_tracker : StreamTracker
new_tracker = record {
  active = [];
  while_in_use = [];
  events = [];
  blocked_count = 0;
  dismiss_cooldowns = [];
  pending_prompts = [];
}

-- `Instant::elapsed`, which is zero for an instant ahead of the clock.
abbrev pub elapsed : ℕ → ℕ → ℕ
elapsed now since = now - since

-- `Duration::as_secs`
abbrev pub as_secs : ℕ → ℕ
as_secs d = d / 1_000_000_000

unfoldable pub record_dismiss : StreamTracker → ℕ → Text → DeviceCategory → StreamTracker
record_dismiss tracker now app_name category = record tracker {
  dismiss_cooldowns = insert (app_name, category) now tracker.dismiss_cooldowns;
}

unfoldable pub is_in_cooldown : StreamTracker → ℕ → Text → DeviceCategory → ℕ → Bool
is_in_cooldown tracker now app_name category cooldown_secs =
    elim (get tracker.dismiss_cooldowns (app_name, category)) [
      | none ↦ false
      | some dismissed_at ↦ ltb (as_secs (elapsed now dismissed_at)) cooldown_secs
    ]

-- The ring: the oldest of 500 events goes before a new one comes.
unfoldable pub log_event :
    StreamTracker → Text → Text → ℕ → DeviceCategory → Text → AccessAction → StreamTracker
log_event tracker timestamp app_name pid category node_name action = record tracker {
  events =
      (if leb 500 (length tracker.events) then drop 1 tracker.events else tracker.events)
      ++ record {
        timestamp = timestamp;
        app_name = app_name;
        pid = pid;
        device_category = category;
        node_name = node_name;
        action = action;
      }
        ∷ [];
  blocked_count =
      if action == denied then (tracker.blocked_count + 1) % 2 ^ 32 else tracker.blocked_count;
}

-- `recent_events`: the last `n`.
unfoldable pub recent_events : StreamTracker → ℕ → List AccessEvent
recent_events tracker n = drop (length tracker.events - n) tracker.events

unfoldable pub add_connection :
    StreamTracker → ℕ → StreamInfo → Text → DeviceCategory → Permission → StreamTracker
add_connection tracker link_id stream device_node_name device_category permission = record tracker {
  active =
      insert link_id
        (record {
          stream = stream;
          device_node_name = device_node_name;
          device_category = device_category;
          permission = permission;
          link_id = some link_id;
          active = true;
        })
        tracker.active;
}

unfoldable pub remove_connection : StreamTracker → ℕ → StreamTracker
remove_connection tracker link_id = record tracker { active = remove link_id tracker.active }

unfoldable pub active_count : StreamTracker → ℕ
active_count tracker = length (retain (λ (_, c). c.active) tracker.active)

abbrev pub category_debug : DeviceCategory → Text
category_debug microphone = codes "Microphone"
category_debug camera = codes "Camera"
category_debug monitor = codes "Monitor"

-- The order of `live_sessions`: by application, then by the category's name.
abbrev pub session_le : Text × DeviceCategory × ℕ → Text × DeviceCategory × ℕ → Bool
session_le (a, c, _) (b, d, _) =
    if a == b then text_le (category_debug c) (category_debug d) else text_le a b

-- The `for` loop that drops the sessions that ended.
abbrev pub remove_all : List SessionKey → Map SessionKey SessionState → Map SessionKey SessionState
remove_all [] m = m
remove_all (k ∷ ks) m = remove_all ks (remove k m)

module _ ⦃lc : Lowercase⦄ where
  abbrev pub session_key : Text → DeviceCategory → SessionKey
  session_key app_name category = (normalize_app_name app_name, category)

  -- `HashSet::insert` says whether the pair is new.
  unfoldable pub try_begin_prompt : StreamTracker → Text → DeviceCategory → StreamTracker × Bool
  try_begin_prompt tracker app_name category =
      let key = session_key app_name category in
      if contains tracker.pending_prompts key
      then (tracker, false)
      else (record tracker { pending_prompts = key ∷ tracker.pending_prompts }, true)

  unfoldable pub end_prompt : StreamTracker → Text → DeviceCategory → StreamTracker
  end_prompt tracker app_name category = record tracker {
    pending_prompts =
        retain (λ key. not (key == session_key app_name category)) tracker.pending_prompts;
  }

  unfoldable pub prompt_pending : StreamTracker → Text → DeviceCategory → Bool
  prompt_pending tracker app_name category =
      contains tracker.pending_prompts (session_key app_name category)

  unfoldable pub begin_session : StreamTracker → ℕ → Text → DeviceCategory → StreamTracker
  begin_session tracker now app_name category = record tracker {
    while_in_use =
        insert (session_key app_name category) (awaiting_first_open now) tracker.while_in_use;
  }

  unfoldable pub mark_session_opened :
      StreamTracker → ℕ → Text → DeviceCategory → StreamTracker × Bool
  mark_session_opened tracker now app_name category =
      let key = session_key app_name category in
      let opened : StreamTracker = record tracker {
        while_in_use = insert key (open_since now) tracker.while_in_use;
      } in
      elim (get tracker.while_in_use key) [
        | none ↦ (tracker, false)
        | some state ↦ elim state [
          | awaiting_first_open _ ↦ (opened, true)
          | open_since _ ↦ (tracker, false)
        ]
      ]

  unfoldable pub refresh_session : StreamTracker → ℕ → Text → DeviceCategory → StreamTracker
  refresh_session tracker now app_name category =
      let key = session_key app_name category in
      let refreshed : StreamTracker = record tracker {
        while_in_use = insert key (open_since now) tracker.while_in_use;
      } in
      elim (get tracker.while_in_use key) [
        | none ↦ tracker
        | some state ↦ elim state [ awaiting_first_open _ ↦ tracker | open_since _ ↦ refreshed ]
      ]

  unfoldable pub has_active_link : StreamTracker → Text → DeviceCategory → Bool
  has_active_link tracker app_name category =
      any
        (λ (_, c).
          c.device_category == category
          && normalize_app_name c.stream.app_name == normalize_app_name app_name)
        tracker.active

  -- Whether the session of a key, in a state, is live.
  abbrev pub state_live : StreamTracker → ℕ → ℕ → SessionKey → SessionState → Bool
  state_live tracker now settle (app, category) (awaiting_first_open _) = true
  state_live tracker now settle (app, category) (open_since since) =
      has_active_link tracker app category || ltb (elapsed now since) settle

  unfoldable pub session_live : StreamTracker → ℕ → Text → DeviceCategory → ℕ → Bool
  session_live tracker now app_name category settle =
      let key = session_key app_name category in
      elim (get tracker.while_in_use key) [
        | none ↦ false
        | some state ↦ state_live tracker now settle key state
      ]

  unfoldable pub live_sessions : StreamTracker → ℕ → ℕ → List (Text × DeviceCategory × ℕ)
  live_sessions tracker now settle = sort session_le (
      map (λ ((app, category), state). (app, category, elapsed now (granted_at state)))
        (retain (λ (key, state). state_live tracker now settle key state) tracker.while_in_use))

  -- Whether `expire_sessions` ends the session of a key, in a state.
  abbrev pub state_ended : StreamTracker → ℕ → ℕ → ℕ → SessionKey → SessionState → Bool
  state_ended tracker now settle awaiting_open (app, category) (awaiting_first_open t) =
      ltb 0 awaiting_open && leb awaiting_open (elapsed now t)
  state_ended tracker now settle awaiting_open (app, category) (open_since since) =
      not (has_active_link tracker app category) && leb settle (elapsed now since)

  unfoldable pub expire_sessions : StreamTracker → ℕ → ℕ → ℕ → StreamTracker × List SessionKey
  expire_sessions tracker now settle awaiting_open =
      let ended =
        map (λ (key, _). key)
          (retain (λ (key, state). state_ended tracker now settle awaiting_open key state)
            tracker.while_in_use) in
      (record tracker { while_in_use = remove_all ended tracker.while_in_use }, ended)
