-- ===== src/StreamTracker/Events.antt =====
-- The event ring keeps the newest 500 events, and one prompt is out for an application and device.
use hwprivacy.Common.{
  ℕ, ◌+◌, ◌-◌, ◌%◌, ◌^◌, ◌≤◌, subst, ◌≡◌, refl, List, [], ◌∷◌, ◌++◌, arith, ◌==◌, nat_eq, list_eq,
  pair_eq, if◌then◌else◌, length, drop, leb, length-append, Bool-cases,
}
use hwprivacy.Common.Text.{Text}
use hwprivacy.Device.{DeviceCategory, category_eq}
use hwprivacy.Stream.{AccessEvent, AccessAction, denied, action_eq}
use hwprivacy.StreamTracker.{StreamTracker, log_event, recent_events}

length-drop_one {ℓ} : {A : Type ℓ} (xs : List A) → length (drop 1 xs) ≡ length xs - 1
length-drop_one [] = omega arith
length-drop_one (x ∷ xs) = omega arith

drop-append {ℓ} : {A : Type ℓ} (xs ys : List A) → drop (length xs) (xs ++ ys) ≡ ys
drop-append [] ys = refl
drop-append (x ∷ xs) ys = drop-append xs ys

-- The last entry of a list that ends in it.
drop-append_one :
    {A : Type 0} (xs : List A) (x : A) → drop (length (xs ++ x ∷ []) - 1) (xs ++ x ∷ []) ≡ x ∷ []
drop-append_one xs x =
    subst (λ n. drop n (xs ++ x ∷ []) ≡ x ∷ []) (omega (arith, length-append {0} xs (x ∷ [])))
      (drop-append xs (x ∷ []))

-- From a ring of at most 500 events, an event makes a ring of at most 500 that holds no fewer than
-- before, and the newest event is the one logged; a denial, and nothing else, adds one to the
-- count of blocked accesses, in 32 bits.
pub log_event_lem :
    (tracker : StreamTracker) (timestamp app_name : Text) (pid : ℕ) (category : DeviceCategory)
    (node_name : Text) (action : AccessAction)
    → length tracker.events ≤ 500
    → let after = log_event tracker timestamp app_name pid category node_name action in
      (length after.events ≤ 500)
      × (length tracker.events ≤ length after.events)
      × (recent_events after 1
          ≡ record {
            timestamp = timestamp;
            app_name = app_name;
            pid = pid;
            device_category = category;
            node_name = node_name;
            action = action;
          }
            ∷ [])
      × (after.blocked_count ≡ (
          if action == denied then (tracker.blocked_count + 1) % 2 ^ 32 else tracker.blocked_count))
unfolding log_event recent_events
log_event_lem tracker timestamp app_name pid category node_name action h =
    let event : AccessEvent = record {
      timestamp = timestamp;
      app_name = app_name;
      pid = pid;
      device_category = category;
      node_name = node_name;
      action = action;
    } in
    let kept : List AccessEvent =
      if leb 500 (length tracker.events) then drop 1 tracker.events else tracker.events in
    let grown = length-append {0} kept (event ∷ []) in
    let dropped = length-drop_one tracker.events in
    (
      ground (arith, Bool-cases (leb 500 (length tracker.events)), grown, dropped),
      ground (arith, Bool-cases (leb 500 (length tracker.events)), grown, dropped),
      drop-append_one kept event,
      refl,
    )
