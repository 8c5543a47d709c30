-- ===== src/LinkAudit/Due.antt =====
-- Which links an update of the graph hands out to be decided, and why.
use hwprivacy.Common.{
  ℕ, ◌≡◌, refl, sym, ap, ◌∙◌, inl, inr, Bool, true, false, Option, none, some, List, ◌==◌,
  filter_map_congr, All-map, nat_eq, option_eq, if◌then◌else◌, contains, filter_map, get,
  Option-cases, Bool-cases,
}
use hwprivacy.Device.{ProtectedDevice}
use hwprivacy.Graph.{PwLink, GraphSnapshot}
use hwprivacy.Common.Options.{map_some}
use hwprivacy.LinkAudit.{
  DecideReason, new, classified_late, reused_id_no_removal, not_reported_new, Pending, Entry,
  EntryState, decided, not_protected, waiting, state_eq, LinkLedger, is_reused, prior_state,
  decide_reason, classify, reconcile,
}
use hwprivacy.LinkAudit.Reconcile.{DistinctIds, pending_of, All-live, pending_of-reconcile}

-- What the ledger's entry for an id says of a link: there is none, it is of a link with another serial,
-- or it is of this link, in a state.
pub data Sighting : Type 0 where
  first_seen other_link : Sighting
  seen_as : EntryState → Sighting

abbrev pub sighting_by : EntryState → Option ℕ → Option ℕ → Sighting
sighting_by state none b = seen_as state
sighting_by state (some a) none = seen_as state
sighting_by state (some a) (some b) = if a == b then seen_as state else other_link

abbrev pub sighting : Option Entry → Option ℕ → Sighting
sighting none serial = first_seen
sighting (some entry) serial = sighting_by entry.state entry.serial serial

-- The reason to hand out a link on a protected device, if it is to be, and whether it was reported new.
abbrev pub due_reason : Sighting → Bool → Option DecideReason
due_reason first_seen true = some new
due_reason first_seen false = some not_reported_new
due_reason other_link reported = some reused_id_no_removal
due_reason (seen_as waiting) reported = some classified_late
due_reason (seen_as not_protected) reported = some classified_late
due_reason (seen_as decided) reported = none

abbrev reason_for : Option Entry → Option ℕ → Bool → Option DecideReason
reason_for entry serial reported =
    let prior = prior_state entry serial in
    if prior == some decided
    then none
    else some (decide_reason (is_reused entry serial) (prior == none) reported)

seen_reason :
    (state : EntryState) (reported : Bool)
    → (if some state == some decided
        then none
        else some (decide_reason false (some state == none) reported))
      ≡ due_reason (seen_as state) reported
unfolding decide_reason state_eq option_eq
seen_reason waiting reported = refl
seen_reason not_protected reported = refl
seen_reason decided reported = refl

due_reason_lem :
    (entry : Option Entry) (serial : Option ℕ) (reported : Bool)
    → reason_for entry serial reported ≡ due_reason (sighting entry serial) reported
unfolding decide_reason state_eq option_eq
due_reason_lem none serial true = refl
due_reason_lem none serial false = refl
due_reason_lem (some entry) serial reported = reason_by entry.state entry.serial serial
  where
    reason_by :
        (state : EntryState) (a b : Option ℕ)
        → reason_for (some (record { serial = a; state = state })) b reported
          ≡ due_reason (sighting_by state a b) reported
    reason_by state none b = seen_reason state reported
    reason_by state (some a) none = seen_reason state reported
    reason_by state (some a) (some b) = elim (Bool-cases (a == b)) [
      | inl e ↦ rw e (seen_reason state reported)
      | inr e ↦ rw e
    ]

-- A function of a reason that is there or not.
on_reason :
    (f : Option DecideReason → Option Pending) (stop : Bool) (why : DecideReason)
    {p : Option Pending}
    → p ≡ f (some why)
    → f none ≡ none
    → (if stop then none else p) ≡ f (if stop then none else some why)
on_reason f true why h e = sym e
on_reason f false why h e = h

module _ (snapshot : GraphSnapshot) (new_ids : List ℕ) (devices : List ProtectedDevice) where
  -- What should be handed out of a link, from its entry before the update.
  abbrev pub due : Option Entry → PwLink → Option Pending
  due entry link = elim (due_reason (sighting entry link.serial) (contains new_ids link.link_id)) [
    | none ↦ none
    | some why ↦
        map_some (classify snapshot devices link)
          (λ m. record { key = (link.link_id, link.serial); link_match = m; reason = why })
  ]

  pending_of-due :
      (entry : Option Entry) (link : PwLink)
      → pending_of snapshot new_ids devices entry link ≡ due entry link
  pending_of-due entry link =
      let prior = prior_state entry link.serial in
      let reported = contains new_ids link.link_id in
      let why = decide_reason (is_reused entry link.serial) (prior == none) reported in
      let by_reason : Option DecideReason → Option Pending = λ r. elim r [
        | none ↦ none
        | some why ↦
            map_some (classify snapshot devices link)
              (λ m. record { key = (link.link_id, link.serial); link_match = m; reason = why })
      ] in
      on_reason by_reason (prior == some decided) why
        (elim (Option-cases (classify snapshot devices link)) [ inl e ↦ rw e | inr (m, e) ↦ rw e ])
        refl
      ∙ ap by_reason (due_reason_lem entry link.serial reported)

  -- In a graph whose links have distinct identifiers, what an update hands out to be decided is, link by
  -- link and in order, each link on a protected device that was not decided, with its match. The
  -- reason is that of a reused id where the former entry has another serial than the link, that of a
  -- late one where the entry is of this link, and without an entry it is new or, if the graph did not
  -- report it so, not reported.
  pub pending-reconcile :
      (ledger : LinkLedger)
      → DistinctIds snapshot.links
      → (reconcile ledger snapshot new_ids devices).out.pending
        ≡ filter_map (λ l. due (get ledger.entries l.link_id) l) snapshot.links
  pending-reconcile ledger d =
      pending_of-reconcile snapshot new_ids devices ledger d
      ∙ filter_map_congr _ _ snapshot.links (
          All-map (λ l _. pending_of-due (get ledger.entries l.link_id) l) snapshot.links
            (All-live snapshot new_ids devices snapshot.links))
