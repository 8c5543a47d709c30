-- ===== src/LinkAudit.antt =====
-- hwprivacy-daemon/src/link_audit.rs: the ledger of links, from which the daemon decides. The
-- wording of a journal line is not modelled: a line is a value that says what it reports. The
-- counters are `u64` and wrap; the hash map's order of iteration only orders the first lines.
pub mod Reconcile
pub mod Decided
pub mod Alive
pub mod Due
use hwprivacy.Common.{
  ℕ, ◌+◌, ◌%◌, ◌^◌, Bool, true, false, not, ◌&&◌, ◌||◌, Option, none, some, List, [], ◌∷◌, ◌++◌, Eq,
  ◌==◌, nat_eq, option_eq, if◌then◌else◌, any, contains, filter_map, retain, map, Map, get, insert,
  retain_entries, contains_key, is_empty,
}
use hwprivacy.Device.{ProtectedDevice}
use hwprivacy.Graph.{PwLink, GraphSnapshot}
use hwprivacy.PolicyEngine.{LinkMatch, classify_link}
use hwprivacy.RuleMerge.{is_conflict}

-- `LinkKey`: an id is reused, and a serial is not.
abbrev pub LinkKey : Type 0
LinkKey = ℕ × Option ℕ

pub data DecideReason : Type 0 where
  new classified_late reused_id_no_removal not_reported_new : DecideReason

reason_dec : Discrete DecideReason
reason_dec = hlevel

instance unfoldable pub reason_eq : Eq DecideReason
unfolding reason_dec
reason_eq = record { dec = reason_dec }

pub record Pending : Type 0 where
  pub key : LinkKey
  pub link_match : LinkMatch
  pub reason : DecideReason

pub data LinkLine : Type 0 where
  ended_unknown : ℕ → Option ℕ → LinkLine
  not_protected_line : PwLink → LinkLine
  decision_line : PwLink → LinkMatch → DecideReason → LinkLine

-- `LinkLine::warn`
abbrev pub is_warning : LinkLine → Bool
is_warning (ended_unknown id serial) = false
is_warning (not_protected_line link) = false
is_warning (decision_line link m reason) = not (reason == new)

pub record Reconciled : Type 0 where
  pub pending : List Pending
  pub lines : List LinkLine

pub record LinkCounts : Type 0 where
  pub seen : ℕ
  pub protected : ℕ
  pub decided_late : ℕ
  pub denied_alive : ℕ

pub data EntryState : Type 0 where
  waiting not_protected decided : EntryState

state_dec : Discrete EntryState
state_dec = hlevel

instance unfoldable pub state_eq : Eq EntryState
unfolding state_dec
state_eq = record { dec = state_dec }

pub record Entry : Type 0 where
  pub serial : Option ℕ
  pub state : EntryState

pub record LinkLedger : Type 0 where
  pub entries : Map ℕ Entry
  pub counts : LinkCounts

abbrev pub empty_ledger : LinkLedger
empty_ledger = record {
  entries = [];
  counts = record { seen = 0; protected = 0; decided_late = 0; denied_alive = 0 };
}

-- `LinkLedger::forget`
abbrev pub forget : LinkLedger → LinkLedger
forget ledger = record ledger { entries = [] }

-- `counter += 1` on `u64`
abbrev pub increment : ℕ → ℕ
increment n = (n + 1) % 2 ^ 64

-- The state of the loop: the ledger and what was found so far.
pub record Run : Type 0 where
  pub ledger : LinkLedger
  pub out : Reconciled

abbrev pub is_live : List PwLink → ℕ → Bool
is_live links id = any (λ link. link.link_id == id) links

-- The line of an entry whose link is gone, if it never had one.
abbrev pub ended_line : ℕ × Entry → Option LinkLine
ended_line (id, entry) =
    if entry.state == waiting then some (ended_unknown id entry.serial) else none

unfoldable pub drop_ended : LinkLedger → List PwLink → Run
drop_ended ledger links = record {
  ledger = record ledger { entries = retain_entries (λ id _. is_live links id) ledger.entries };
  out = record {
    pending = [];
    lines = filter_map ended_line (retain (λ (id, _). not (is_live links id)) ledger.entries);
  };
}

-- Another serial holds the id than the one that was seen.
abbrev pub is_reused : Option Entry → Option ℕ → Bool
is_reused none serial = false
is_reused (some entry) serial = is_conflict entry.serial serial

abbrev pub prior_state : Option Entry → Option ℕ → Option EntryState
prior_state none serial = none
prior_state (some entry) serial = if is_conflict entry.serial serial then none else some entry.state

abbrev pub both_nodes_known : PwLink → GraphSnapshot → Bool
both_nodes_known link snapshot =
    contains_key snapshot.nodes link.output_node && contains_key snapshot.nodes link.input_node

unfoldable pub decide_reason : Bool → Bool → Bool → DecideReason
decide_reason reused first_sighting reported =
    if reused
    then reused_id_no_removal
    else if not first_sighting
    then classified_late
    else if reported
    then new
    else not_reported_new

abbrev pub classify : GraphSnapshot → List ProtectedDevice → PwLink → Option LinkMatch
classify snapshot devices link =
    classify_link link.output_node link.input_node snapshot.nodes devices

abbrev pub record_entry : LinkLedger → PwLink → EntryState → LinkLedger
record_entry ledger link state = record ledger {
  entries = insert link.link_id (record { serial = link.serial; state = state }) ledger.entries;
}

abbrev pub add_line : Reconciled → LinkLine → Reconciled
add_line out line = record out { lines = out.lines ++ line ∷ [] }

-- `if first_sighting { self.counts.seen += 1; }`
abbrev pub count_seen : LinkLedger → Bool → LinkLedger
count_seen ledger first_sighting =
    let counts = ledger.counts in
    if first_sighting
    then record ledger { counts = record counts { seen = increment counts.seen } }
    else ledger

abbrev pub count_protected : LinkLedger → DecideReason → LinkLedger
count_protected ledger reason =
    let counts = ledger.counts in
    record ledger {
      counts = record counts {
        protected = increment counts.protected;
        decided_late = if reason == new then counts.decided_late else increment counts.decided_late;
      };
    }

-- The link is on a protected device: it is handed out, and marked decided before it is decided.
unfoldable pub decide_link : PwLink → LinkMatch → DecideReason → Run → Run
decide_link link m reason run = record {
  ledger = record_entry (count_protected run.ledger reason) link decided;
  out = record {
    pending =
        run.out.pending
        ++ record { key = (link.link_id, link.serial); link_match = m; reason = reason } ∷ [];
    lines = run.out.lines ++ decision_line link m reason ∷ [];
  };
}

-- The link is on none that is known.
unfoldable pub pass_link : GraphSnapshot → Option EntryState → PwLink → Run → Run
pass_link snapshot prior link run =
    if prior == some not_protected
    then record run { ledger = record_entry run.ledger link not_protected }
    else if both_nodes_known link snapshot
    then record {
      ledger = record_entry run.ledger link not_protected;
      out = add_line run.out (not_protected_line link);
    }
    else record run { ledger = record_entry run.ledger link waiting }

-- One round of the loop over the links, for a link that is not decided.
unfoldable pub consider_link :
    GraphSnapshot → List ℕ → List ProtectedDevice → Bool → Option EntryState → PwLink → Run → Run
unfolding decide_link pass_link decide_reason
consider_link snapshot new_ids devices reused prior link run =
    let first_sighting = prior == none in
    let seen : Run = record run { ledger = count_seen run.ledger first_sighting } in
    elim (classify snapshot devices link) [
      | some m ↦
          decide_link link m (decide_reason reused first_sighting (contains new_ids link.link_id))
            seen
      | none ↦ pass_link snapshot prior link seen
    ]

unfoldable pub reconcile_link : GraphSnapshot → List ℕ → List ProtectedDevice → Run → PwLink → Run
unfolding consider_link
reconcile_link snapshot new_ids devices run link =
    let entry = get run.ledger.entries link.link_id in
    let prior = prior_state entry link.serial in
    if prior == some decided
    then run
    else consider_link snapshot new_ids devices (is_reused entry link.serial) prior link run

unfoldable pub reconcile_links :
    GraphSnapshot → List ℕ → List ProtectedDevice → Run → List PwLink → Run
unfolding reconcile_link
reconcile_links snapshot new_ids devices run [] = run
reconcile_links snapshot new_ids devices run (link ∷ links) =
    reconcile_links snapshot new_ids devices (reconcile_link snapshot new_ids devices run link)
      links

unfoldable pub reconcile : LinkLedger → GraphSnapshot → List ℕ → List ProtectedDevice → Run
unfolding reconcile_links drop_ended
reconcile ledger snapshot new_ids devices =
    reconcile_links snapshot new_ids devices (drop_ended ledger snapshot.links) snapshot.links

-- The entry of this very link, by id and serial.
abbrev pub is_same_link : LinkLedger → LinkKey → Bool
is_same_link ledger (id, serial) = elim (get ledger.entries id) [
  | none ↦ false
  | some entry ↦ entry.serial == serial
]

unfoldable pub still_alive : LinkLedger → List LinkKey → List LinkKey
still_alive ledger links = retain (is_same_link ledger) links

-- `verify_denial`. What `alive` and `destroy` see and change is a state `S`; waiting out the grace
-- time is the parameter `wait`, which stands for whatever happens meanwhile.
module _ {ℓ} {S : Type ℓ} (wait : S → S) (alive : S → List LinkKey → List LinkKey)
    (destroy : List ℕ → S → S) where
  unfoldable pub verify_denial : S → List LinkKey → List LinkKey × S
  verify_denial s links =
      let s₁ = wait s in
      let survivors = alive s₁ links in
      if is_empty survivors
      then (survivors, s₁)
      else (let s₂ = wait (destroy (map (λ (id, _). id) survivors) s₁) in (alive s₂ survivors, s₂))
