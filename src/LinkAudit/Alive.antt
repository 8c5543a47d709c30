-- ===== src/LinkAudit/Alive.antt =====
-- Which denied links are still there, and what is reported as not stopped.
use hwprivacy.Common.{
  ℕ, ◌≡◌, refl, ap, ◌∙◌, Bool, true, false, ◌&&◌, Option, none, some, get, ◌==◌, ==→≡, ==_refl,
  List, [], ◌∷◌, arith, nat_eq, option_eq, pair_eq, contains, contains-retain, retain, map,
  is_empty, Bool-cases, inl, inr,
}
use hwprivacy.Common.Options.{map_some}
use hwprivacy.LinkAudit.{LinkKey, Entry, LinkLedger, is_same_link, still_alive, verify_denial}

empty_contains :
    (links : List LinkKey) (key : LinkKey) → is_empty links ≡ true → contains links key ≡ false
empty_contains [] key h = refl
empty_contains (l ∷ links) key h = cc

-- The serial that the ledger has for an id.
abbrev pub serial_at : LinkLedger → ℕ → Option (Option ℕ)
serial_at ledger id = map_some (get ledger.entries id) (λ (entry : Entry). entry.serial)

-- The link is there under its id and its serial.
abbrev pub holds : LinkLedger → LinkKey → Bool
holds ledger (id, serial) = serial_at ledger id == some serial

some_eq : (a b : Option ℕ) → (a == b) ≡ (some a == some b)
some_eq a b = ground (
  arith,
  ==→≡ a b,
  ==_refl {A = Option (Option ℕ)} (some b),
  ==_refl a,
  ==→≡ {A = Option (Option ℕ)} (some a) (some b),
)

serial_of_entry :
    (found : Option Entry) (serial : Option ℕ)
    → (elim found [ none ↦ false | some entry ↦ entry.serial == serial ])
      ≡ (map_some found (λ (entry : Entry). entry.serial) == some serial)
serial_of_entry none serial = ground (arith, ==→≡ {A = Option (Option ℕ)} none (some serial))
serial_of_entry (some entry) serial = some_eq entry.serial serial

same-holds : (ledger : LinkLedger) (key : LinkKey) → is_same_link ledger key ≡ holds ledger key
same-holds ledger (id, serial) = serial_of_entry (get ledger.entries id) serial

contains-verify_denial :
    {S : Type 0} (wait : S → S) (ledger_of : S → LinkLedger) (destroy : List ℕ → S → S) (s : S)
    (links : List LinkKey) (key : LinkKey)
    → let survivors = still_alive (ledger_of (wait s)) links in
      contains (verify_denial wait (λ t. still_alive (ledger_of t)) destroy s links).0 key ≡ (
        is_same_link (ledger_of (wait (destroy (map (λ (id, _). id) survivors) (wait s)))) key
        && (is_same_link (ledger_of (wait s)) key && contains links key))
unfolding verify_denial still_alive
contains-verify_denial wait ledger_of destroy s links key =
    elim (Bool-cases (is_empty (still_alive (ledger_of (wait s)) links))) [
      | inl e ↦ ground (
        arith,
        empty_contains (retain (is_same_link (ledger_of (wait s))) links) key,
        contains-retain (is_same_link (ledger_of (wait s))) links key,
      )
      | inr e ↦ rw e (
          rw (contains-retain _ (retain (is_same_link (ledger_of (wait s))) links) key)
            (rw (contains-retain (is_same_link (ledger_of (wait s))) links key)))
    ]

-- A denied link is reported as not stopped exactly when it was asked about, was there under its id
-- and serial after the first wait, and was still there after the survivors had been destroyed
-- once more and the second wait. `ledger_of` is the ledger in the daemon's state.
pub verify_denial_lem :
    {S : Type 0} (wait : S → S) (ledger_of : S → LinkLedger) (destroy : List ℕ → S → S) (s : S)
    (links : List LinkKey) (key : LinkKey)
    → let survivors = still_alive (ledger_of (wait s)) links in
      contains (verify_denial wait (λ t. still_alive (ledger_of t)) destroy s links).0 key ≡ (
        holds (ledger_of (wait (destroy (map (λ (id, _). id) survivors) (wait s)))) key
        && (holds (ledger_of (wait s)) key && contains links key))
verify_denial_lem wait ledger_of destroy s links key =
    let survivors = still_alive (ledger_of (wait s)) links in
    let last = ledger_of (wait (destroy (map (λ (id, _). id) survivors) (wait s))) in
    contains-verify_denial wait ledger_of destroy s links key
    ∙ ap (λ b. b && (is_same_link (ledger_of (wait s)) key && contains links key))
        (same-holds last key)
    ∙ ap (λ b. holds last key && (b && contains links key)) (same-holds (ledger_of (wait s)) key)
