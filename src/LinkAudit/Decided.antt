-- ===== src/LinkAudit/Decided.antt =====
-- What the ledger holds after an update: every live link on a protected device is decided, and no
-- link that is gone is kept.
use hwprivacy.Common.{
  ℕ, ◌≡◌, refl, sym, ap, subst, ◌∙◌, inl, inr, true, false, Option, none, some, List, [], ◌∷◌, ◌++◌,
  arith, ◌==◌, ==_refl, ==→≡, All-middle, filter_map-cons_none, nat_eq, option_eq, if◌then◌else◌,
  filter_map, get, get-insert, All, Option-cases, Bool-cases,
}
use mathlib.Core.Option.{some-injective, none-ne-some}
use hwprivacy.RuleMerge.{is_conflict}
use hwprivacy.Device.{ProtectedDevice}
use hwprivacy.Graph.{PwLink, GraphSnapshot}
use hwprivacy.PolicyEngine.{LinkMatch}
use hwprivacy.LinkAudit.{
  Entry, EntryState, decided, state_eq, LinkLedger, Run, is_live, prior_state, classify,
  reconcile_link, reconcile_links, drop_ended, reconcile,
}
use hwprivacy.LinkAudit.Reconcile.{
  DistinctIds, is_conflict_self, step, steps, state_after, pending_of, entries-consider_link,
  get-reconcile_links, get-drop_ended, pending_of-reconcile,
}

-- Two serials that do not tell two links apart: they are equal, or one is not known.
abbrev pub MayBeSame : Option ℕ → Option ℕ → Type 0
MayBeSame none b = Unit
MayBeSame (some a) none = Unit
MayBeSame (some a) (some b) = a ≡ b

-- The ledger has the link's id as decided, for this very link.
abbrev pub IsDecided : LinkLedger → PwLink → Type 0
IsDecided ledger link =
    (entry : Entry) × (get ledger.entries link.link_id ≡ some entry)
    × (entry.state ≡ decided)
    × MayBeSame entry.serial link.serial

MayBeSame-is_conflict : (a b : Option ℕ) → is_conflict a b ≡ false → MayBeSame a b
MayBeSame-is_conflict none b h = tt
MayBeSame-is_conflict (some a) none h = tt
MayBeSame-is_conflict (some a) (some b) h = ==→≡ a b (ground (arith, h))

decided_entry :
    (found : Option Entry) (serial : Option ℕ)
    → prior_state found serial ≡ some decided
    → (entry : Entry) × (found ≡ some entry)
      × (entry.state ≡ decided)
      × MayBeSame entry.serial serial
decided_entry none serial h = absurd (none-ne-some decided h)
decided_entry (some entry) serial h = elim (Bool-cases (is_conflict entry.serial serial)) [
  | inl e ↦ absurd (none-ne-some decided (ground (arith, h, e)))
  | inr e ↦ (
    entry,
    refl,
    some-injective entry.state decided (ground (arith, h, e)),
    MayBeSame-is_conflict entry.serial serial e,
  )
]

module _ (snapshot : GraphSnapshot) (new_ids : List ℕ) (devices : List ProtectedDevice) where
  abbrev CountsDecided : LinkLedger → PwLink → Type 0
  CountsDecided ledger link =
      prior_state (get ledger.entries link.link_id) link.serial ≡ some decided

  -- Where there is a match, the link is decided.
  abbrev DecidesMatch : LinkLedger → PwLink → Type 0
  DecidesMatch ledger link =
      (m : LinkMatch) → classify snapshot devices link ≡ some m → CountsDecided ledger link

  state_after_match :
      (prior : Option EntryState) (link : PwLink) (m : LinkMatch)
      → classify snapshot devices link ≡ some m
      → state_after snapshot new_ids devices prior link ≡ decided
  state_after_match prior link m h = ground arith

  step-DecidesMatch :
      (run : Run) (link : PwLink)
      → DecidesMatch (step snapshot new_ids devices run link).ledger link
  unfolding reconcile_link
  step-DecidesMatch run link m h =
      elim (Bool-cases
        (prior_state (get run.ledger.entries link.link_id) link.serial == some decided)) [
          | inl e ↦ rw e (==→≡ _ _ e)
          | inr e ↦
              rw
                (
                  e,
                  entries-consider_link snapshot new_ids devices,
                  get-insert,
                  ==_refl,
                  is_conflict_self,
                )
                (ap some (state_after_match _ link m h))
        ]

  steps-DecidesMatch :
      (run : Run) (links : List PwLink)
      → DistinctIds links
      → All (DecidesMatch (steps snapshot new_ids devices run links).ledger) links
  unfolding reconcile_links
  steps-DecidesMatch run [] d = tt
  steps-DecidesMatch run (link ∷ links) (fresh, d) = (
    (λ m h.
        subst (λ entry. prior_state entry link.serial ≡ some decided)
          (sym (
            get-reconcile_links snapshot new_ids devices (step snapshot new_ids devices run link)
              links link.link_id fresh))
          (step-DecidesMatch run link m h)),
    steps-DecidesMatch (step snapshot new_ids devices run link) links d,
  )

  -- After an update with a graph whose links have distinct identifiers, the ledger has each of its links
  -- that is on a protected device as decided, under its id and with no other serial, whatever the
  -- ledger held before and whether or not the graph reported the link as new.
  pub reconcile-IsDecided :
      (ledger : LinkLedger) (before after : List PwLink) (link : PwLink) (m : LinkMatch)
      → DistinctIds snapshot.links
      → snapshot.links ≡ before ++ link ∷ after
      → classify snapshot devices link ≡ some m
      → IsDecided (reconcile ledger snapshot new_ids devices).ledger link
  unfolding reconcile
  reconcile-IsDecided ledger before after link m d e h =
      let run = steps snapshot new_ids devices (drop_ended ledger snapshot.links) snapshot.links in
      decided_entry (get run.ledger.entries link.link_id) link.serial (
        All-middle (DecidesMatch run.ledger) before after link
          (subst (All (DecidesMatch run.ledger)) e
            (steps-DecidesMatch (drop_ended ledger snapshot.links) snapshot.links d))
          m h)

  nothing_pending :
      (ledger : LinkLedger) (links : List PwLink)
      → All (DecidesMatch ledger) links
      → filter_map (λ l. pending_of snapshot new_ids devices (get ledger.entries l.link_id) l) links
        ≡ []
  nothing_pending ledger [] h = refl
  nothing_pending ledger (link ∷ links) (decides, h) =
      filter_map-cons_none
        (λ l. pending_of snapshot new_ids devices (get ledger.entries l.link_id) l) link links
        none_pending
      ∙ nothing_pending ledger links h
    where
      none_pending :
          pending_of snapshot new_ids devices (get ledger.entries link.link_id) link ≡ none
      none_pending = elim (Option-cases (classify snapshot devices link)) [
        | inl e ↦ ground (arith, e)
        | inr (m, e) ↦ rw (decides m e) (rw (==_refl {A = Option EntryState} (some decided)))
      ]

  -- After an update the ledger has entries only for identifiers of live links.
  pub reconcile-live :
      (ledger : LinkLedger) (id : ℕ) (entry : Entry)
      → get (reconcile ledger snapshot new_ids devices).ledger.entries id ≡ some entry
      → is_live snapshot.links id ≡ true
  unfolding reconcile
  reconcile-live ledger id entry h = elim (Bool-cases (is_live snapshot.links id)) [
    | inl e ↦ e
    | inr e ↦ absurd (
        cc (
          h,
          get-reconcile_links snapshot new_ids devices (drop_ended ledger snapshot.links)
              snapshot.links id e,
          get-drop_ended snapshot new_ids devices ledger snapshot.links id
              ∙ ap (λ b. if b then get ledger.entries id else none) e,
        ))
  ]

-- In a graph whose links have distinct identifiers, a second update with the same graph and devices
-- hands out nothing: no link is decided twice.
pub reconcile_twice :
    (snapshot : GraphSnapshot) (devices : List ProtectedDevice) (ledger : LinkLedger)
    (new_ids new_ids' : List ℕ)
    → DistinctIds snapshot.links
    → (reconcile
        (reconcile ledger snapshot new_ids devices).ledger
        snapshot
        new_ids'
        devices).out.pending
      ≡ []
unfolding reconcile
reconcile_twice snapshot devices ledger new_ids new_ids' d =
    pending_of-reconcile snapshot new_ids' devices
      (reconcile ledger snapshot new_ids devices).ledger d
    ∙ nothing_pending snapshot new_ids' devices (reconcile ledger snapshot new_ids devices).ledger
        snapshot.links
        (steps-DecidesMatch snapshot new_ids devices (drop_ended ledger snapshot.links)
          snapshot.links d)
