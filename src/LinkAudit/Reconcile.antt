-- ===== src/LinkAudit/Reconcile.antt =====
-- What one graph update does to the ledger, link by link. The ids of a snapshot are distinct, since
-- the graph keeps its links in a map by id.
use mathlib.Core.List.{append-nil, append_assoc}
use hwprivacy.Common.{
  ℕ, ◌≡◌, refl, sym, ap, ◌∙◌, inl, inr, Bool, true, false, Option, none, some, List, [], ◌∷◌, ◌++◌,
  arith, ◌==◌, ==_refl, filter_map_congr, filter_map-cons_none, filter_map-cons_some, All-map,
  nat_eq, option_eq, if◌then◌else◌, contains, filter_map, get, insert, get-insert, get-retain_keys,
  All, Option-cases, Bool-cases,
}
use hwprivacy.Device.{ProtectedDevice}
use hwprivacy.Graph.{PwLink, GraphSnapshot}
use hwprivacy.RuleMerge.{is_conflict}
use hwprivacy.LinkAudit.{
  Pending, Entry, EntryState, decided, not_protected, waiting, state_eq, LinkLedger, Run, is_live,
  is_reused, prior_state, decide_reason, classify, both_nodes_known, consider_link, reconcile_link,
  reconcile_links, drop_ended, reconcile,
}

pub is_conflict_self : (serial : Option ℕ) → is_conflict serial serial ≡ false
is_conflict_self none = refl
is_conflict_self (some n) = rw (==_refl n)

-- No two links of the list have one id.
abbrev pub DistinctIds : List PwLink → Type 0
DistinctIds [] = Unit
DistinctIds (link ∷ links) = (is_live links link.link_id ≡ false) × DistinctIds links

module _ (snapshot : GraphSnapshot) (new_ids : List ℕ) (devices : List ProtectedDevice) where
  -- What one link should be handed out as, from its entry before the update.
  abbrev pub pending_of : Option Entry → PwLink → Option Pending
  pending_of entry link =
      let prior = prior_state entry link.serial in
      if prior == some decided then none else elim (classify snapshot devices link) [
        | none ↦ none
        | some m ↦ some (record {
          key = (link.link_id, link.serial);
          link_match = m;
          reason =
              decide_reason (is_reused entry link.serial) (prior == none)
                (contains new_ids link.link_id);
        })
      ]

  abbrev pub step : Run → PwLink → Run
  step = reconcile_link snapshot new_ids devices

  -- The state that a link which is not decided ends a round in.
  abbrev pub state_after : Option EntryState → PwLink → EntryState
  state_after prior link = elim (classify snapshot devices link) [
    | some _ ↦ decided
    | none ↦
        if prior == some not_protected
        then not_protected
        else if both_nodes_known link snapshot
        then not_protected
        else waiting
  ]

  pub entries-consider_link :
      (reused : Bool) (prior : Option EntryState) (link : PwLink) (run : Run)
      → (consider_link snapshot new_ids devices reused prior link run).ledger.entries
        ≡ insert link.link_id
            (record { serial = link.serial; state = state_after prior link })
            run.ledger.entries
  unfolding consider_link
  entries-consider_link reused prior link run =
      elim (Option-cases (classify snapshot devices link)) [
        | inl e ↦ rw (e, consider_link) (ground arith)
        | inr (m, e) ↦ rw (e, consider_link) (ground arith)
      ]

  pending-consider_link :
      (reused : Bool) (prior : Option EntryState) (link : PwLink) (run : Run)
      → (consider_link snapshot new_ids devices reused prior link run).out.pending
        ≡ elim (classify snapshot devices link) [
          | none ↦ run.out.pending
          | some m ↦
              run.out.pending
              ++ record {
                key = (link.link_id, link.serial);
                link_match = m;
                reason = decide_reason reused (prior == none) (contains new_ids link.link_id);
              }
                ∷ []
        ]
  unfolding consider_link
  pending-consider_link reused prior link run =
      elim (Option-cases (classify snapshot devices link)) [
        | inl e ↦ rw (e, consider_link) (ground arith)
        | inr (m, e) ↦ rw (e, consider_link) (ground arith)
      ]

  -- A round leaves the entries of other links alone.
  get-reconcile_link :
      (run : Run) (link : PwLink) (id : ℕ)
      → (link.link_id == id) ≡ false
      → get (step run link).ledger.entries id ≡ get run.ledger.entries id
  unfolding reconcile_link
  get-reconcile_link run link id h =
      elim (Bool-cases
        (prior_state (get run.ledger.entries link.link_id) link.serial == some decided)) [
          | inl e ↦ rw e
          | inr e ↦
              rw (e, entries-consider_link)
                (rw (get-insert run.ledger.entries link.link_id id) (rw h))
        ]

  pending-reconcile_link :
      (run : Run) (link : PwLink)
      → (step run link).out.pending ≡ elim (pending_of (get run.ledger.entries link.link_id) link) [
        | none ↦ run.out.pending
        | some p ↦ run.out.pending ++ p ∷ []
      ]
  unfolding reconcile_link
  pending-reconcile_link run link =
      elim (Bool-cases
        (prior_state (get run.ledger.entries link.link_id) link.serial == some decided)) [
          | inl e ↦ rw e
          | inr e ↦
              rw (e, pending-consider_link)
                (elim (Option-cases (classify snapshot devices link)) [
                  | inl f ↦ rw f
                  | inr (m, f) ↦ rw f
                ])
        ]

  abbrev pub steps : Run → List PwLink → Run
  steps = reconcile_links snapshot new_ids devices

  pub get-reconcile_links :
      (run : Run) (links : List PwLink) (id : ℕ)
      → is_live links id ≡ false
      → get (steps run links).ledger.entries id ≡ get run.ledger.entries id
  unfolding reconcile_links
  get-reconcile_links run [] id h = refl
  get-reconcile_links run (link ∷ links) id h =
      get-reconcile_links (step run link) links id (ground arith)
      ∙ get-reconcile_link run link id (ground arith)

  -- What a round leaves to be said about the links behind it.
  pending_of-step :
      (run : Run) (link : PwLink) (links : List PwLink)
      → is_live links link.link_id ≡ false
      → All
          (λ l.
            pending_of (get (step run link).ledger.entries l.link_id) l
            ≡ pending_of (get run.ledger.entries l.link_id) l)
          links
  pending_of-step run link [] h = tt
  pending_of-step run link (l ∷ links) h = (
    ap (λ entry. pending_of entry l) (get-reconcile_link run link l.link_id (ground arith)),
    pending_of-step run link links (ground arith),
  )

  pending-reconcile_links :
      (run : Run) (links : List PwLink)
      → DistinctIds links
      → (steps run links).out.pending
        ≡ run.out.pending ++ filter_map (λ l. pending_of (get run.ledger.entries l.link_id) l) links
  unfolding reconcile_links
  pending-reconcile_links run [] d = sym (append-nil run.out.pending)
  pending-reconcile_links run (link ∷ links) (fresh, d) =
      pending-reconcile_links (step run link) links d
      ∙ rw
          (
            filter_map_congr _ _ links (pending_of-step run link links fresh),
            pending-reconcile_link,
          )
          (elim (Option-cases (pending_of (get run.ledger.entries link.link_id) link)) [
            | inl e ↦ rw (
              filter_map-cons_none (λ l. pending_of (get run.ledger.entries l.link_id) l) link links
                  e,
              e,
            )
            | inr (p, e) ↦
                rw
                  (
                    filter_map-cons_some (λ l. pending_of (get run.ledger.entries l.link_id) l) link
                        links p e,
                    e,
                  )
                  (append_assoc run.out.pending (p ∷ []) _)
          ])

  live_weaken :
      (link : PwLink) (links : List PwLink) (l : PwLink)
      → is_live links l.link_id ≡ true
      → is_live (link ∷ links) l.link_id ≡ true
  live_weaken link links l h = ground arith

  pub All-live : (links : List PwLink) → All (λ l. is_live links l.link_id ≡ true) links
  All-live [] = tt
  All-live (link ∷ links) =
      (rw (==_refl link.link_id), All-map (live_weaken link links) links (All-live links))

  pub get-drop_ended :
      (ledger : LinkLedger) (links : List PwLink) (id : ℕ)
      → get (drop_ended ledger links).ledger.entries id
        ≡ (if is_live links id then get ledger.entries id else none)
  unfolding drop_ended
  get-drop_ended ledger links id = get-retain_keys (is_live links) ledger.entries id

  pub pending_of-reconcile :
      (ledger : LinkLedger)
      → DistinctIds snapshot.links
      → (reconcile ledger snapshot new_ids devices).out.pending
        ≡ filter_map (λ l. pending_of (get ledger.entries l.link_id) l) snapshot.links
  unfolding reconcile
  pending_of-reconcile ledger d =
      pending-reconcile_links (drop_ended ledger snapshot.links) snapshot.links d
      ∙ filter_map_congr _ _ snapshot.links (
          All-map
            (λ l live.
              ap (λ entry. pending_of entry l)
                (get-drop_ended ledger snapshot.links l.link_id ∙ rw live))
            snapshot.links (All-live snapshot.links))
