-- ===== src/Daemon/BlockAll.antt =====
-- While everything is blocked, an update of the graph leaves no link of a guarded device standing
-- that the ledger hands out.
use mathlib.Core.List.{map-append}
use hwprivacy.Common.{
  ℕ, ◌≡◌, refl, ap, ◌∙◌, Bool, true, false, ◌&&◌, ◌||◌, Option, List, [], ◌∷◌, ◌++◌, arith, ◌==◌,
  ==→≡, ==_refl, nat_eq, list_eq, pair_eq, if◌then◌else◌, contains, contains-append, any, map, Map,
  Bool-cases,
}
use hwprivacy.Common.Text.{Text}
use hwprivacy.Config.{is_guarded, DevicesConfig}
use hwprivacy.Daemon.{DaemonState, Moment, Effect, log_denied}
use hwprivacy.Daemon.Enforce.{
  Pause, before_observe, before_group, before_log, before_clean_up, handle_group, handle_groups,
}
use hwprivacy.Daemon.Groups.{
  LinkGroup, GroupKey, key_of_match, group_links, links_of_key, ids_of_key, group_links_keys,
}
use hwprivacy.Daemon.Loop.{
  keys_of, match_of, reconcile_update, observe_update, clean_up, handle_update,
}
use hwprivacy.Daemon.Safety.{destroyed, destroyed-append, guards, destroyed-handle_group}
use hwprivacy.Device.{category_eq}
use hwprivacy.Graph.Splitter.{GraphUpdate}
use hwprivacy.LinkAudit.{Pending, LinkKey}
use hwprivacy.Names.{Lowercase}
use hwprivacy.PolicyEngine.{LinkMatch}

-- Everything is blocked, and these are the devices that are guarded.
abbrev pub Blocks : DevicesConfig → DaemonState → Type 0
Blocks devices s = (s.block_all ≡ true) × (s.config.devices ≡ devices)

abbrev guarded_group : DevicesConfig → LinkGroup → Bool
guarded_group devices g = is_guarded devices g.m.device.category

guarded-of_key :
    (devices : DevicesConfig) (key : GroupKey) (g : LinkGroup)
    → is_guarded devices key.0.0 ≡ true
    → key_of_match g.m == key ≡ true
    → guarded_group devices g ≡ true
guarded-of_key devices key g guard e =
    ap (λ (k : GroupKey). is_guarded devices k.0.0) (==→≡ (key_of_match g.m) key e) ∙ guard

any-step :
    (is_key guarded more : Bool) (ids rest : List ℕ) (id : ℕ)
    → (is_key ≡ true → guarded ≡ true)
    → (contains rest id ≡ true → more ≡ true)
    → contains ((if is_key then ids else []) ++ rest) id ≡ true
    → (guarded && contains ids id || more) ≡ true
any-step true guarded more ids rest id f g h = ground (arith, contains-append ids rest id, f refl)
any-step false guarded more ids rest id f g h =
    ground (arith, g h, Bool-cases (guarded && contains ids id))

-- A group of the key holds the link, and its device is guarded if the key's is.
links-any :
    (devices : DevicesConfig) (key : GroupKey) (groups : List LinkGroup) (id : ℕ)
    → is_guarded devices key.0.0 ≡ true
    → contains (links_of_key key_of_match key groups) id ≡ true
    → any (λ g. guarded_group devices g && contains g.link_ids id) groups ≡ true
links-any devices key [] id guard h = h
links-any devices key (g ∷ groups) id guard h =
    any-step (key_of_match g.m == key) (guarded_group devices g)
      (any (λ g. guarded_group devices g && contains g.link_ids id) groups) g.link_ids
      (links_of_key key_of_match key groups) id (guarded-of_key devices key g guard)
      (links-any devices key groups id guard) h

contains-cons_if :
    (b : Bool) (j : ℕ) (ids : List ℕ) (id : ℕ)
    → contains ids id ≡ true
    → contains (if b then j ∷ ids else ids) id ≡ true
contains-cons_if true j ids id h = ground (arith, Bool-cases (id == j))
contains-cons_if false j ids id h = h

contains-ids_of_key :
    (before after : List (ℕ × LinkMatch)) (id : ℕ) (m : LinkMatch)
    → contains (ids_of_key key_of_match (key_of_match m) (before ++ (id, m) ∷ after)) id ≡ true
contains-ids_of_key [] after id m =
    ground (arith, ==_refl {A = GroupKey} (key_of_match m), ==_refl id)
contains-ids_of_key ((j, n) ∷ before) after id m =
    contains-cons_if (key_of_match n == key_of_match m) j _ id
      (contains-ids_of_key before after id m)

contains-behind :
    (xs ys zs : List Effect) (id : ℕ)
    → contains (destroyed ys) id ≡ true
    → contains (destroyed (xs ++ (ys ++ zs))) id ≡ true
contains-behind xs ys zs id h = ground (
  arith,
  destroyed-append xs (ys ++ zs),
  destroyed-append ys zs,
  contains-append (destroyed xs) (destroyed (ys ++ zs)) id,
  contains-append (destroyed ys) (destroyed zs) id,
  Bool-cases (contains (destroyed xs) id),
)

module _ ⦃lc : Lowercase⦄ (moment : Moment) (others : Pause → DaemonState → DaemonState)
    (devices : DevicesConfig)
    (kept : (p : Pause) (s : DaemonState) → Blocks devices s → Blocks devices (others p s)) where
  Blocks-handle_group :
      (s : DaemonState) (keys : Map ℕ LinkKey) (g : LinkGroup)
      → Blocks devices s
      → Blocks devices (handle_group moment others s keys g).state
  unfolding handle_group log_denied
  Blocks-handle_group s keys g b = ground (arith, kept before_log s b, Bool-cases (guards s g))

  contains-handle_group :
      (s : DaemonState) (keys : Map ℕ LinkKey) (g : LinkGroup) (id : ℕ)
      → Blocks devices s
      → contains (destroyed (handle_group moment others s keys g).effects) id
        ≡ (guarded_group devices g && contains g.link_ids id)
  contains-handle_group s keys g id (b, e) =
      ap (λ ids. contains ids id) (destroyed-handle_group moment others s keys g)
      ∙ ground (arith, Bool-cases (guarded_group devices g))

  contains-handle_groups :
      (s : DaemonState) (keys : Map ℕ LinkKey) (groups : List LinkGroup) (id : ℕ)
      → Blocks devices s
      → contains (destroyed (handle_groups moment others s keys groups).effects) id
        ≡ any (λ g. guarded_group devices g && contains g.link_ids id) groups
  unfolding handle_groups
  contains-handle_groups s keys [] id b = refl
  contains-handle_groups s keys (g ∷ groups) id b =
      let free = others before_group s in
      let c = kept before_group s b in
      let o = handle_group moment others free keys g in
      let later = handle_groups moment others o.state keys groups in
      ap (λ ids. contains ids id) (destroyed-append o.effects later.effects)
      ∙ contains-append (destroyed o.effects) (destroyed later.effects) id
      ∙ ap (λ d. d || contains (destroyed later.effects) id)
          (contains-handle_group free keys g id c)
      ∙ ap (λ d. guarded_group devices g && contains g.link_ids id || d)
          (contains-handle_groups o.state keys groups id (Blocks-handle_group free keys g c))

  Blocks-observe_update :
      (read_exe : ℕ → Option Text) (s : DaemonState) (update : GraphUpdate)
      → Blocks devices s
      → Blocks devices (observe_update moment read_exe s update).state
  unfolding observe_update
  Blocks-observe_update read_exe s update b = b

  -- Everything is blocked, and the tasks that run meanwhile leave it so and leave the guards of the
  -- devices as they are. Then every link that the ledger hands out of an update, on a device that is
  -- guarded, is destroyed.
  pub destroyed-handle_update :
      (read_exe : ℕ → Option Text) (s : DaemonState) (update : GraphUpdate)
      (before after : List Pending) (p : Pending)
      → Blocks devices s
      → (reconcile_update s update).out.pending ≡ before ++ p ∷ after
      → is_guarded devices p.link_match.device.category ≡ true
      → contains (destroyed (handle_update moment others read_exe s update).effects) p.key.0 ≡ true
  unfolding handle_update
  destroyed-handle_update read_exe s update before after p b e guard =
      let run = reconcile_update s update in
      let reconciled : DaemonState = record s {
        known_link_ids = update.link_ids;
        link_ledger = run.ledger;
      } in
      let observed = observe_update moment read_exe (others before_observe reconciled) update in
      let keys = keys_of run.out.pending [] in
      let groups = group_links (map match_of run.out.pending) in
      let handled = handle_groups moment others observed.state keys groups in
      let cleaned = clean_up moment (others before_clean_up handled.state) update.link_ids in
      let key = key_of_match p.link_match in
      let in_groups : contains (links_of_key key_of_match key groups) p.key.0 ≡ true =
        ap (λ ids. contains ids p.key.0)
          ((group_links_keys (map match_of run.out.pending) key).1
            ∙ ap (λ ps. ids_of_key key_of_match key (map match_of ps)) e
            ∙ ap (ids_of_key key_of_match key) (map-append match_of before (p ∷ after)))
        ∙ contains-ids_of_key (map match_of before) (map match_of after) p.key.0 p.link_match in
      let in_handled : contains (destroyed handled.effects) p.key.0 ≡ true =
        contains-handle_groups observed.state keys groups p.key.0 (
          Blocks-observe_update read_exe (others before_observe reconciled) update
            (kept before_observe reconciled b))
        ∙ links-any devices key groups p.key.0 guard in_groups in
      contains-behind observed.effects handled.effects cleaned.effects p.key.0 in_handled
