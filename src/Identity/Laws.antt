-- ===== src/Identity/Laws.antt =====
-- What the table of identities can hold.
use hwprivacy.Common.{
  ℕ, ◌≡◌, refl, ap, ◌∙◌, Bool, true, false, ◌||◌, Option, none, some, List, [], ◌∷◌, arith, ==→≡,
  ==_refl, nat_eq, list_eq, pair_eq, contains, Map, get, All, All-map, map, Bool-cases,
}
use hwprivacy.Common.Text.{Text}
use hwprivacy.Config.{Config}
use hwprivacy.Graph.{NodeInfo}
use hwprivacy.Graph.State.{values}
use hwprivacy.Identity.{
  Pair, Identities, touches_rule, keep_pair, observe_node, observe_nodes, observe, insert_member,
  split_key, announce_each, take_unannounced, remembered,
}
use hwprivacy.Names.{Lowercase}
use hwprivacy.RuleMerge.Splits.{RuleSplit}

module _ ⦃lc : Lowercase⦄ (read_exe : ℕ → Option Text) (config : Config) where
  contains-keep_pair :
      (ids : Identities) (found : Option Pair) (pair : Pair)
      → contains (keep_pair config ids found).pairs pair ≡ true
      → touches_rule config pair ≡ false
      → contains ids.pairs pair ≡ true
  contains-keep_pair ids none pair h n = h
  contains-keep_pair ids (some found) pair h n = ground (
    arith,
    ==→≡ {A = Pair} found pair,
    ==→≡ {A = Pair} pair found,
    Bool-cases (touches_rule config found),
    Bool-cases (contains ids.pairs found),
  )

  pairs-observe_node :
      (ids : Identities) (node : NodeInfo) (pair : Pair)
      → contains (observe_node read_exe config ids node).pairs pair ≡ true
      → touches_rule config pair ≡ false
      → contains ids.pairs pair ≡ true
  unfolding observe_node
  pairs-observe_node ids node pair h n =
      ground (arith, contains-keep_pair _ (remembered read_exe (get ids.checked _) node) pair)

  pairs-observe_nodes :
      (ids : Identities) (nodes : List NodeInfo) (pair : Pair)
      → contains (observe_nodes read_exe config ids nodes).pairs pair ≡ true
      → touches_rule config pair ≡ false
      → contains ids.pairs pair ≡ true
  unfolding observe_nodes
  pairs-observe_nodes ids [] pair h n = h
  pairs-observe_nodes ids (node ∷ nodes) pair h n =
      pairs-observe_node ids node pair
        (pairs-observe_nodes (observe_node read_exe config ids node) nodes pair h n) n

  -- Whatever the streams say of themselves, the table gains no pair but those whose name or
  -- executable is that of a rule.
  pub observe_lem :
      (ids : Identities) (nodes : Map ℕ NodeInfo) (pair : Pair)
      → contains (observe read_exe ids nodes config).pairs pair ≡ true
      → touches_rule config pair ≡ false
      → contains ids.pairs pair ≡ true
  unfolding observe
  observe_lem ids nodes pair h n = pairs-observe_nodes _ (values nodes) pair h n

contains-announced :
    (announced : List Pair) (splits : List RuleSplit) (key : Pair)
    → contains (announce_each announced splits).1 key
      ≡ (contains announced key || contains (map split_key splits) key)
unfolding announce_each
contains-announced announced [] key = ground arith
contains-announced announced (split ∷ splits) key = ground (
  arith,
  contains-announced (insert_member announced (split_key split)) splits key,
  ==→≡ {A = Pair} (split_key split) key,
  ==→≡ {A = Pair} key (split_key split),
  ==_refl {A = Pair} key,
  Bool-cases (contains announced (split_key split)),
)

none-announced :
    (announced : List Pair) (splits : List RuleSplit)
    → All (λ split. contains announced (split_key split) ≡ true) splits
    → (announce_each announced splits).0 ≡ []
unfolding announce_each
none-announced announced [] h = refl
none-announced announced (split ∷ splits) (p, h) = ground (arith, none-announced announced splits h)

All-weaken :
    (split : RuleSplit) (splits rest : List RuleSplit)
    → All (λ s. contains (map split_key splits) (split_key s) ≡ true) rest
    → All (λ s. contains (map split_key (split ∷ splits)) (split_key s) ≡ true) rest
All-weaken split splits rest h = All-map (λ s e. ground arith) rest h

All-self :
    (splits : List RuleSplit)
    → All (λ split. contains (map split_key splits) (split_key split) ≡ true) splits
All-self [] = tt
All-self (split ∷ splits) = (
  ground (arith, ==_refl {A = Pair} (split_key split)),
  All-weaken split splits splits (All-self splits),
)

or_true : (b : Bool) → (b || true) ≡ true
or_true true = refl
or_true false = refl

-- A split is announced once: the same splits again give none to announce.
pub take_unannounced_twice :
    (ids : Identities) (splits : List RuleSplit)
    → (take_unannounced (take_unannounced ids splits).1 splits).0 ≡ []
unfolding take_unannounced
take_unannounced_twice ids splits = none-announced (announce_each ids.announced splits).1 splits (
    All-map
      (λ split h.
        contains-announced ids.announced splits (split_key split)
        ∙ ap (λ b. contains ids.announced (split_key split) || b) h
        ∙ or_true (contains ids.announced (split_key split)))
      splits (All-self splits))
