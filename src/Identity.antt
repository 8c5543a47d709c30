-- ===== src/Identity.antt =====
-- hwprivacy-daemon/src/identity.rs: which declared names were seen running as which binaries. A
-- `BTreeSet` is the list of its members. What `/proc` says of a process's executable is the
-- parameter `read_exe`; the file that keeps the table is not modelled, but for whether it is written.
pub mod Laws
use hwprivacy.Common.{
  ℕ, Bool, true, false, not, ◌&&◌, ◌||◌, Option, none, some, List, [], ◌∷◌, ◌++◌, ◌==◌, nat_eq,
  list_eq, pair_eq, option_eq, if◌then◌else◌, contains, is_empty, Map, get, insert, retain_entries,
  contains_key,
}
use hwprivacy.Common.Options.{unwrap_or, is_some}
use hwprivacy.Common.Text.{Text, codes, starts_with}
use hwprivacy.Config.{Config}
use hwprivacy.Config.Rules.{find_rule, find_rule_by_exe}
use hwprivacy.Graph.{NodeInfo}
use hwprivacy.Graph.Parse.{strip_suffix}
use hwprivacy.Graph.State.{values}
use hwprivacy.Names.{Lowercase, normalize_app_name, short_name, audio_server_names}
use hwprivacy.RuleMerge.Splits.{RuleSplit}

abbrev pub Pair : Type 0
Pair = Text × Text

pub record Identities : Type 0 where
  pub pairs : List Pair
  pub announced : List Pair
  pub dirty : Bool
  pub checked : Map (ℕ × ℕ) (Option Pair)

abbrev pub no_identities : Identities
no_identities = record { pairs = []; announced = []; dirty = false; checked = [] }

-- `DELETED_SUFFIX`
abbrev pub deleted_suffix : Text
deleted_suffix = codes " (deleted)"

-- `BTreeSet::insert`
abbrev pub insert_member : List Pair → Pair → List Pair
insert_member set pair = if contains set pair then set else pair ∷ set

-- The name and the executable, if that is what the stream says it is.
abbrev pub checked_pair : Text → Text → Option Text → Option Pair
checked_pair name process_binary none = none
checked_pair name process_binary (some link) =
    let exe = unwrap_or (strip_suffix deleted_suffix link) link in
    if short_name exe == process_binary then some (name, exe) else none

module _ ⦃lc : Lowercase⦄ where
  abbrev pub touches_rule : Config → Pair → Bool
  touches_rule config (name, exe) =
      is_some (find_rule config name) || is_some (find_rule_by_exe config exe)

  -- A pair that touches no rule is not kept.
  abbrev pub keep_pair : Config → Identities → Option Pair → Identities
  keep_pair config ids none = ids
  keep_pair config ids (some pair) =
      if touches_rule config pair && not (contains ids.pairs pair)
      then record ids { pairs = pair ∷ ids.pairs; dirty = true }
      else ids

module _ ⦃lc : Lowercase⦄ (read_exe : ℕ → Option Text) where
  unfoldable pub identity_pair : Text → ℕ → Text → Option Pair
  identity_pair app_name declared_pid process_binary =
      let name = normalize_app_name app_name in
      if declared_pid == 0 || is_empty process_binary
      then none
      else if contains audio_server_names process_binary
      then none
      else if is_empty name || name == codes "unknown"
      then none
      else checked_pair name process_binary (read_exe declared_pid)

  abbrev pub pair_of_node : NodeInfo → Option Pair
  pair_of_node node = identity_pair node.app_name node.declared_pid node.process_binary

  -- What was found when the stream was first seen with this process.
  abbrev pub remembered : Option (Option Pair) → NodeInfo → Option Pair
  remembered none node = pair_of_node node
  remembered (some pair) node = pair

  unfoldable pub observe_node : Config → Identities → NodeInfo → Identities
  unfolding identity_pair
  observe_node config ids node =
      let key : ℕ × ℕ = (node.id, node.declared_pid) in
      let pair = remembered (get ids.checked key) node in
      if starts_with node.media_class (codes "Stream")
      then keep_pair config (record ids { checked = insert key pair ids.checked }) pair
      else ids

  unfoldable pub observe_nodes : Config → Identities → List NodeInfo → Identities
  unfolding observe_node
  observe_nodes config ids [] = ids
  observe_nodes config ids (node ∷ nodes) =
      observe_nodes config (observe_node config ids node) nodes

  -- `observe_with`
  unfoldable pub observe : Identities → Map ℕ NodeInfo → Config → Identities
  unfolding observe_nodes
  observe ids nodes config =
      observe_nodes config
        (record ids {
          checked = retain_entries (λ (node_id, _) _. contains_key nodes node_id) ids.checked;
        })
        (values nodes)

abbrev pub split_key : RuleSplit → Pair
split_key (rules, _) = rules

-- The `filter` of `take_unannounced`: the splits that are new, and what is announced then.
unfoldable pub announce_each : List Pair → List RuleSplit → List RuleSplit × List Pair
announce_each announced [] = ([], announced)
announce_each announced (split ∷ splits) =
    let rest = announce_each (insert_member announced (split_key split)) splits in
    if contains announced (split_key split) then rest else (split ∷ rest.0, rest.1)

unfoldable pub take_unannounced : Identities → List RuleSplit → List RuleSplit × Identities
unfolding announce_each
take_unannounced ids splits =
    let (fresh, announced) = announce_each ids.announced splits in
    (fresh, record ids { announced = announced; dirty = ids.dirty || not (is_empty fresh) })

-- `save_if_dirty`, given whether the file can be written.
abbrev pub save_identities : Bool → Identities → Identities
save_identities can_write ids = record ids { dirty = ids.dirty && not can_write }
