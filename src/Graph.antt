-- ===== src/Graph.antt =====
-- hwprivacy-daemon/src/pipewire_monitor.rs: the types of the PipeWire graph.
pub mod Json
pub mod Parse
pub mod State
pub mod Splitter
pub mod Blocks
pub mod Links
pub mod Invariant
pub mod Sightings
use hwprivacy.Common.{ℕ, Option, List, Map}
use hwprivacy.Common.Text.{Text}

pub record PwLink : Type 0 where
  pub link_id : ℕ
  pub serial : Option ℕ
  pub output_node : ℕ
  pub output_port : ℕ
  pub input_node : ℕ
  pub input_port : ℕ

pub record NodeInfo : Type 0 where
  pub id : ℕ
  pub media_class : Text
  pub node_name : Text
  pub app_name : Text
  pub pid : ℕ
  pub media_name : Text
  pub declared_pid : ℕ
  pub process_binary : Text

pub record PortInfo : Type 0 where
  pub id : ℕ
  pub node_id : ℕ
  pub name : Text
  pub direction : Text

pub record GraphSnapshot : Type 0 where
  pub nodes : Map ℕ NodeInfo
  pub ports : Map ℕ PortInfo
  pub links : List PwLink
