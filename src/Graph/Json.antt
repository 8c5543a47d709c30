-- ===== src/Graph/Json.antt =====
-- What hwprivacy-daemon/src/pipewire_monitor.rs uses of serde_json and of `/proc`: both are
-- parameters.
use hwprivacy.Common.{ℕ, Bool, Option}
use hwprivacy.Common.Text.{Text}

-- `serde_json::Value`
pub record Json : Type 1 where
  pub Value : Type 0
  -- `Value::get(key)`
  pub field : Value → Text → Option Value
  pub as_u64 : Value → Option ℕ
  pub as_str : Value → Option Text
  -- `matches!(v, Value::Null)`
  pub is_null : Value → Bool

-- What a process's directory says at the moment of the call: the file name of the link `exe`, and
-- the contents of `cgroup`.
pub record Proc : Type 0 where
  pub exe_name : ℕ → Option Text
  pub cgroup : ℕ → Option Text
