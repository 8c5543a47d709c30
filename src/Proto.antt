-- ===== src/Proto.antt =====
-- hwprivacy-proto/src/lib.rs: what the daemon and the kernel layer's helper say to each other. The
-- lines of JSON are not modelled.
use hwprivacy.Common.{ℕ, ◌+◌, ◌%◌, ◌^◌, Bool, List, ltb}
use hwprivacy.Common.Text.{Text}

abbrev pub proto_version : ℕ
proto_version = 1

-- `PolicyEntry`: an executable and its permission bits.
pub record PushedEntry : Type 0 where
  pub exe_path : Text
  pub perms : ℕ

pub record UnresolvedEntry : Type 0 where
  pub exe_path : Text
  pub reason : Text

pub data Request : Type 0 where
  hello_request : ℕ → Request
  set_policy : List PushedEntry → Bool → Bool → Request
  get_policy : Request
  ping : Request

-- `AccessEvent` of the protocol, as far as the daemon reads it.
pub record KernelEvent : Type 0 where
  pub exe_path : Text
  pub pid : ℕ
  pub device : Text
  pub role : Text
  pub denied : Bool
  pub additional_opens : ℕ
  pub released : Bool

pub data Reply : Type 0 where
  hello : ℕ → Bool → Bool → Reply
  policy_applied : ℕ → List UnresolvedEntry → Reply
  policy_held : List PushedEntry → Reply
  event : KernelEvent → Reply
  pong : Reply
  error_reply : Text → Reply

-- `1 + self.additional_opens` on `u32`
abbrev pub total_opens : KernelEvent → ℕ
total_opens ev = (1 + ev.additional_opens) % 2 ^ 32

abbrev pub is_burst : KernelEvent → Bool
is_burst ev = ltb 0 ev.additional_opens
