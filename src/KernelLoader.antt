-- ===== src/KernelLoader.antt =====
-- hwprivacy-lsm/src/main.rs: the kernel's maps as the helper programs them. A map of the BPF program
-- is a map from bytes to bytes, and what the helper does to one is a list of calls, in order. Which
-- calls the kernel refuses is a parameter.
pub mod Calls
pub mod Replace
pub mod Wanted
pub mod Stale
pub mod Allowlist
pub mod Minors
pub mod Bursts
pub mod Requests
pub mod Captured
pub mod Programmed
pub mod Answers
pub mod Boot
pub mod Reboot
pub mod Restart
pub mod Flushed
use hwprivacy.Common.{
  ℕ, Bool, true, false, List, [], ◌∷◌, ◌++◌, nat_eq, list_eq, if◌then◌else◌, Map, insert, remove,
}
use hwprivacy.KernelEvents.{bytes_of}
use hwprivacy.KernelPolicy.{PolicyKey}

abbrev pub Bytes : Type 0
Bytes = List ℕ

abbrev pub BpfMap : Type 0
BpfMap = Map Bytes Bytes

-- `map.update` and `map.delete`
pub data MapCall : Type 0 where
  put : Bytes → Bytes → MapCall
  delete : Bytes → MapCall

unfoldable pub after_call : BpfMap → MapCall → BpfMap
after_call m (put key value) = insert key value m
after_call m (delete key) = remove key m

unfoldable pub after_calls : BpfMap → List MapCall → BpfMap
after_calls m [] = m
after_calls m (call ∷ calls) = after_calls (after_call m call) calls

-- The calls of a loop of updates, which ends at the first one that is refused, and whether it came
-- to its end.
unfoldable pub put_all : (Bytes → Bool) → Map Bytes Bytes → List MapCall × Bool
put_all refused [] = ([], true)
put_all refused ((key, value) ∷ entries) =
    let rest = put_all refused entries in
    if refused key then ([], false) else (put key value ∷ rest.0, rest.1)

unfoldable pub delete_all : List Bytes → List MapCall
delete_all [] = []
delete_all (key ∷ keys) = delete key ∷ delete_all keys

-- `PolicyKey::to_bytes`
abbrev pub to_bytes : PolicyKey → Bytes
to_bytes key = bytes_of 8 key.exe_ino ++ bytes_of 4 key.exe_dev ++ bytes_of 4 0

-- The one key of the map of the configuration.
abbrev pub config_key : Bytes
config_key = bytes_of 4 0

abbrev pub word_of_flag : Bool → ℕ
word_of_flag flag = if flag then 1 else 0

unfoldable pub config_bytes : Bool → Bool → ℕ → Bytes
config_bytes enforce_camera enforce_audio coalesce_ns =
    bytes_of 4 (word_of_flag enforce_camera)
    ++ bytes_of 4 (word_of_flag enforce_audio)
    ++ bytes_of 8 coalesce_ns
