-- ===== src/KernelLoader/Minors.antt =====
-- hwprivacy-lsm/src/main.rs: `push_capture_minors`, which programs the microphones' device numbers.
-- Deleting a key that the map holds does not fail.
use hwprivacy.Common.{
  ℕ, Bool, false, not, List, [], ◌∷◌, ◌++◌, nat_eq, ◌==◌, if◌then◌else◌, contains, map, retain,
  length,
}
use hwprivacy.DeviceIndex.{DeviceMap, Listing, rescan, capture_minors}
use hwprivacy.KernelEvents.{word_of, bytes_of}
use hwprivacy.KernelLoader.{Bytes, BpfMap, MapCall, put_all, delete_all}
use hwprivacy.KernelLoader.Replace.{map_keys}

-- A key of four bytes whose number is not among the minors.
abbrev pub is_gone : List ℕ → Bytes → Bool
is_gone wanted key = if length key == 4 then not (contains wanted (word_of key)) else false

abbrev pub minor_entry : ℕ → Bytes × Bytes
minor_entry minor = (bytes_of 4 minor, 1 ∷ [])

-- The calls, and whether all of them succeed.
unfoldable pub minor_calls : (Bytes → Bool) → BpfMap → List ℕ → List MapCall × Bool
minor_calls refused m wanted =
    let (puts, ok) = put_all refused (map minor_entry wanted) in
    (delete_all (retain (is_gone wanted) (map_keys m)) ++ puts, ok)

-- `push_capture_minors`, for what the scans of `/dev` and `/dev/snd` find: the index after them, the
-- calls, and whether all of them succeed.
unfoldable pub push_capture_minors :
    (Bytes → Bool) → Listing → Listing → BpfMap → DeviceMap × (List MapCall × Bool)
push_capture_minors refused dev snd m =
    let index = rescan dev snd in (index, minor_calls refused m (capture_minors index))
