-- ===== src/DeviceIndex.antt =====
-- hwprivacy-lsm/src/device_index.rs: from device numbers to device nodes and their roles. What
-- `read_dir` and `stat` answer is a listing: for each entry its name, and its major and minor
-- number where it has any.
pub mod Captures
use hwprivacy.Common.{
  ℕ, ◌≡◌, ◌∙◌, refl, ap, Bool, true, false, not, ◌&&◌, Option, none, some, List, [], ◌∷◌, arith, Eq,
  ◌==◌, ==→≡, ==_refl, nat_eq, list_eq, pair_eq, if◌then◌else◌, map, retain, contains, Map, get,
  insert, get-insert, NodupKeys, NodupKeys-insert, Bool-cases, inl, inr,
}
use hwprivacy.Common.Text.{Text, codes, starts_with, ends_with}

abbrev pub v4l2_major : ℕ
v4l2_major = 81

abbrev pub alsa_major : ℕ
alsa_major = 116

pub data DeviceRole : Type 0 where
  camera_role audio_capture audio_playback audio_control other_role : DeviceRole

role_dec : Discrete DeviceRole
role_dec = hlevel

instance unfoldable pub role_eq : Eq DeviceRole
unfolding role_dec
role_eq = record { dec = role_dec }

-- `DeviceRole::is_capture`
abbrev pub is_capture : DeviceRole → Bool
is_capture camera_role = true
is_capture audio_capture = true
is_capture audio_playback = false
is_capture audio_control = false
is_capture other_role = false

pub record DeviceNode : Type 0 where
  pub name : Text
  pub role : DeviceRole

unfoldable pub classify_node : ℕ → Text → DeviceRole
classify_node major name =
    if major == v4l2_major
    then camera_role
    else if starts_with name (codes "pcm")
    then if ends_with name b'c'
      then audio_capture
      else if ends_with name b'p'
      then audio_playback
      else other_role
    else if starts_with name (codes "control")
    then audio_control
    else other_role

abbrev pub DeviceMap : Type 0
DeviceMap = Map (ℕ × ℕ) DeviceNode

abbrev pub Listing : Type 0
Listing = List (Text × Option (ℕ × ℕ))

-- The entry of the loop of `scan_dir`, once it has numbers.
unfoldable pub index_node : DeviceMap → Text → ℕ × ℕ → DeviceMap
index_node m name (major, minor) =
    if not (major == v4l2_major) && not (major == alsa_major)
    then m
    else insert (major, minor) (record { name = name; role = classify_node major name }) m

unfoldable pub index_entry : Bool → DeviceMap → Text → Option (ℕ × ℕ) → DeviceMap
index_entry take_all m name numbers =
    if not take_all && not (starts_with name (codes "video"))
    then m
    else elim numbers [ none ↦ m | some n ↦ index_node m name n ]

unfoldable pub scan_dir : Bool → DeviceMap → Listing → DeviceMap
scan_dir take_all m [] = m
scan_dir take_all m ((name, numbers) ∷ listing) =
    scan_dir take_all (index_entry take_all m name numbers) listing

-- `/dev`, and then `/dev/snd`.
unfoldable pub rescan : Listing → Listing → DeviceMap
rescan dev snd = scan_dir true (scan_dir false [] dev) snd

unfoldable pub capture_minors : DeviceMap → List ℕ
capture_minors m =
    map (λ ((_, minor), _). minor)
      (retain (λ ((major, _), node). major == alsa_major && node.role == audio_capture) m)

-- `lookup`: the node, and the index after it, which a miss rebuilds.
unfoldable pub lookup : DeviceMap → DeviceMap → ℕ × ℕ → Option DeviceNode × DeviceMap
lookup fresh m numbers = elim (get m numbers) [
  | some node ↦ (some node, m)
  | none ↦ (get fresh numbers, fresh)
]
