-- ===== src/DeviceIndex/Captures.antt =====
-- Which capture minors a scan of the device files gives, read off the files.
use hwprivacy.Common.{
  ℕ, ◌≡◌, ◌∙◌, refl, ap, Bool, true, false, not, ◌&&◌, Option, none, some, [], ◌∷◌, arith, ◌==◌,
  ==→≡, ==_refl, nat_eq, list_eq, pair_eq, if◌then◌else◌, retain, contains, get, get-insert,
  NodupKeys, NodupKeys-insert, Bool-cases, inl, inr,
}
use hwprivacy.Common.Text.{Text, codes, starts_with, ends_with}
use hwprivacy.DeviceIndex.{
  v4l2_major, alsa_major, DeviceNode, audio_capture, role_eq, classify_node, DeviceMap, Listing,
  index_node, index_entry, scan_dir, rescan, capture_minors,
}

-- The node, if there is one, has the role that its name says.
abbrev has_named_role : ℕ → Option DeviceNode → Bool
has_named_role major none = true
has_named_role major (some node) = node.role == classify_node major node.name

-- The index has one node for its numbers, with the role that the name says.
abbrev IsClassified : DeviceMap → Type 0
IsClassified m =
    NodupKeys m × ((major minor : ℕ) → has_named_role major (get m (major, minor)) ≡ true)

index_node-IsClassified :
    (m : DeviceMap) (name : Text) (numbers : ℕ × ℕ)
    → IsClassified m
    → IsClassified (index_node m name numbers)
unfolding index_node
index_node-IsClassified m name (a, b) (u, c) =
    let node : DeviceNode = record { name = name; role = classify_node a name } in
    elim (Bool-cases (not (a == v4l2_major) && not (a == alsa_major))) [
      | inl e ↦ rw e (u, c)
      | inr e ↦ rw e (
        NodupKeys-insert (a, b) node m u,
        λ major minor. ground (
          arith,
          get-insert m (a, b) (major, minor) node,
          c major minor,
          ==→≡ {A = ℕ × ℕ} (a, b) (major, minor),
          Bool-cases (◌==◌ {A = ℕ × ℕ} (a, b) (major, minor)),
          ==_refl (classify_node a name),
        ),
      )
    ]

index_entry-IsClassified :
    (take_all : Bool) (m : DeviceMap) (name : Text) (numbers : Option (ℕ × ℕ))
    → IsClassified m
    → IsClassified (index_entry take_all m name numbers)
unfolding index_entry
index_entry-IsClassified take_all m name none c =
    elim (Bool-cases (not take_all && not (starts_with name (codes "video")))) [
      | inl e ↦ rw e c
      | inr e ↦ rw e c
    ]
index_entry-IsClassified take_all m name (some n) c =
    elim (Bool-cases (not take_all && not (starts_with name (codes "video")))) [
      | inl e ↦ rw e c
      | inr e ↦ rw e (index_node-IsClassified m name n c)
    ]

scan_dir-IsClassified :
    (take_all : Bool) (m : DeviceMap) (listing : Listing)
    → IsClassified m
    → IsClassified (scan_dir take_all m listing)
unfolding scan_dir
scan_dir-IsClassified take_all m [] c = c
scan_dir-IsClassified take_all m ((name, numbers) ∷ listing) c =
    scan_dir-IsClassified take_all (index_entry take_all m name numbers) listing
      (index_entry-IsClassified take_all m name numbers c)

captures_minor : Option DeviceNode → Bool
captures_minor none = false
captures_minor (some node) = node.role == audio_capture

capture_minors-get :
    (m : DeviceMap) (minor : ℕ)
    → NodupKeys m
    → contains (capture_minors m) minor ≡ captures_minor (get m (alsa_major, minor))
unfolding capture_minors get captures_minor
capture_minors-get [] minor u = refl
capture_minors-get (((a, b), node) ∷ m) minor (fresh, u) = ground (
  arith,
  capture_minors-get m minor u,
  Bool-cases (a == alsa_major),
  Bool-cases (b == minor),
  ==→≡ a alsa_major,
  ==→≡ b minor,
  ==→≡ {A = ℕ × ℕ} (a, b) (alsa_major, minor),
  ==_refl {A = ℕ × ℕ} (alsa_major, minor),
  Bool-cases (node.role == audio_capture),
)

-- A capture minor, by the node's name.
abbrev named_capture : Option DeviceNode → Bool
named_capture none = false
named_capture (some node) = starts_with node.name (codes "pcm") && ends_with node.name b'c'

named_capture_role :
    (found : Option DeviceNode)
    → has_named_role alsa_major found ≡ true
    → captures_minor found ≡ named_capture found
unfolding captures_minor classify_node nat_eq
named_capture_role none h = refl
named_capture_role (some node) h = ground (
  arith,
  h,
  ==→≡ node.role (classify_node alsa_major node.name),
  Bool-cases (starts_with node.name (codes "pcm")),
  Bool-cases (ends_with node.name b'c'),
)

named_capture_in_index :
    (dev snd : Listing) (minor : ℕ)
    → contains (capture_minors (rescan dev snd)) minor
      ≡ named_capture (get (rescan dev snd) (alsa_major, minor))
unfolding rescan get
named_capture_in_index dev snd minor =
    let (u, c) =
      scan_dir-IsClassified true (scan_dir false [] dev) snd
        (scan_dir-IsClassified false [] dev (tt, λ _ _. refl)) in
    capture_minors-get _ minor u ∙ named_capture_role _ (c alsa_major minor)

-- The name of the last file of a listing that has the numbers of a sound card's minor, or `found`.
abbrev pub last_named : Option Text → ℕ → Listing → Option Text
last_named found minor [] = found
last_named found minor ((name, none) ∷ listing) = last_named found minor listing
last_named found minor ((name, some (a, b)) ∷ listing) =
    last_named (if a == 116 && b == minor then some name else found) minor listing

abbrev pub capture_name : Option Text → Bool
capture_name none = false
capture_name (some name) = starts_with name (codes "pcm") && ends_with name b'c'

-- The files of `/dev` that a scan reads.
abbrev pub video_files : Listing → Listing
video_files dev = retain (λ (name, _). starts_with name (codes "video")) dev

abbrev name_found : Option DeviceNode → Option Text
name_found none = none
name_found (some node) = some node.name

name-index_node :
    (m : DeviceMap) (name : Text) (a b minor : ℕ)
    → name_found (get (index_node m name (a, b)) (alsa_major, minor))
      ≡ (if a == 116 && b == minor then some name else name_found (get m (alsa_major, minor)))
unfolding index_node nat_eq
name-index_node m name a b minor = ground (
  arith,
  get-insert m (a, b) (alsa_major, minor) (record { name = name; role = classify_node a name }),
  ==→≡ {A = ℕ × ℕ} (a, b) (alsa_major, minor),
  ==_refl {A = ℕ × ℕ} (alsa_major, minor),
  ==→≡ a 116,
  ==→≡ b minor,
  Bool-cases (a == 116),
  Bool-cases (b == minor),
)

name-scan_dir :
    (m : DeviceMap) (listing : Listing) (minor : ℕ)
    → name_found (get (scan_dir true m listing) (alsa_major, minor))
      ≡ last_named (name_found (get m (alsa_major, minor))) minor listing
unfolding scan_dir index_entry
name-scan_dir m [] minor = refl
name-scan_dir m ((name, none) ∷ listing) minor = name-scan_dir m listing minor
name-scan_dir m ((name, some (a, b)) ∷ listing) minor =
    name-scan_dir (index_node m name (a, b)) listing minor
    ∙ ap (λ found. last_named found minor listing) (name-index_node m name a b minor)

-- A scan of `/dev` is one of its video files.
scan_dir-video :
    (listing : Listing) (m : DeviceMap)
    → scan_dir false m listing ≡ scan_dir true m (video_files listing)
unfolding scan_dir index_entry
scan_dir-video [] m = refl
scan_dir-video ((name, numbers) ∷ listing) m =
    elim (Bool-cases (starts_with name (codes "video"))) [
      | inl e ↦ rw e (scan_dir-video listing _)
      | inr e ↦ rw e (scan_dir-video listing m)
    ]

capture_name_found :
    (found : Option DeviceNode) → named_capture found ≡ capture_name (name_found found)
capture_name_found none = refl
capture_name_found (some node) = refl

-- After any scan of `/dev` and `/dev/snd`, a number is a capture minor exactly if the last file of the
-- two with the sound cards' major and that minor is named `pcm…c`, where of `/dev` only the files
-- count whose names begin with `video`.
pub capture_minors-rescan :
    (dev snd : Listing) (minor : ℕ)
    → contains (capture_minors (rescan dev snd)) minor
      ≡ capture_name (last_named (last_named none minor (video_files dev)) minor snd)
unfolding rescan get
capture_minors-rescan dev snd minor =
    named_capture_in_index dev snd minor
    ∙ capture_name_found (get (rescan dev snd) (alsa_major, minor))
    ∙ ap capture_name (name-scan_dir (scan_dir false [] dev) snd minor)
    ∙ ap (λ m. capture_name (last_named (name_found (get m (alsa_major, minor))) minor snd))
        (scan_dir-video dev [])
    ∙ ap (λ found. capture_name (last_named found minor snd))
        (name-scan_dir [] (video_files dev) minor)
