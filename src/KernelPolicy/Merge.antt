-- ===== src/KernelPolicy/Merge.antt =====
-- hwprivacy-lsm/src/policy.rs: `to_map`, the contents of the kernel's map for an allowlist. A key is
-- its two numbers, and a `u32` has 32 bits.
use hwprivacy.Common.{
  ℕ, zero, suc, ◌+◌, ◌*◌, ◌/◌, ◌%◌, ◌≡◌, ap, ◌∙◌, Bool, true, false, ◌&&◌, ◌||◌, List, [], ◌∷◌,
  arith, ◌==◌, ==→≡, nat_eq, pair_eq, if◌then◌else◌, any, Map, get, insert, get-insert, NodupKeys,
  NodupKeys-insert, Bool-cases, inl, inr,
}
use hwprivacy.Common.Options.{unwrap_or}
use hwprivacy.KernelPolicy.{PolicyKey, PolicyEntry, Policy}
use hwprivacy.KernelPerms.{has_camera, has_audio}

-- `a | b` for numbers of so many bits
unfoldable pub bit_or : ℕ → ℕ → ℕ → ℕ
bit_or zero a b = 0
bit_or (suc bits) a b =
    (if a % 2 == 1 || b % 2 == 1 then 1 else 0) + 2 * bit_or bits (a / 2) (b / 2)

abbrev pub Key : Type 0
Key = ℕ × ℕ

abbrev pub key_of : PolicyKey → Key
key_of key = (key.exe_ino, key.exe_dev)

abbrev pub perms_of : Map Key ℕ → Key → ℕ
perms_of m key = unwrap_or (get m key) 0

-- One round of the loop.
abbrev pub merge_entry : PolicyEntry → Map Key ℕ → Map Key ℕ
merge_entry e m = insert (key_of e.key) (bit_or 32 (perms_of m (key_of e.key)) e.perms) m

unfoldable pub merge_entries : List PolicyEntry → Map Key ℕ → Map Key ℕ
merge_entries [] m = m
merge_entries (e ∷ entries) m = merge_entries entries (merge_entry e m)

unfoldable pub to_map : Policy → Map Key ℕ
unfolding merge_entries
to_map policy = merge_entries policy.entries []

-- A bit that an entry of the key has.
abbrev pub granted : (ℕ → Bool) → List PolicyEntry → Key → Bool
granted test entries key = any (λ (e : PolicyEntry). key_of e.key == key && test e.perms) entries

lowest_bit :
    (bit : Bool) (rest : ℕ)
    → ((((if bit then 1 else 0) + 2 * rest) % 2 == 1) ≡ bit)
      × (((if bit then 1 else 0) + 2 * rest) / 2 ≡ rest)
lowest_bit true rest = ground arith
lowest_bit false rest = ground arith

pub has_camera-bit_or : (a b : ℕ) → has_camera (bit_or 32 a b) ≡ (has_camera a || has_camera b)
unfolding bit_or
has_camera-bit_or a b = (lowest_bit (has_camera a || has_camera b) (bit_or 31 (a / 2) (b / 2))).0

pub has_audio-bit_or : (a b : ℕ) → has_audio (bit_or 32 a b) ≡ (has_audio a || has_audio b)
unfolding bit_or
has_audio-bit_or a b =
    ap (λ n. n % 2 == 1) ((lowest_bit (has_camera a || has_camera b) (bit_or 31 (a / 2) (b / 2))).1)
    ∙ (lowest_bit (has_audio a || has_audio b) (bit_or 30 (a / 2 / 2) (b / 2 / 2))).0

perms-merge_entry :
    (e : PolicyEntry) (m : Map Key ℕ) (key : Key)
    → perms_of (merge_entry e m) key ≡ (
        if key_of e.key == key
        then bit_or 32 (perms_of m (key_of e.key)) e.perms
        else perms_of m key)
perms-merge_entry e m key = ground (
  arith,
  get-insert m (key_of e.key) key (bit_or 32 (perms_of m (key_of e.key)) e.perms),
  Bool-cases (key_of e.key == key),
)

-- A round adds the bit of its entry for the entry's key.
merge_step :
    (test : ℕ → Bool) (perms : Key → ℕ) (own key : Key) (merged : ℕ) (bit rest : Bool)
    → test merged ≡ (test (perms own) || bit)
    → (test (if own == key then merged else perms key) || rest)
      ≡ (test (perms key) || (own == key && bit || rest))
merge_step test perms own key merged bit rest merges = elim (Bool-cases (own == key)) [
  | inl same ↦ ground (arith, same, merges, ap perms (==→≡ own key same))
  | inr differs ↦ ground (arith, differs)
]

test-merge_entries :
    (test : ℕ → Bool) (merges : (a b : ℕ) → test (bit_or 32 a b) ≡ (test a || test b))
    (entries : List PolicyEntry) (m : Map Key ℕ) (key : Key)
    → test (perms_of (merge_entries entries m) key)
      ≡ (test (perms_of m key) || granted test entries key)
unfolding merge_entries
test-merge_entries test merges [] m key = ground arith
test-merge_entries test merges (e ∷ entries) m key =
    test-merge_entries test merges entries (merge_entry e m) key
    ∙ ap (λ n. test n || granted test entries key) (perms-merge_entry e m key)
    ∙ merge_step test (perms_of m) (key_of e.key) key
        (bit_or 32 (perms_of m (key_of e.key)) e.perms) (test e.perms) (granted test entries key)
        (merges (perms_of m (key_of e.key)) e.perms)

NodupKeys-merge_entries :
    (entries : List PolicyEntry) (m : Map Key ℕ) → NodupKeys m → NodupKeys (merge_entries entries m)
unfolding merge_entries
NodupKeys-merge_entries [] m u = u
NodupKeys-merge_entries (e ∷ entries) m u =
    NodupKeys-merge_entries entries (merge_entry e m)
      (NodupKeys-insert (key_of e.key) (bit_or 32 (perms_of m (key_of e.key)) e.perms) m u)

-- The kernel's map has one value for a key. The value has the camera's bit exactly if an entry that
-- resolves to the key has it, and the microphone's exactly if one has that.
pub to_map_lem :
    (policy : Policy) (key : Key)
    → NodupKeys (to_map policy)
      × (has_camera (perms_of (to_map policy) key) ≡ granted has_camera policy.entries key)
      × (has_audio (perms_of (to_map policy) key) ≡ granted has_audio policy.entries key)
unfolding to_map get nat_eq
to_map_lem policy key = (
  NodupKeys-merge_entries policy.entries [] tt,
  test-merge_entries has_camera has_camera-bit_or policy.entries [] key,
  test-merge_entries has_audio has_audio-bit_or policy.entries [] key,
)
