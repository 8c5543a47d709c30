-- ===== src/KernelLoader/Captured.antt =====
-- The microphones that the kernel knows after `push_capture_minors` are those that the scan found.
use hwprivacy.Common.{
  ℕ, ◌^◌, ◌<◌, ◌≡◌, refl, ap, sym, ◌∙◌, Bool, true, ◌||◌, List, [], ◌∷◌, arith, ◌==◌, ==→≡, ==_refl,
  nat_eq, list_eq, All, contains, contains-retain, retain, map, Map, get, insert, get-insert,
  contains_key, Bool-cases, inl, inr,
}
use hwprivacy.KernelEvents.{word_of, bytes_of}
use hwprivacy.KernelLoader.{Bytes, BpfMap, after_call, after_calls, put_all, delete_all}
use hwprivacy.KernelLoader.Stale.{contains-map_keys}
use hwprivacy.KernelLoader.Calls.{after_calls-append, get-delete_all}
use hwprivacy.KernelLoader.Minors.{is_gone, minor_entry, minor_calls}
use hwprivacy.KernelLoader.Replace.{map_keys}

contains_key-put_all :
    (refused : Bytes → Bool) (entries : Map Bytes Bytes) (m : BpfMap) (k : Bytes)
    → (put_all refused entries).1 ≡ true
    → contains_key (after_calls m (put_all refused entries).0) k
      ≡ (contains_key entries k || contains_key m k)
unfolding put_all after_calls after_call get
contains_key-put_all refused [] m k ok = refl
contains_key-put_all refused ((key, value) ∷ entries) m k ok =
    ground
      (arith, contains_key-put_all refused entries (insert key value m) k, get-insert m key k value)

pub word_of-bytes_of_u32 : (v : ℕ) → v < 2 ^ 32 → word_of (bytes_of 4 v) ≡ v
word_of-bytes_of_u32 v h = omega arith

same_minor :
    (x minor : ℕ) → x < 2 ^ 32 → minor < 2 ^ 32 → (bytes_of 4 x == bytes_of 4 minor) ≡ (minor == x)
same_minor x minor hx small = elim (Bool-cases (minor == x)) [
  | inl same ↦ rw (==→≡ minor x same) (==_refl (bytes_of 4 x) ∙ sym (==_refl x))
  | inr differs ↦ elim (Bool-cases (bytes_of 4 x == bytes_of 4 minor)) [
    | inr other ↦ other ∙ sym differs
    | inl equal ↦
        let e =
          sym (word_of-bytes_of_u32 x hx)
          ∙ ap word_of (==→≡ (bytes_of 4 x) (bytes_of 4 minor) equal)
          ∙ word_of-bytes_of_u32 minor small in
        ground (arith, e, differs)
  ]
]

contains_key-minor_entry :
    (minors : List ℕ) (minor : ℕ)
    → All (λ x. x < 2 ^ 32) minors
    → minor < 2 ^ 32
    → contains_key (map minor_entry minors) (bytes_of 4 minor) ≡ contains minors minor
unfolding get
contains_key-minor_entry [] minor h small = refl
contains_key-minor_entry (x ∷ minors) minor (hx, h) small =
    ground (arith, contains_key-minor_entry minors minor h small, same_minor x minor hx small)

-- When all of its calls succeed, the kernel knows a minor exactly if it is wanted, whatever it knew.
pub contains_key-minor_calls :
    (refused : Bytes → Bool) (m : BpfMap) (wanted : List ℕ) (minor : ℕ)
    → All (λ x. x < 2 ^ 32) wanted
    → minor < 2 ^ 32
    → (minor_calls refused m wanted).1 ≡ true
    → contains_key (after_calls m (minor_calls refused m wanted).0) (bytes_of 4 minor)
      ≡ contains wanted minor
unfolding minor_calls nat_eq
contains_key-minor_calls refused m wanted minor h small ok =
    let k = bytes_of 4 minor in
    let gone = retain (is_gone wanted) (map_keys m) in
    let m' = after_calls m (delete_all gone) in
    ap (λ t. contains_key t k)
      (after_calls-append m (delete_all gone) (put_all refused (map minor_entry wanted)).0)
    ∙ contains_key-put_all refused (map minor_entry wanted) m' k ok
    ∙ ground (
      arith,
      contains_key-minor_entry wanted minor h small,
      get-delete_all gone m k,
      contains-retain (is_gone wanted) (map_keys m) k,
      contains-map_keys m k,
      word_of-bytes_of_u32 minor small,
    )
