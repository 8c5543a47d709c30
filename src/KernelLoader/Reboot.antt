-- ===== src/KernelLoader/Reboot.antt =====
-- The kernel after a restart of the helper grants what it granted after the daemon's last push.
use hwprivacy.Common.{
  ℕ, ◌^◌, ◌<◌, ◌≡◌, refl, ap, sym, ◌∙◌, Bool, true, false, Option, none, some, List, [], ◌∷◌, arith,
  ◌==◌, ==→≡, ==_refl, nat_eq, list_eq, pair_eq, option_eq, All, map, Map, get, insert, NodupKeys,
  Bool-cases, inl, inr,
}
use hwprivacy.Common.Options.{map_some, unwrap_or, or_else}
use hwprivacy.KernelEvents.{word_at, bytes_of, word-bytes_of}
use hwprivacy.KernelLoader.{Bytes, after_calls, put_all, to_bytes}
use hwprivacy.KernelLoader.Allowlist.{grants, value_grants, has_camera-bytes_of, has_audio-bytes_of}
use hwprivacy.KernelLoader.Boot.{entry_bytes}
use hwprivacy.KernelLoader.Calls.{get-put_all}
use hwprivacy.KernelLoader.Captured.{word_of-bytes_of_u32}
use hwprivacy.KernelPerms.{Perm, perm_camera, perm_audio, has}
use hwprivacy.KernelPolicy.{PolicyKey, PolicyEntry, Policy}
use hwprivacy.KernelPolicy.Merge.{
  Key, key_of, to_map, merge_entries, merge_entry, bit_or, perms_of, granted, to_map_lem,
}

-- The numbers of a file fit their types.
abbrev pub IsSized : PolicyKey → Type 0
IsSized key = (key.exe_ino < 2 ^ 64) × (key.exe_dev < 2 ^ 32)

pub same_key :
    (a b : PolicyKey) → IsSized a → IsSized b → (to_bytes a == to_bytes b) ≡ (key_of a == key_of b)
same_key a b (ai, ad) (bi, bd) = elim (Bool-cases (key_of a == key_of b)) [
  | inl same ↦
      let e =
        ap (λ (key : Key). to_bytes (record { exe_ino = key.0; exe_dev = key.1 }))
          (==→≡ (key_of a) (key_of b) same) in
      rw e (==_refl (to_bytes b)) ∙ sym same
  | inr differs ↦ elim (Bool-cases (to_bytes a == to_bytes b)) [
    | inr other ↦ other ∙ sym differs
    | inl equal ↦
        let bytes : to_bytes a ≡ to_bytes b = ==→≡ (to_bytes a) (to_bytes b) equal in
        let ino : a.exe_ino ≡ b.exe_ino =
          sym (word-bytes_of a.exe_ino ai) ∙ ap (word_at 0 8) bytes ∙ word-bytes_of b.exe_ino bi in
        let dev : a.exe_dev ≡ b.exe_dev =
          sym (word_of-bytes_of_u32 a.exe_dev ad)
          ∙ ap (word_at 8 4) bytes
          ∙ word_of-bytes_of_u32 b.exe_dev bd in
        let keys : key_of a ≡ key_of b = λ i. (ino i, dev i) in
        absurd (ground (arith, differs, keys, ==_refl (key_of b)))
  ]
]

-- The map of the keys' numbers, as bytes.
abbrev AllSized : Map Key ℕ → Type 0
AllSized m = All (λ ((ino, dev), _). (ino < 2 ^ 64) × (dev < 2 ^ 32)) m

get-entry_bytes :
    (m : Map Key ℕ) (key : PolicyKey)
    → AllSized m
    → IsSized key
    → get (map entry_bytes m) (to_bytes key) ≡ map_some (get m (key_of key)) (bytes_of 4)
unfolding get
get-entry_bytes [] key s k = refl
get-entry_bytes (((ino, dev), perms) ∷ m) key (s, ss) k =
    ground (
      arith,
      get-entry_bytes m key ss k,
      same_key (record { exe_ino = ino; exe_dev = dev }) key s k,
    )

NodupKeys-entry_bytes : (m : Map Key ℕ) → AllSized m → NodupKeys m → NodupKeys (map entry_bytes m)
NodupKeys-entry_bytes [] s u = u
NodupKeys-entry_bytes (((ino, dev), perms) ∷ m) (s, ss) (fresh, u) = (
  ap (λ v. elim v [ none ↦ false | some _ ↦ true ])
        (get-entry_bytes m (record { exe_ino = ino; exe_dev = dev }) ss s)
      ∙ ground (arith, fresh),
  NodupKeys-entry_bytes m ss u,
)

AllSized-insert :
    (key : PolicyKey) (v : ℕ) (m : Map Key ℕ)
    → IsSized key
    → AllSized m
    → AllSized (insert (key_of key) v m)
unfolding insert
AllSized-insert key v [] k s = (k, tt)
AllSized-insert key v ((j, w) ∷ m) k (s, ss) = elim (Bool-cases (j == key_of key)) [
  | inl same ↦ rw (same, ◌==◌) (k, ss)
  | inr other ↦ rw (other, ◌==◌) (s, AllSized-insert key v m k ss)
]

AllSized-merge_entries :
    (entries : List PolicyEntry) (m : Map Key ℕ)
    → All (λ (e : PolicyEntry). IsSized e.key) entries
    → AllSized m
    → AllSized (merge_entries entries m)
unfolding merge_entries
AllSized-merge_entries [] m h s = s
AllSized-merge_entries (e ∷ entries) m (k, h) s =
    AllSized-merge_entries entries (merge_entry e m) h
      (AllSized-insert e.key (bit_or 32 (perms_of m (key_of e.key)) e.perms) m k s)

value_grants-bytes_of :
    (perm : Perm) (perms : Option ℕ)
    → value_grants (has perm) (map_some perms (bytes_of 4)) ≡ has perm (unwrap_or perms 0)
value_grants-bytes_of perm_camera none = ground arith
value_grants-bytes_of perm_camera (some perms) = has_camera-bytes_of perms
value_grants-bytes_of perm_audio none = ground arith
value_grants-bytes_of perm_audio (some perms) = has_audio-bytes_of perms

to_map-granted :
    (perm : Perm) (policy : Policy) (key : Key)
    → has perm (perms_of (to_map policy) key) ≡ granted (has perm) policy.entries key
to_map-granted perm_camera policy key = (to_map_lem policy key).1
to_map-granted perm_audio policy key = (to_map_lem policy key).2

or_else-none : (v : Option Bytes) → or_else v none ≡ v
or_else-none none = refl
or_else-none (some v) = refl

-- What `main` programs for a policy.
pub grants-programmed :
    (perm : Perm) (refused : Bytes → Bool) (policy : Policy) (key : PolicyKey)
    → All (λ (e : PolicyEntry). IsSized e.key) policy.entries
    → IsSized key
    → (put_all refused (map entry_bytes (to_map policy))).1 ≡ true
    → grants
        (has perm)
        (after_calls [] (put_all refused (map entry_bytes (to_map policy))).0)
        (to_bytes key)
      ≡ granted (has perm) policy.entries (key_of key)
unfolding to_map get
grants-programmed perm refused policy key sized k ok =
    let m = to_map policy in
    let s = AllSized-merge_entries policy.entries [] sized tt in
    ap (value_grants (has perm)) (
      get-put_all refused (map entry_bytes m) [] (to_bytes key)
        (NodupKeys-entry_bytes m s (to_map_lem policy (key_of key)).0) ok
      ∙ ap (λ v. or_else v none) (get-entry_bytes m key s k)
      ∙ or_else-none (map_some (get m (key_of key)) (bytes_of 4)))
    ∙ value_grants-bytes_of perm (get m (key_of key))
    ∙ to_map-granted perm policy (key_of key)
