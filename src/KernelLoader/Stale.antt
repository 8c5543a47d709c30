-- ===== src/KernelLoader/Stale.antt =====
-- The calls of `replace_policy`, for the keys that are wanted: what they leave, at the end and on the
-- way.
use hwprivacy.Common.{
  ℕ, ◌-◌, ◌≡◌, ◌⊎◌, refl, ap, ◌∙◌, Bool, true, not, ◌&&◌, List, [], ◌∷◌, ◌++◌, arith, ==→≡, ==_refl,
  nat_eq, list_eq, take, map, retain, length, contains, contains-retain, Map, get, contains_key,
  NodupKeys, Bool-cases,
}
use hwprivacy.Common.Options.{map_some}
use hwprivacy.KernelEvents.{bytes_of}
use hwprivacy.KernelLoader.{Bytes, BpfMap, MapCall, after_calls, put_all, delete_all}
use hwprivacy.KernelLoader.Calls.{
  take-append, after_calls-append, get-put_all, get-put_all-take, get-delete_all,
  get-delete_all-take,
}
use hwprivacy.KernelLoader.Wanted.{HasLength}
use hwprivacy.KernelLoader.Replace.{Wanted, perms_value, is_stale_key, map_keys}

pub get-perms_values :
    (keys : Map Bytes ℕ) (k : Bytes)
    → get (map perms_value keys) k ≡ map_some (get keys k) (bytes_of 4)
unfolding get
get-perms_values [] k = refl
get-perms_values ((key, perms) ∷ keys) k = ground (arith, get-perms_values keys k)

pub NodupKeys-perms_values :
    (keys : Map Bytes ℕ) → NodupKeys keys → NodupKeys (map perms_value keys)
NodupKeys-perms_values [] u = u
NodupKeys-perms_values ((key, perms) ∷ keys) (fresh, u) =
    (ground (arith, get-perms_values keys key), NodupKeys-perms_values keys u)

pub contains-map_keys : (m : BpfMap) (k : Bytes) → contains (map_keys m) k ≡ contains_key m k
unfolding get
contains-map_keys [] k = refl
contains-map_keys ((key, value) ∷ m) k =
    ground (arith, contains-map_keys m k, ==→≡ k key, ==→≡ key k, ==_refl k)

abbrev pub nothing_wanted : Wanted
nothing_wanted = record { keys = []; unresolved = [] }

module _ (keys : Map Bytes ℕ) (refused : Bytes → Bool) (m : BpfMap) where
  abbrev puts : List MapCall
  puts = (put_all refused (map perms_value keys)).0

  abbrev pub stale : List Bytes
  stale = retain (is_stale_key keys) (map_keys (after_calls m puts))

  -- A key that is wanted is not stale, and any other that the map holds is.
  contains-stale :
      HasLength keys
      → (k : Bytes)
      → contains stale k ≡ (not (contains_key keys k) && contains_key (after_calls m puts) k)
  unfolding nat_eq
  contains-stale sized k = ground (
    arith,
    contains-retain (is_stale_key keys) (map_keys (after_calls m puts)) k,
    contains-map_keys (after_calls m puts) k,
    sized k,
    ==_refl (length k),
    Bool-cases (contains_key keys k),
  )

  pub get-replaced :
      HasLength keys
      → NodupKeys keys
      → (put_all refused (map perms_value keys)).1 ≡ true
      → (k : Bytes)
      → get (after_calls m (puts ++ delete_all stale)) k ≡ map_some (get keys k) (bytes_of 4)
  get-replaced sized u ok k =
      ap (λ t. get t k) (after_calls-append m puts (delete_all stale))
      ∙ get-delete_all stale (after_calls m puts) k
      ∙ ground (
        arith,
        contains-stale sized k,
        get-put_all refused (map perms_value keys) m k (NodupKeys-perms_values keys u) ok,
        get-perms_values keys k,
      )

  -- A key that is wanted has, after any number of the calls, its old value or its new one.
  pub get-replacing :
      HasLength keys
      → NodupKeys keys
      → (k : Bytes) (n : ℕ) → contains_key keys k ≡ true
      → let value = get (after_calls m (take n (puts ++ delete_all stale))) k in
        (value ≡ get m k) ⊎ (value ≡ map_some (get keys k) (bytes_of 4))
  get-replacing sized u k n wanted =
      let before = after_calls m (take n puts) in
      let j = n - length puts in
      let e : get (after_calls m (take n (puts ++ delete_all stale))) k ≡ get before k =
        ap (λ calls. get (after_calls m calls) k) (take-append n puts (delete_all stale))
        ∙ ap (λ t. get t k) (after_calls-append m (take n puts) (take j (delete_all stale)))
        ∙ get-delete_all-take stale before k j (ground (arith, contains-stale sized k, wanted)) in
      ground (
        arith,
        e,
        get-put_all-take refused (map perms_value keys) m k n (NodupKeys-perms_values keys u),
        get-perms_values keys k,
      )
