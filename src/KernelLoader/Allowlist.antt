-- ===== src/KernelLoader/Allowlist.antt =====
-- `replace_policy` puts the daemon's entries, and nothing else, into the kernel's allowlist, and takes
-- no grant away on the way that both lists give.
use hwprivacy.Common.{
  ℕ, ◌≡◌, ◌⊎◌, refl, sym, ap, ◌∙◌, Bool, true, false, ◌||◌, Option, none, some, List, ◌++◌, arith,
  nat_eq, list_eq, if◌then◌else◌, take, map, Map, get, contains_key, Bool-cases, inl, inr,
}
use hwprivacy.Common.Options.{map_some, unwrap_or, is_some}
use hwprivacy.Common.Text.{Text}
use hwprivacy.KernelEvents.{word_of, word_at, bytes_of}
use hwprivacy.KernelLoader.{Bytes, BpfMap, MapCall, after_calls, put_all, delete_all}
use hwprivacy.KernelLoader.Calls.{get-put_all-take}
use hwprivacy.KernelLoader.Stale.{
  get-perms_values, NodupKeys-perms_values, nothing_wanted, stale, get-replaced, get-replacing,
}
use hwprivacy.KernelLoader.Wanted.{
  pushed, HasLength, want, NodupKeys-want, HasLength-want, test-want,
}
use hwprivacy.KernelLoader.Replace.{perms_value, replace_policy}
use hwprivacy.KernelPerms.{has_camera, has_audio, Perm, perm_camera, perm_audio, has}
use hwprivacy.KernelPolicy.{PolicyKey}
use hwprivacy.KernelPolicy.Merge.{bit_or, has_camera-bit_or, has_audio-bit_or}
use hwprivacy.Proto.{PushedEntry}

-- What the BPF program reads for an executable: a bit of the value, if there is one.
abbrev pub value_grants : (ℕ → Bool) → Option Bytes → Bool
value_grants test none = false
value_grants test (some value) = test (word_at 0 4 value)

abbrev pub grants : (ℕ → Bool) → BpfMap → Bytes → Bool
grants test m key = value_grants test (get m key)

module _ (resolve : Text → Option PolicyKey) (stat_error : Text → Text)
    (refused : Bytes → Bool) where
  abbrev keys_wanted : List PushedEntry → Map Bytes ℕ
  keys_wanted entries = want resolve stat_error nothing_wanted entries

  sized : (entries : List PushedEntry) → HasLength (keys_wanted entries)
  unfolding get
  sized entries = HasLength-want resolve stat_error nothing_wanted entries (λ k h. cc)

  abbrev written : List PushedEntry → List MapCall × Bool
  written entries = put_all refused (map perms_value (keys_wanted entries))

  replace_policy_parts :
      (m : BpfMap) (entries : List PushedEntry)
      → let r = replace_policy resolve stat_error refused m entries in
        (is_some r.answer ≡ (written entries).1)
        × (r.calls ≡ (
            if (written entries).1
            then (written entries).0 ++ delete_all (stale (keys_wanted entries) refused m)
            else (written entries).0))
  unfolding replace_policy
  replace_policy_parts m entries = elim (Bool-cases ((written entries).1)) [
    | inl done ↦ rw done (refl, refl)
    | inr failed ↦ rw failed (refl, refl)
  ]

  module _ (test : ℕ → Bool) (merges : (a b : ℕ) → test (bit_or 32 a b) ≡ (test a || test b))
      (empty : test 0 ≡ false) (reads : (a : ℕ) → test (word_of (bytes_of 4 a)) ≡ test a) where
    test-wanted :
        (entries : List PushedEntry) (k : Bytes)
        → test (unwrap_or (get (keys_wanted entries) k) 0) ≡ pushed resolve test entries k
    unfolding get
    test-wanted entries k =
        test-want resolve stat_error test merges nothing_wanted entries k ∙ ground (arith, empty)

    value_grants-perms :
        (perms : Option ℕ)
        → value_grants test (map_some perms (bytes_of 4)) ≡ test (unwrap_or perms 0)
    value_grants-perms none = sym empty
    value_grants-perms (some perms) = reads perms

    grants-wanted :
        (entries : List PushedEntry) (k : Bytes) (value : Option Bytes)
        → value ≡ map_some (get (keys_wanted entries) k) (bytes_of 4)
        → value_grants test value ≡ pushed resolve test entries k
    grants-wanted entries k value e =
        ap (value_grants test) e
        ∙ value_grants-perms (get (keys_wanted entries) k)
        ∙ test-wanted entries k

    grants-replaced :
        (m : BpfMap) (entries : List PushedEntry) (k : Bytes)
        → let r = replace_policy resolve stat_error refused m entries in
          is_some r.answer ≡ true
          → grants test (after_calls m r.calls) k ≡ pushed resolve test entries k
    grants-replaced m entries k ok =
        let keys = keys_wanted entries in
        let (done, calls) = replace_policy_parts m entries in
        let all_done = sym done ∙ ok in
        let whole = written entries in
        let replaced = whole.0 ++ delete_all (stale keys refused m) in
        grants-wanted entries k _ (
          ap (λ calls. get (after_calls m calls) k)
            (calls ∙ ap (λ b. if b then replaced else whole.0) all_done)
          ∙ get-replaced keys refused m (sized entries)
              (NodupKeys-want resolve stat_error nothing_wanted entries tt) all_done k)

    get-going :
        (m : BpfMap) (entries : List PushedEntry) (k : Bytes) (n : ℕ)
        → contains_key (keys_wanted entries) k ≡ true
        → let value =
            get
              (after_calls m (take n (replace_policy resolve stat_error refused m entries).calls))
              k in
          (value ≡ get m k) ⊎ (value ≡ map_some (get (keys_wanted entries) k) (bytes_of 4))
    get-going m entries k n wanted =
        let keys = keys_wanted entries in
        let u = NodupKeys-want resolve stat_error nothing_wanted entries tt in
        let (_, calls) = replace_policy_parts m entries in
        elim (Bool-cases ((written entries).1)) [
          | inl done ↦ rw (calls, done) (get-replacing keys refused m (sized entries) u k n wanted)
          | inr failed ↦
              rw (calls, failed)
                (ground (
                  arith,
                  get-put_all-take refused (map perms_value keys) m k n
                      (NodupKeys-perms_values keys u),
                  get-perms_values keys k,
                ))
        ]

    grants-replacing :
        (m : BpfMap) (entries : List PushedEntry) (k : Bytes) (n : ℕ)
        → grants test m k ≡ true
        → pushed resolve test entries k ≡ true
        → grants test
            (after_calls m (take n (replace_policy resolve stat_error refused m entries).calls))
            k
          ≡ true
    grants-replacing m entries k n held wanted =
        let key_wanted : contains_key (keys_wanted entries) k ≡ true =
          ground (arith, test-wanted entries k, empty) in
        elim (get-going m entries k n key_wanted) [
          | inl old ↦ ap (value_grants test) old ∙ held
          | inr new ↦ grants-wanted entries k _ new ∙ wanted
        ]

pub has_camera-bytes_of : (a : ℕ) → has_camera (word_of (bytes_of 4 a)) ≡ has_camera a
has_camera-bytes_of a = ground arith

pub has_audio-bytes_of : (a : ℕ) → has_audio (word_of (bytes_of 4 a)) ≡ has_audio a
has_audio-bytes_of a = ground arith

module _ (resolve : Text → Option PolicyKey) (stat_error : Text → Text)
    (refused : Bytes → Bool) where
  -- When `replace_policy` answers with success, the kernel grants an executable a permission exactly if
  -- an entry with an absolute path that resolves to it has the permission's bit, whatever the kernel
  -- held before.
  pub grants-replace_policy :
      (perm : Perm) (m : BpfMap) (entries : List PushedEntry) (k : Bytes)
      → is_some (replace_policy resolve stat_error refused m entries).answer ≡ true
      → grants
          (has perm)
          (after_calls m (replace_policy resolve stat_error refused m entries).calls)
          k
        ≡ pushed resolve (has perm) entries k
  unfolding nat_eq
  grants-replace_policy perm_camera m entries k ok =
      grants-replaced resolve stat_error refused has_camera has_camera-bit_or refl
        has_camera-bytes_of m entries k ok
  grants-replace_policy perm_audio m entries k ok =
      grants-replaced resolve stat_error refused has_audio has_audio-bit_or refl has_audio-bytes_of
        m entries k ok

  -- An executable that has a permission before, and is given it by the entries, has it after every
  -- number of the calls that `replace_policy` makes, also if one of them is refused.
  pub grants-during_replace_policy :
      (perm : Perm) (m : BpfMap) (entries : List PushedEntry) (k : Bytes) (n : ℕ)
      → grants (has perm) m k ≡ true
      → pushed resolve (has perm) entries k ≡ true
      → grants
          (has perm)
          (after_calls m (take n (replace_policy resolve stat_error refused m entries).calls))
          k
        ≡ true
  unfolding nat_eq
  grants-during_replace_policy perm_camera m entries k n =
      grants-replacing resolve stat_error refused has_camera has_camera-bit_or refl
        has_camera-bytes_of m entries k n
  grants-during_replace_policy perm_audio m entries k n =
      grants-replacing resolve stat_error refused has_audio has_audio-bit_or refl has_audio-bytes_of
        m entries k n
