-- ===== src/KernelLoader/Replace.antt =====
-- hwprivacy-lsm/src/main.rs: `replace_policy`, which programs the kernel's allowlist. The resolution
-- of a path, and the text of an error, are parameters.
use hwprivacy.Common.{
  ℕ, Bool, not, ◌||◌, Option, none, some, List, [], ◌∷◌, ◌++◌, ◌==◌, nat_eq, list_eq, if◌then◌else◌,
  map, retain, length, Map, get, insert, contains_key,
}
use hwprivacy.Common.Options.{unwrap_or}
use hwprivacy.Common.Text.{Text, codes, starts_with}
use hwprivacy.KernelEvents.{bytes_of}
use hwprivacy.KernelLoader.{Bytes, BpfMap, MapCall, after_calls, put_all, delete_all, to_bytes}
use hwprivacy.KernelPolicy.{PolicyKey}
use hwprivacy.KernelPolicy.Merge.{bit_or}
use hwprivacy.Proto.{PushedEntry, UnresolvedEntry}

-- `wanted` and `unresolved`
pub record Wanted : Type 0 where
  pub keys : Map Bytes ℕ
  pub unresolved : List UnresolvedEntry

abbrev pub push_reason : Wanted → Text → Text → Wanted
push_reason w path reason = record w {
  unresolved = w.unresolved ++ record { exe_path = path; reason = reason } ∷ [];
}

-- The call that writes the permissions of a key.
abbrev pub perms_value : Bytes × ℕ → Bytes × Bytes
perms_value (key, perms) = (key, bytes_of 4 perms)

abbrev pub is_stale_key : Map Bytes ℕ → Bytes → Bool
is_stale_key wanted key = not (length key == 16) || not (contains_key wanted key)

abbrev pub map_keys : BpfMap → List Bytes
map_keys m = map (λ (key, _). key) m

-- The calls, and the answer: the number of keys and the paths that were not resolved.
pub record Replaced : Type 0 where
  pub calls : List MapCall
  pub answer : Option (ℕ × List UnresolvedEntry)

module _ (resolve : Text → Option PolicyKey) (stat_error : Text → Text) where
  -- One round of the first loop.
  unfoldable pub want_entry : Wanted → PushedEntry → Wanted
  want_entry w e =
      if not (starts_with e.exe_path (codes "/"))
      then push_reason w e.exe_path (codes "not an absolute path")
      else elim (resolve e.exe_path) [
        | none ↦ push_reason w e.exe_path (stat_error e.exe_path)
        | some key ↦ record w {
          keys =
              insert (to_bytes key) (bit_or 32 (unwrap_or (get w.keys (to_bytes key)) 0) e.perms)
                w.keys;
        }
      ]

  unfoldable pub want_entries : Wanted → List PushedEntry → Wanted
  want_entries w [] = w
  want_entries w (e ∷ entries) = want_entries (want_entry w e) entries

  -- `replace_policy`. Deleting a key that the map holds does not fail.
  unfoldable pub replace_policy : (Bytes → Bool) → BpfMap → List PushedEntry → Replaced
  replace_policy refused m entries =
      let w = want_entries (record { keys = []; unresolved = [] }) entries in
      let (puts, ok) = put_all refused (map perms_value w.keys) in
      let stale = retain (is_stale_key w.keys) (map_keys (after_calls m puts)) in
      if ok
      then record { calls = puts ++ delete_all stale; answer = some (length w.keys, w.unresolved) }
      else record { calls = puts; answer = none }
