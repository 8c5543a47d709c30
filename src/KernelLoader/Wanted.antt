-- ===== src/KernelLoader/Wanted.antt =====
-- What the first loop of `replace_policy` collects: for each key the permissions of the entries that
-- resolve to it.
use hwprivacy.Common.{
  ℕ, ◌≡◌, ◌⊎◌, refl, sym, ap, ◌∙◌, Bool, true, false, ◌&&◌, ◌||◌, Option, none, some, List, [], ◌∷◌,
  arith, ◌==◌, ==→≡, nat_eq, list_eq, any, length, Map, get, insert, contains_key, get-insert,
  NodupKeys, NodupKeys-insert, Bool-cases, Option-cases, inl, inr,
}
use hwprivacy.Common.Options.{unwrap_or}
use hwprivacy.Common.Text.{Text, codes, starts_with}
use hwprivacy.KernelLoader.{Bytes, to_bytes}
use hwprivacy.KernelLoader.Replace.{Wanted, want_entry, want_entries}
use hwprivacy.KernelPolicy.{PolicyKey}
use hwprivacy.KernelPolicy.Merge.{bit_or}
use hwprivacy.Proto.{PushedEntry}

-- An entry whose path is absolute and resolves to the key has the bit.
abbrev pub gives : (Text → Option PolicyKey) → (ℕ → Bool) → Bytes → PushedEntry → Bool
gives resolve test key e =
    starts_with e.exe_path (codes "/")
    && (elim (resolve e.exe_path) [ none ↦ false | some k ↦ to_bytes k == key ])
    && test e.perms

abbrev pub pushed : (Text → Option PolicyKey) → (ℕ → Bool) → List PushedEntry → Bytes → Bool
pushed resolve test entries key = any (gives resolve test key) entries

-- A key that is written is one of the program's: it has its length.
abbrev pub HasLength : Map Bytes ℕ → Type 0
HasLength m = (k : Bytes) → contains_key m k ≡ true → length k ≡ 16

-- The keys after an entry that resolves.
abbrev add_perms : Map Bytes ℕ → Bytes → ℕ → Map Bytes ℕ
add_perms keys key perms = insert key (bit_or 32 (unwrap_or (get keys key) 0) perms) keys

HasLength-add :
    (keys : Map Bytes ℕ) (key : PolicyKey) (perms : ℕ)
    → HasLength keys
    → HasLength (add_perms keys (to_bytes key) perms)
HasLength-add keys key perms h k = elim (Bool-cases (to_bytes key == k)) [
  | inl same ↦ λ _. ap length (sym (==→≡ (to_bytes key) k same))
  | inr differs ↦ λ held. h k (
      ground (
        arith,
        get-insert keys (to_bytes key) k (bit_or 32 (unwrap_or (get keys (to_bytes key)) 0) perms),
        differs,
        held,
      ))
]

module _ (resolve : Text → Option PolicyKey) (stat_error : Text → Text) where
  abbrev pub want : Wanted → List PushedEntry → Map Bytes ℕ
  want w entries = (want_entries resolve stat_error w entries).keys

  -- What a round does: nothing, for an entry that gives no key anything, or one write.
  want_round :
      (w : Wanted) (e : PushedEntry)
      → (((want_entry resolve stat_error w e).keys ≡ w.keys)
          × ((test : ℕ → Bool) (k : Bytes) → gives resolve test k e ≡ false))
        ⊎ ((key : PolicyKey) × ((want_entry resolve stat_error w e).keys
              ≡ add_perms w.keys (to_bytes key) e.perms)
            × ((test : ℕ → Bool) (k : Bytes)
                → gives resolve test k e ≡ (to_bytes key == k && test e.perms)))
  unfolding want_entry
  want_round w e = elim (Bool-cases (starts_with e.exe_path (codes "/"))) [
    | inr relative ↦ inl (ground (arith, relative), λ test k. ground (arith, relative))
    | inl absolute ↦ elim (Option-cases (resolve e.exe_path)) [
      | inl missing ↦
          inl (ground (arith, absolute, missing), λ test k. ground (arith, absolute, missing))
      | inr (key, found) ↦
          inr (key, ground (arith, absolute, found), λ test k. ground (arith, absolute, found))
    ]
  ]

  pub NodupKeys-want :
      (w : Wanted) (entries : List PushedEntry) → NodupKeys w.keys → NodupKeys (want w entries)
  unfolding want_entries
  NodupKeys-want w [] u = u
  NodupKeys-want w (e ∷ entries) u =
      NodupKeys-want (want_entry resolve stat_error w e) entries (elim (want_round w e) [
        | inl (same, _) ↦ rw same u
        | inr (key, added, _) ↦ rw added (
            NodupKeys-insert (to_bytes key)
              (bit_or 32 (unwrap_or (get w.keys (to_bytes key)) 0) e.perms) w.keys u)
      ])

  pub HasLength-want :
      (w : Wanted) (entries : List PushedEntry) → HasLength w.keys → HasLength (want w entries)
  unfolding want_entries
  HasLength-want w [] h = h
  HasLength-want w (e ∷ entries) h =
      HasLength-want (want_entry resolve stat_error w e) entries (elim (want_round w e) [
        | inl (same, _) ↦ rw same h
        | inr (key, added, _) ↦ rw added (λ k. HasLength-add w.keys key e.perms h k)
      ])

  module _ (test : ℕ → Bool) (merges : (a b : ℕ) → test (bit_or 32 a b) ≡ (test a || test b)) where
    abbrev perms_test : Map Bytes ℕ → Bytes → Bool
    perms_test keys k = test (unwrap_or (get keys k) 0)

    test-add :
        (keys : Map Bytes ℕ) (key k : Bytes) (perms : ℕ) (rest : Bool)
        → (perms_test (add_perms keys key perms) k || rest)
          ≡ (perms_test keys k || (key == k && test perms || rest))
    test-add keys key k perms rest = ground (
      arith,
      get-insert keys key k (bit_or 32 (unwrap_or (get keys key) 0) perms),
      merges (unwrap_or (get keys key) 0) perms,
      ==→≡ key k,
      Bool-cases (key == k),
    )

    pub test-want :
        (w : Wanted) (entries : List PushedEntry) (k : Bytes)
        → perms_test (want w entries) k ≡ (perms_test w.keys k || pushed resolve test entries k)
    unfolding want_entries
    test-want w [] k = ground arith
    test-want w (e ∷ entries) k =
        test-want (want_entry resolve stat_error w e) entries k ∙ elim (want_round w e) [
          | inl (same, gives_none) ↦ rw same (rw (gives_none test k) refl)
          | inr (key, added, gives_key) ↦ rw added (
              rw (gives_key test k)
                (test-add w.keys (to_bytes key) k e.perms (pushed resolve test entries k)))
        ]
