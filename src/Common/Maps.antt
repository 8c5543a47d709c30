-- ===== src/Common/Maps.antt =====
-- `HashMap`, `BTreeMap` and `HashSet` as lists of their entries. The order of the list stands for
-- the order of iteration, which the program does not rely on.
use mathlib.Core.Path.{◌≡◌, refl}
use mathlib.Core.Bool.{Bool, true, false}
use mathlib.Core.Option.{Option, none, some}
use mathlib.Core.List.{List, [], ◌∷◌}
use native.Mathlib.Omega.{arith}
use hwprivacy.Common.Equality.{Eq, ◌==◌, if◌then◌else◌}

abbrev pub Map {ℓ κ} : Type ℓ → Type κ → Type (ℓ ⊔ κ)
Map K V = List (K × V)

module _ {ℓ κ} {K : Type ℓ} {V : Type κ} ⦃e : Eq K⦄ where
  unfoldable pub get : Map K V → K → Option V
  get [] k = none
  get ((j, v) ∷ m) k = if j == k then some v else get m k

  unfoldable pub insert : K → V → Map K V → Map K V
  insert k v [] = (k, v) ∷ []
  insert k v ((j, w) ∷ m) = if j == k then (k, v) ∷ m else (j, w) ∷ insert k v m

  -- Every entry of the key goes; a real map has at most one.
  unfoldable pub remove : K → Map K V → Map K V
  remove k [] = []
  remove k ((j, w) ∷ m) = let rest = remove k m in if j == k then rest else (j, w) ∷ rest

  -- `retain(|k, v| test(k, v))`
  unfoldable pub retain_entries : (K → V → Bool) → Map K V → Map K V
  retain_entries test [] = []
  retain_entries test ((j, w) ∷ m) =
      let rest = retain_entries test m in if test j w then (j, w) ∷ rest else rest

  abbrev pub contains_key : Map K V → K → Bool
  contains_key m k = elim (get m k) [ none ↦ false | some _ ↦ true ]

  -- No key has two entries.
  abbrev pub NodupKeys : Map K V → Type 0
  NodupKeys [] = Unit
  NodupKeys ((k, v) ∷ m) = (contains_key m k ≡ false) × NodupKeys m

  pub get-insert :
      (m : Map K V) (k j : K) (v : V) → get (insert k v m) j ≡ (if k == j then some v else get m j)
  unfolding get insert
  get-insert [] k j v = refl
  get-insert ((i, w) ∷ m) k j v = ground (arith, get-insert m k j v)

  pub get-remove : (m : Map K V) (k j : K) → get (remove k m) j ≡ (if k == j then none else get m j)
  unfolding get remove
  get-remove [] k j = ground arith
  get-remove ((i, w) ∷ m) k j = ground (arith, get-remove m k j)

  pub get-retain_entries :
      (test : K → V → Bool) (m : Map K V) (k : K)
      → NodupKeys m
      → get (retain_entries test m) k
        ≡ elim (get m k) [ none ↦ none | some v ↦ if test k v then some v else none ]
  unfolding get retain_entries
  get-retain_entries test [] k u = refl
  get-retain_entries test ((i, w) ∷ m) k (fresh, u) = ground (arith, get-retain_entries test m k u)

  pub NodupKeys-insert : (k : K) (v : V) (m : Map K V) → NodupKeys m → NodupKeys (insert k v m)
  unfolding insert get
  NodupKeys-insert k v [] u = (refl, tt)
  NodupKeys-insert k v ((i, w) ∷ m) (fresh, u) =
      ground (arith, NodupKeys-insert k v m u, get-insert m k i v)

  pub NodupKeys-remove : (k : K) (m : Map K V) → NodupKeys m → NodupKeys (remove k m)
  unfolding remove
  NodupKeys-remove k [] u = tt
  NodupKeys-remove k ((i, w) ∷ m) (fresh, u) =
      ground (arith, NodupKeys-remove k m u, get-remove m k i)

  pub NodupKeys-retain_entries :
      (test : K → V → Bool) (m : Map K V) → NodupKeys m → NodupKeys (retain_entries test m)
  unfolding retain_entries
  NodupKeys-retain_entries test [] u = tt
  NodupKeys-retain_entries test ((i, w) ∷ m) (fresh, u) =
      ground (arith, NodupKeys-retain_entries test m u, get-retain_entries test m i u)

  -- A test of keys alone needs no such condition.
  pub get-retain_keys :
      (test : K → Bool) (m : Map K V) (k : K)
      → get (retain_entries (λ j _. test j) m) k ≡ (if test k then get m k else none)
  unfolding get retain_entries
  get-retain_keys test [] k = ground arith
  get-retain_keys test ((i, w) ∷ m) k = ground (arith, get-retain_keys test m k)
