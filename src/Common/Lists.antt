-- ===== src/Common/Lists.antt =====
-- Lists measured by native numbers, and the iterator methods that the program chains.
use Prim.Native.Nat.{ℕ, zero, suc, ◌+◌, ◌≤◌}
use mathlib.Core.Path.{◌≡◌, refl}
use mathlib.Core.Bool.{Bool, true, false, ◌&&◌, ◌||◌}
use mathlib.Core.Option.{Option, none, some}
use mathlib.Core.List.{List, [], ◌∷◌, ◌++◌}
use native.Mathlib.Omega.{arith}
use hwprivacy.Common.Equality.{Eq, if◌then◌else◌, contains}

module _ {ℓ} {A : Type ℓ} where
  abbrev pub length : List A → ℕ
  length [] = 0
  length (x ∷ xs) = suc (length xs)

  abbrev pub is_empty : List A → Bool
  is_empty [] = true
  is_empty (x ∷ xs) = false

  abbrev pub take : ℕ → List A → List A
  take zero xs = []
  take (suc n) [] = []
  take (suc n) (x ∷ xs) = x ∷ take n xs

  abbrev pub drop : ℕ → List A → List A
  drop zero xs = xs
  drop (suc n) [] = []
  drop (suc n) (x ∷ xs) = drop n xs

  -- `iter().any(test)` and `iter().all(test)`
  abbrev pub any : (A → Bool) → List A → Bool
  any test [] = false
  any test (x ∷ xs) = test x || any test xs

  abbrev pub all : (A → Bool) → List A → Bool
  all test [] = true
  all test (x ∷ xs) = test x && all test xs

  -- `iter().find(test)`
  abbrev pub find : (A → Bool) → List A → Option A
  find test [] = none
  find test (x ∷ xs) = if test x then some x else find test xs

  -- `retain(test)`, and `iter().filter(test)` collected
  abbrev pub retain : (A → Bool) → List A → List A
  retain test [] = []
  retain test (x ∷ xs) = let rest = retain test xs in if test x then x ∷ rest else rest

  -- `if let Some(slot) = iter_mut().find(test) { *slot = f(slot) }`
  abbrev pub update_first : (A → Bool) → (A → A) → List A → List A
  update_first test f [] = []
  update_first test f (x ∷ xs) = if test x then f x ∷ xs else x ∷ update_first test f xs

  abbrev pub All {κ} : (A → Type κ) → List A → Type κ
  All P [] = Unit
  All P (x ∷ xs) = P x × All P xs

  pub All-map {κ μ} :
      {P : A → Type κ} {Q : A → Type μ} (f : (a : A) → P a → Q a) (xs : List A)
      → All P xs
      → All Q xs
  All-map f [] h = tt
  All-map f (x ∷ xs) (p, ps) = (f x p, All-map f xs ps)

  pub All-append {κ} : (P : A → Type κ) (xs ys : List A) → All P xs → All P ys → All P (xs ++ ys)
  All-append P [] ys h g = g
  All-append P (x ∷ xs) ys (p, h) g = (p, All-append P xs ys h g)

  pub All-middle {κ} :
      (P : A → Type κ) (before after : List A) (x : A) → All P (before ++ x ∷ after) → P x
  All-middle P [] after x (p, ps) = p
  All-middle P (y ∷ before) after x (p, ps) = All-middle P before after x ps

  pub any-All : (p q : A → Bool) (xs : List A) → All (λ x. p x ≡ q x) xs → any p xs ≡ any q xs
  any-All p q [] h = refl
  any-All p q (x ∷ xs) (e, h) = rw (e, any-All p q xs h)

  pub any-append : (p : A → Bool) (xs ys : List A) → any p (xs ++ ys) ≡ (any p xs || any p ys)
  any-append p [] ys = refl
  any-append p (x ∷ xs) ys = ground (arith, any-append p xs ys)

  pub any-retain :
      (p test : A → Bool) (xs : List A) → any p (retain test xs) ≡ any (λ x. test x && p x) xs
  any-retain p test [] = refl
  any-retain p test (x ∷ xs) = ground (arith, any-retain p test xs)

  pub find-retain :
      (p test : A → Bool) (xs : List A) → find p (retain test xs) ≡ find (λ x. test x && p x) xs
  find-retain p test [] = refl
  find-retain p test (x ∷ xs) = ground (arith, find-retain p test xs)

  pub find-append_one :
      (p : A → Bool) (xs : List A) (y : A)
      → find p (xs ++ y ∷ [])
        ≡ elim (find p xs) [ some x ↦ some x | none ↦ if p y then some y else none ]
  find-append_one p [] y = refl
  find-append_one p (x ∷ xs) y = ground (arith, find-append_one p xs y)

  -- What `find` returns passes the test.
  pub find-test : (p : A → Bool) (xs : List A) (x : A) → find p xs ≡ some x → p x ≡ true
  find-test p [] x h = cc
  find-test p (y ∷ ys) x h = ground (arith, find-test p ys x)

  pub retain-le : (test : A → Bool) (xs : List A) → length (retain test xs) ≤ length xs
  retain-le test [] = omega arith
  retain-le test (x ∷ xs) = ground (arith, retain-le test xs)

  pub length-append : (xs ys : List A) → length (xs ++ ys) ≡ length xs + length ys
  length-append [] ys = omega arith
  length-append (x ∷ xs) ys = omega (arith, length-append xs ys)

  pub take-append-drop : (n : ℕ) (xs : List A) → take n xs ++ drop n xs ≡ xs
  take-append-drop zero xs = refl
  take-append-drop (suc n) [] = refl
  take-append-drop (suc n) (x ∷ xs) = rw (take-append-drop n xs)

-- `iter().filter_map(f)` collected.
abbrev pub filter_map {ℓ κ} : {A : Type ℓ} {B : Type κ} → (A → Option B) → List A → List B
filter_map f [] = []
filter_map f (x ∷ xs) = let rest = filter_map f xs in elim (f x) [ none ↦ rest | some y ↦ y ∷ rest ]

pub filter_map_congr {ℓ κ} :
    {A : Type ℓ} {B : Type κ} (f g : A → Option B) (xs : List A)
    → All (λ x. f x ≡ g x) xs
    → filter_map f xs ≡ filter_map g xs
filter_map_congr f g [] h = refl
filter_map_congr f g (x ∷ xs) (e, h) = ground (arith, filter_map_congr f g xs h)

module _ {ℓ κ} {A : Type ℓ} {B : Type κ} (f : A → Option B) (x : A) (xs : List A) where
  pub filter_map-cons_none : f x ≡ none → filter_map f (x ∷ xs) ≡ filter_map f xs
  filter_map-cons_none e = ground arith

  pub filter_map-cons_some : (y : B) → f x ≡ some y → filter_map f (x ∷ xs) ≡ y ∷ filter_map f xs
  filter_map-cons_some y e = ground arith

module _ {ℓ} {A : Type ℓ} ⦃e : Eq A⦄ where
  pub contains-append :
      (xs ys : List A) (a : A) → contains (xs ++ ys) a ≡ (contains xs a || contains ys a)
  contains-append [] ys a = refl
  contains-append (x ∷ xs) ys a = ground (arith, contains-append xs ys a)

  pub contains-retain :
      (test : A → Bool) (xs : List A) (a : A)
      → contains (retain test xs) a ≡ (test a && contains xs a)
  contains-retain test [] a = ground arith
  contains-retain test (x ∷ xs) a = ground (arith, contains-retain test xs a)

  -- No two entries are equal.
  abbrev pub Distinct : List A → Type 0
  Distinct [] = Unit
  Distinct (x ∷ xs) = (contains xs x ≡ false) × Distinct xs
