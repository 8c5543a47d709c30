-- ===== src/Common/Sorting.antt =====
-- `sort_by` as a stable insertion sort, and the order of texts.
use Prim.Native.Nat.{ℕ}
use mathlib.Core.Path.{◌≡◌, refl}
use mathlib.Core.Bool.{Bool, true, false, ◌&&◌, ◌||◌}
use mathlib.Core.List.{List, [], ◌∷◌}
use native.Mathlib.Omega.{arith}
use hwprivacy.Common.Equality.{◌==◌, nat_eq, ltb, if◌then◌else◌}
use hwprivacy.Common.Lists.{any}

-- `str::cmp` is not greater: UTF-8 orders bytes as it orders code points.
unfoldable pub text_le : List ℕ → List ℕ → Bool
text_le [] t = true
text_le (a ∷ s) [] = false
text_le (a ∷ s) (b ∷ t) = let rest = text_le s t in ltb a b || a == b && rest

module _ {ℓ} {A : Type ℓ} (le : A → A → Bool) where
  unfoldable pub insert_sorted : A → List A → List A
  insert_sorted a [] = a ∷ []
  insert_sorted a (b ∷ bs) =
      let rest = insert_sorted a bs in if le a b then a ∷ b ∷ bs else b ∷ rest

  unfoldable pub sort : List A → List A
  unfolding insert_sorted
  sort [] = []
  sort (a ∷ as_) = insert_sorted a (sort as_)

  any-insert_sorted :
      (p : A → Bool) (a : A) (bs : List A) → any p (insert_sorted a bs) ≡ (p a || any p bs)
  unfolding insert_sorted
  any-insert_sorted p a [] = refl
  any-insert_sorted p a (b ∷ bs) = ground (arith, any-insert_sorted p a bs)

  -- Sorting keeps the elements.
  pub any-sort : (p : A → Bool) (xs : List A) → any p (sort xs) ≡ any p xs
  unfolding sort
  any-sort p [] = refl
  any-sort p (x ∷ xs) = ground (arith, any-insert_sorted p x (sort xs), any-sort p xs)
