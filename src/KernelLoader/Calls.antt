-- ===== src/KernelLoader/Calls.antt =====
-- What a sequence of calls leaves in a map of the kernel, after each of its calls and at its end.
use hwprivacy.Common.{
  ℕ, zero, suc, ◌-◌, ◌≡◌, ◌⊎◌, refl, ap, ◌∙◌, Bool, true, false, none, List, [], ◌∷◌, ◌++◌, arith,
  ==→≡, ==_refl, nat_eq, list_eq, if◌then◌else◌, contains, take, length, Map, get, insert, remove,
  contains_key, get-insert, get-remove, NodupKeys, Bool-cases, inl, inr,
}
use hwprivacy.Common.Options.{or_else}
use hwprivacy.KernelLoader.{Bytes, BpfMap, MapCall, after_call, after_calls, put_all, delete_all}

pub take-append {ℓ} :
    {A : Type ℓ} (n : ℕ) (xs ys : List A) → take n (xs ++ ys) ≡ take n xs ++ take (n - length xs) ys
take-append zero [] ys = refl
take-append (suc n) [] ys = let e : suc n ≡ suc n - 0 = omega arith in ap (λ k. take k ys) e
take-append zero (x ∷ xs) ys = ground arith
take-append (suc n) (x ∷ xs) ys = ap (λ zs. x ∷ zs) (take-append n xs ys) ∙ ground arith

pub after_calls-append :
    (m : BpfMap) (calls others : List MapCall)
    → after_calls m (calls ++ others) ≡ after_calls (after_calls m calls) others
unfolding after_calls
after_calls-append m [] others = refl
after_calls-append m (call ∷ calls) others = after_calls-append (after_call m call) calls others

-- The updates stop short of their end only if one of them is refused.
pub put_all_refused :
    (refused : Bytes → Bool) (entries : Map Bytes Bytes)
    → (put_all refused entries).1 ≡ false
    → (key : Bytes) × (refused key ≡ true)
unfolding put_all
put_all_refused refused [] h = absurd (cc)
put_all_refused refused ((key, value) ∷ entries) h = elim (Bool-cases (refused key)) [
  | inl stop ↦ (key, stop)
  | inr goes ↦ put_all_refused refused entries (ground (arith, h, goes))
]

pub get-put_all :
    (refused : Bytes → Bool) (entries : Map Bytes Bytes) (m : BpfMap) (k : Bytes)
    → NodupKeys entries
    → (put_all refused entries).1 ≡ true
    → get (after_calls m (put_all refused entries).0) k ≡ or_else (get entries k) (get m k)
unfolding put_all after_calls after_call get
get-put_all refused [] m k u ok = refl
get-put_all refused ((key, value) ∷ entries) m k (fresh, u) ok = ground (
  arith,
  get-put_all refused entries (insert key value m) k u,
  get-insert m key k value,
  ==→≡ key k,
)

-- Whatever number of the updates is done, a key has its old value or its new one.
pub get-put_all-take :
    (refused : Bytes → Bool) (entries : Map Bytes Bytes) (m : BpfMap) (k : Bytes) (n : ℕ)
    → NodupKeys entries
    → let value = get (after_calls m (take n (put_all refused entries).0)) k in
      (value ≡ get m k) ⊎ (contains_key entries k ≡ true) × (value ≡ get entries k)
unfolding put_all after_calls after_call get
get-put_all-take refused [] m k zero u = inl refl
get-put_all-take refused [] m k (suc n) u = inl refl
get-put_all-take refused ((key, value) ∷ entries) m k zero u = inl (ground arith)
get-put_all-take refused ((key, value) ∷ entries) m k (suc n) (fresh, u) = ground (
  arith,
  get-put_all-take refused entries (insert key value m) k n u,
  get-insert m key k value,
  ==→≡ key k,
)

pub get-delete_all :
    (keys : List Bytes) (m : BpfMap) (k : Bytes)
    → get (after_calls m (delete_all keys)) k ≡ (if contains keys k then none else get m k)
unfolding delete_all after_calls after_call
get-delete_all [] m k = refl
get-delete_all (key ∷ keys) m k = ground (
  arith,
  get-delete_all keys (remove key m) k,
  get-remove m key k,
  ==→≡ k key,
  ==→≡ key k,
  ==_refl k,
)

pub get-delete_all-take :
    (keys : List Bytes) (m : BpfMap) (k : Bytes) (n : ℕ)
    → contains keys k ≡ false
    → get (after_calls m (take n (delete_all keys))) k ≡ get m k
unfolding delete_all after_calls after_call
get-delete_all-take [] m k zero h = refl
get-delete_all-take [] m k (suc n) h = refl
get-delete_all-take (key ∷ keys) m k zero h = refl
get-delete_all-take (key ∷ keys) m k (suc n) h =
    ground (
      arith,
      get-delete_all-take keys (remove key m) k n,
      get-remove m key k,
      ==→≡ key k,
      ==_refl k,
    )
