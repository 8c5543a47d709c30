-- ===== src/History.antt =====
-- hwprivacy-daemon/src/history.rs: who touched a device, how often, and since when. The file that
-- keeps the table is not modelled, except that saving clears `dirty`.
use hwprivacy.Common.{
  ℕ, ◌+◌, ◌≤◌, ◌≡◌, sym, ap, subst, ◌∙◌, Bool, true, ◌&&◌, Option, none, some, List, [], ◌∷◌, arith,
  ◌==◌, ==→≡, nat_eq, list_eq, pair_eq, if◌then◌else◌, map, ltb, Map, get, insert, get-insert,
  text_le, sort, Bool-cases, Option-cases, inl, inr,
}
use hwprivacy.Common.Text.{Text}

-- `(identity, device, source)`
abbrev pub HistoryKey : Type 0
HistoryKey = (Text × Text) × Text

pub record HistoryEntry : Type 0 where
  pub identity : Text
  pub device : Text
  pub source : Text
  pub denied : ℕ
  pub allowed : ℕ
  pub first_seen : Text
  pub last_seen : Text

pub record History : Type 0 where
  pub by_key : Map HistoryKey HistoryEntry
  pub dirty : Bool

-- `u32::saturating_add`
abbrev pub saturating_add : ℕ → ℕ → ℕ
saturating_add a b = if ltb 4_294_967_295 (a + b) then 4_294_967_295 else a + b

-- `or_insert_with`
abbrev pub new_entry : HistoryKey → Text → HistoryEntry
new_entry ((identity, device), source) now = record {
  identity = identity;
  device = device;
  source = source;
  denied = 0;
  allowed = 0;
  first_seen = now;
  last_seen = now;
}

abbrev pub entry_or_new : Option HistoryEntry → HistoryKey → Text → HistoryEntry
entry_or_new none key now = new_entry key now
entry_or_new (some e) key now = e

abbrev pub count_access : HistoryEntry → ℕ → ℕ → Text → HistoryEntry
count_access e denied allowed now = record e {
  denied = saturating_add e.denied denied;
  allowed = saturating_add e.allowed allowed;
  last_seen = now;
}

-- `History::record`, for the three parts of the key.
unfoldable pub record_access : History → HistoryKey → ℕ → ℕ → Text → History
record_access h key denied allowed now = if denied == 0 && allowed == 0 then h else record {
  by_key =
      insert key (count_access (entry_or_new (get h.by_key key) key now) denied allowed now)
        h.by_key;
  dirty = true;
}

unfoldable pub record_denied : History → HistoryKey → ℕ → Text → History
unfolding record_access
record_denied h key count now = record_access h key count 0 now

unfoldable pub record_allowed : History → HistoryKey → ℕ → Text → History
unfolding record_access
record_allowed h key count now = record_access h key 0 count now

-- The comparison of `sorted`: most denials first, then most allowed, then by identity.
abbrev pub entry_le : HistoryEntry → HistoryEntry → Bool
entry_le a b =
    if a.denied == b.denied
    then if a.allowed == b.allowed then text_le a.identity b.identity else ltb b.allowed a.allowed
    else ltb b.denied a.denied

-- The order of the keys of the `BTreeMap`, in which it lists its entries.
abbrev pub key_le : HistoryKey × HistoryEntry → HistoryKey × HistoryEntry → Bool
key_le (((a, b), c), _) (((d, e), f), _) =
    if a == d then if b == e then text_le c f else text_le b e else text_le a d

unfoldable pub sorted : History → List HistoryEntry
sorted h = sort entry_le (map (λ (_, e). e) (sort key_le h.by_key))

-- An access as the daemon records it: the key, the opens it stands for, and whether it was denied.
pub record Access : Type 0 where
  pub key : HistoryKey
  pub count : ℕ
  pub was_denied : Bool
  pub now : Text

abbrev pub record_one : History → Access → History
record_one h a =
    if a.was_denied
    then record_denied h a.key a.count a.now
    else record_allowed h a.key a.count a.now

abbrev pub record_each : History → List Access → History
record_each h [] = h
record_each h (a ∷ accesses) = record_each (record_one h a) accesses

abbrev pub denied_count : History → HistoryKey → ℕ
denied_count h key = elim (get h.by_key key) [ none ↦ 0 | some e ↦ e.denied ]

-- The denied opens of a key among some accesses.
abbrev pub denials : HistoryKey → List Access → ℕ
denials key [] = 0
denials key (a ∷ accesses) =
    (if a.was_denied && a.key == key then a.count else 0) + denials key accesses

pub denied_count-record_access :
    (h : History) (key other : HistoryKey) (denied allowed : ℕ) (now : Text)
    → denied_count h other ≤ 4_294_967_295
    → denied_count (record_access h key denied allowed now) other
      ≡ saturating_add (denied_count h other) (if key == other then denied else 0)
unfolding record_access
denied_count-record_access h key other denied allowed now b = ground (
  arith,
  get-insert h.by_key key other
      (count_access (entry_or_new (get h.by_key key) key now) denied allowed now),
  Option-cases (get h.by_key key),
  Option-cases (get h.by_key other),
  Bool-cases (key == other),
  ==→≡ key other,
)

denied_count-record_one :
    (h : History) (a : Access) (key : HistoryKey)
    → denied_count h key ≤ 4_294_967_295
    → denied_count (record_one h a) key
      ≡ saturating_add (denied_count h key) (if a.was_denied && a.key == key then a.count else 0)
unfolding record_denied record_allowed
denied_count-record_one h a key b = elim (Bool-cases a.was_denied) [
  | inl e ↦ rw (e) (denied_count-record_access h a.key key a.count 0 a.now b)
  | inr e ↦ rw (e) (
      ground (
        arith,
        denied_count-record_access h a.key key 0 a.count a.now b,
        Bool-cases (a.key == key),
      ))
]

pub saturating_add-le : (a b : ℕ) → saturating_add a b ≤ 4_294_967_295
saturating_add-le a b = ground (arith, Bool-cases (ltb 4_294_967_295 (a + b)))

saturating_add_assoc :
    (a b c : ℕ) → saturating_add (saturating_add a b) c ≡ saturating_add a (b + c)
saturating_add_assoc a b c =
    ground
      (arith, Bool-cases (ltb 4_294_967_295 (a + b)), Bool-cases (ltb 4_294_967_295 (a + (b + c))))

-- From a table whose count of denials for a key fits in 32 bits, any accesses leave the count that
-- was there and the denied opens of that very key, together, or the largest 32-bit number if they
-- are more. Allowed accesses and other keys count for nothing in it.
pub denied_count-record_each :
    (h : History) (accesses : List Access) (key : HistoryKey)
    → denied_count h key ≤ 4_294_967_295
    → denied_count (record_each h accesses) key
      ≡ saturating_add (denied_count h key) (denials key accesses)
denied_count-record_each h [] key b = ground arith
denied_count-record_each h (a ∷ accesses) key b =
    let first = denied_count-record_one h a key b in
    denied_count-record_each (record_one h a) accesses key
      (subst (λ n. n ≤ 4_294_967_295) (sym first) (saturating_add-le _ _))
    ∙ ap (λ n. saturating_add n (denials key accesses)) first
    ∙ saturating_add_assoc (denied_count h key) _ (denials key accesses)
