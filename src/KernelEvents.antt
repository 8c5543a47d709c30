-- ===== src/KernelEvents.antt =====
-- hwprivacy-lsm/src/event.rs: the bytes that the BPF program writes. A byte is a number below 256, and
-- the native order is that of a little-endian machine.
use Prim.Native.Nat.{◌-◌}
use mathlib.Core.Option.{some-injective, none-ne-some}
use hwprivacy.Common.{
  ℕ, zero, suc, ◌+◌, ◌*◌, ◌/◌, ◌%◌, ◌^◌, ◌<◌, ◌≡◌, subst, refl, ap, ◌∙◌, Bool, true, false, not,
  ◌&&◌, ◌||◌, Option, none, some, List, [], ◌∷◌, ◌++◌, arith, ◌==◌, nat_eq, if◌then◌else◌, length,
  take, drop, ltb, leb,
}

-- `from_ne_bytes` and `to_ne_bytes`
abbrev pub word_of : List ℕ → ℕ
word_of [] = 0
word_of (b ∷ bytes) = b + 256 * word_of bytes

abbrev pub bytes_of : ℕ → ℕ → List ℕ
bytes_of zero v = []
bytes_of (suc n) v = v % 256 ∷ bytes_of n (v / 256)

abbrev pub word_at : ℕ → ℕ → List ℕ → ℕ
word_at offset size bytes = word_of (take size (drop offset bytes))

-- `EventKind`
pub data EventKind : Type 0 where
  open_event release_event : EventKind

-- `DevEvent`
pub record DevEvent : Type 0 where
  pub exe_ino : ℕ
  pub exe_dev : ℕ
  pub pid : ℕ
  pub tgid : ℕ
  pub dev_major : ℕ
  pub dev_minor : ℕ
  pub denied : Bool
  pub suppressed : ℕ
  pub kind : EventKind
  pub comm : List ℕ

-- `EVENT_SIZE`, `COMM_OFF` and `COMM_LEN`
abbrev pub event_size : ℕ
event_size = 56

abbrev pub comm_off : ℕ
comm_off = 40

abbrev pub comm_len : ℕ
comm_len = 16

-- The bytes before the first zero.
abbrev pub until_nul : List ℕ → List ℕ
until_nul [] = []
until_nul (b ∷ bytes) = if b == 0 then [] else b ∷ until_nul bytes

-- `DevEvent::parse`, with the bytes of `comm` before they are read as UTF-8.
unfoldable pub parse_event : List ℕ → Option DevEvent
parse_event bytes =
    if ltb (length bytes) event_size
    then none
    else some (record {
      exe_ino = word_at 0 8 bytes;
      exe_dev = word_at 8 4 bytes;
      pid = word_at 12 4 bytes;
      tgid = word_at 16 4 bytes;
      dev_major = word_at 20 4 bytes;
      dev_minor = word_at 24 4 bytes;
      denied = not (word_at 28 4 bytes == 0);
      suppressed = word_at 32 4 bytes;
      kind = if word_at 36 4 bytes == 1 then release_event else open_event;
      comm = until_nul (take comm_len (drop comm_off bytes));
    })

-- `CoalesceEntry`
pub record CoalesceEntry : Type 0 where
  pub exe_ino : ℕ
  pub exe_dev : ℕ
  pub dev_major : ℕ
  pub last_ns : ℕ
  pub suppressed : ℕ
  pub denied : Bool

abbrev pub entry_of : List ℕ → List ℕ → CoalesceEntry
entry_of key value = record {
  exe_ino = word_at 0 8 key;
  exe_dev = word_at 8 4 key;
  dev_major = word_at 12 4 key;
  last_ns = word_at 0 8 value;
  suppressed = word_at 8 4 value;
  denied = leb 16 (length value) && not (word_at 12 4 value == 0);
}

-- `CoalesceEntry::parse`
unfoldable pub parse_coalesce : List ℕ → List ℕ → Option CoalesceEntry
parse_coalesce key value =
    if ltb (length key) 16 || ltb (length value) 12 then none else some (entry_of key value)

-- `cleared_value`
unfoldable pub cleared_value : CoalesceEntry → List ℕ
cleared_value e = bytes_of 8 e.last_ns ++ bytes_of 4 0 ++ bytes_of 4 (if e.denied then 1 else 0)

-- `is_stale`; `saturating_sub` stops at 0.
abbrev pub is_stale : CoalesceEntry → ℕ → ℕ → Bool
is_stale e now_ns window_ns = ltb 0 e.suppressed && ltb window_ns (now_ns - e.last_ns)

pub word-bytes_of : (v : ℕ) → v < 2 ^ 64 → word_of (bytes_of 8 v) ≡ v
word-bytes_of v h = omega arith

verdict-cleared : (b : Bool) → not (word_of (bytes_of 4 (if b then 1 else 0)) == 0) ≡ b
unfolding nat_eq
verdict-cleared true = refl
verdict-cleared false = refl

entry_of-cleared_value :
    (key value : List ℕ)
    → word_at 0 8 value < 2 ^ 64
    → entry_of key (cleared_value (entry_of key value))
      ≡ record (entry_of key value) { suppressed = 0 }
unfolding cleared_value
entry_of-cleared_value key value small =
    ap
      (λ t. record (entry_of key value) {
        suppressed = 0;
        last_ns = t;
        denied = not (word_of (bytes_of 4 (if (entry_of key value).denied then 1 else 0)) == 0);
      })
      (word-bytes_of (word_at 0 8 value) small)
    ∙ ap (λ b. record (entry_of key value) { suppressed = 0; denied = b })
        (verdict-cleared (entry_of key value).denied)

-- What a guard in front of a result says when there is one.
some-guard :
    {A : Type 0} (short : Bool) (a e : A)
    → (if short then none else some a) ≡ some e
    → (short ≡ false) × (a ≡ e)
some-guard true a e h = absurd (none-ne-some e h)
some-guard false a e h = (refl, some-injective a e h)

left_false : (a b : Bool) → a || b ≡ false → a ≡ false
left_false true b h = h
left_false false b h = refl

-- Clearing the count of a burst that was read from the map, and reading it again under the same key,
-- gives the same burst with no opens: the time of the window and the verdict stay.
pub parse-cleared_value :
    (key value : List ℕ) (e : CoalesceEntry)
    → parse_coalesce key value ≡ some e
    → e.last_ns < 2 ^ 64
    → parse_coalesce key (cleared_value e) ≡ some (record e { suppressed = 0 })
unfolding parse_coalesce cleared_value
parse-cleared_value key value e h small =
    let (guard, p) =
      some-guard (ltb (length key) 16 || ltb (length value) 12) (entry_of key value) e h in
    let long = left_false (ltb (length key) 16) (ltb (length value) 12) guard in
    subst
      (λ x.
        x.last_ns < 2 ^ 64
        → parse_coalesce key (cleared_value x) ≡ some (record x { suppressed = 0 }))
      p (λ s. rw long (ap some (entry_of-cleared_value key value s))) small
