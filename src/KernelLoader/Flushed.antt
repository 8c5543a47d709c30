-- ===== src/KernelLoader/Flushed.antt =====
-- What `flush_stale_bursts` tells the daemon, and how it leaves the bursts.
use hwprivacy.Common.{
  All-map, true, ltb, leb, ◌%◌, ◌^◌, ◌-◌, ◌&&◌, length, ℕ, ◌+◌, ◌≡◌, refl, sym, subst, ap, ◌∙◌,
  Bool, false, not, ◌||◌, Option, none, some, List, [], ◌∷◌, arith, ◌==◌, ==→≡, ==_refl, nat_eq,
  list_eq, pair_eq, if◌then◌else◌, filter_map, map, contains, Distinct, All, Map, get, insert,
  get-insert, contains_key, Option-cases, Bool-cases, inl, inr,
}
use hwprivacy.Common.Options.{filter_some}
use hwprivacy.Common.Text.{Text, codes}
use hwprivacy.KernelEvents.{
  entry_of, word_of, word_at, CoalesceEntry, parse_coalesce, cleared_value, is_stale, bytes_of,
}
use hwprivacy.KernelLoader.{Bytes, BpfMap}
use hwprivacy.Proto.{KernelEvent}
use hwprivacy.KernelLoader.Bursts.{
  pending_bursts, burst_key, opens_told, opens_counted, burst_event, clear_bursts,
  flush_stale_bursts,
}

-- What the opens of a map's bursts come to, of those that have been quiet for longer than the window.
abbrev pub opens_due : ℕ → ℕ → BpfMap → ℕ
opens_due now_ns window_ns [] = 0
opens_due now_ns window_ns ((key, value) ∷ m) =
    (if leb 16 (length key) && leb 12 (length value) && ltb window_ns (now_ns - word_at 0 8 value)
      then word_at 8 4 value
      else 0)
    + opens_due now_ns window_ns m

-- The value has the time and the verdict of the burst, and no opens.
abbrev pub IsQuiet : Option Bytes → CoalesceEntry → Type 0
IsQuiet found e =
    (value : Bytes) × (found ≡ some value)
    × (length value ≡ 16)
    × (word_at 0 8 value ≡ e.last_ns % 2 ^ 64)
    × (word_at 8 4 value ≡ 0)
    × ((word_at 12 4 value == 0) ≡ not e.denied)

-- What an event tells of a burst: the verdict, the opens, and whether it is of a camera.
abbrev pub told : KernelEvent → Bool × ℕ × Text
told ev = (ev.denied, ev.additional_opens, ev.role)

abbrev pub to_tell : CoalesceEntry → Bool × ℕ × Text
to_tell e = (e.denied, e.suppressed, if e.dev_major == 81 then codes "CAMERA" else codes "AUDIO")

word-bytes_of_wrapped : (v : ℕ) → word_of (bytes_of 8 v) ≡ v % 2 ^ 64
word-bytes_of_wrapped v = omega arith

verdict_kept : (b : Bool) → (word_of (bytes_of 4 (if b then 1 else 0)) == 0) ≡ not b
unfolding nat_eq
verdict_kept true = refl
verdict_kept false = refl

cleared_value-IsQuiet :
    (found : Option Bytes) (e : CoalesceEntry) → found ≡ some (cleared_value e) → IsQuiet found e
unfolding cleared_value
cleared_value-IsQuiet found e h =
    (cleared_value e, h, refl, word-bytes_of_wrapped e.last_ns, refl, verdict_kept e.denied)

abbrev opens_of : Option CoalesceEntry → ℕ
opens_of none = 0
opens_of (some e) = e.suppressed

opens_of_stale :
    (key_length value_length now_ns window_ns : ℕ) (e : CoalesceEntry)
    → opens_of (
        filter_some
          (if ltb key_length 16 || ltb value_length 12 then none else some e)
          (λ e. is_stale e now_ns window_ns))
      ≡ (if leb 16 key_length && leb 12 value_length && ltb window_ns (now_ns - e.last_ns)
          then e.suppressed
          else 0)
opens_of_stale key_length value_length now_ns window_ns e = ground arith

opens_counted-filter_map :
    {A : Type 0} (f : A → Option CoalesceEntry) (x : A) (xs : List A)
    → opens_counted (filter_map f (x ∷ xs)) ≡ opens_of (f x) + opens_counted (filter_map f xs)
opens_counted-filter_map f x xs = elim (Option-cases (f x)) [
  | inl e ↦ ground (arith, e)
  | inr (burst, e) ↦ ground (arith, e)
]

opens_counted-pending :
    (now_ns window_ns : ℕ) (m : BpfMap)
    → opens_counted (pending_bursts now_ns window_ns m) ≡ opens_due now_ns window_ns m
unfolding pending_bursts parse_coalesce
opens_counted-pending now_ns window_ns [] = refl
opens_counted-pending now_ns window_ns ((key, value) ∷ m) =
    opens_counted-filter_map
      (λ (key, value). filter_some (parse_coalesce key value) (λ e. is_stale e now_ns window_ns))
      (key, value) m
    ∙ ap (λ n. n + opens_counted (pending_bursts now_ns window_ns m))
        (opens_of_stale (length key) (length value) now_ns window_ns (entry_of key value))
    ∙ ap
        (λ n.
          (if leb 16 (length key)
              && leb 12 (length value)
              && ltb window_ns (now_ns - word_at 0 8 value)
            then word_at 8 4 value
            else 0)
          + n)
        (opens_counted-pending now_ns window_ns m)

module _ (show : ℕ → Text) (seen_exe : Map (ℕ × ℕ) Text) where
  get-clear_bursts_other :
      (refused : Bytes → Bool) (m : BpfMap) (pending : List CoalesceEntry) (k : Bytes)
      → contains (map burst_key pending) k ≡ false
      → get (clear_bursts show seen_exe refused m pending).bursts k ≡ get m k
  unfolding clear_bursts
  get-clear_bursts_other refused m [] k h = refl
  get-clear_bursts_other refused m (e ∷ pending) k h = ground (
    arith,
    get-clear_bursts_other refused (insert (burst_key e) (cleared_value e) m) pending k,
    get-insert m (burst_key e) k (cleared_value e),
    ==→≡ (burst_key e) k,
    ==_refl k,
  )

  abbrev IsCleared : BpfMap → CoalesceEntry → Type 0
  IsCleared m e = get m (burst_key e) ≡ some (cleared_value e)

  clear_bursts_lem :
      (refused : Bytes → Bool) (m : BpfMap) (pending : List CoalesceEntry) (n : ℕ)
      → (clear_bursts show seen_exe refused m pending).total ≡ some n
      → Distinct (map burst_key pending)
      → (n ≡ opens_counted pending)
        × (opens_told (clear_bursts show seen_exe refused m pending).events ≡ n)
        × All (IsCleared (clear_bursts show seen_exe refused m pending).bursts) pending
  unfolding clear_bursts
  clear_bursts_lem refused m [] n h u = (ground arith, ground arith, tt)
  clear_bursts_lem refused m (e ∷ pending) n h (fresh, u) =
      let m' = insert (burst_key e) (cleared_value e) m in
      let rest = clear_bursts show seen_exe refused m' pending in
      elim (Bool-cases (refused (burst_key e) || not (contains_key m (burst_key e)))) [
        | inl stop ↦ absurd (ground (arith, h, stop))
        | inr goes ↦ elim (Option-cases (rest.total)) [
          | inl failed ↦ absurd (ground (arith, h, goes, failed))
          | inr (later, counted) ↦
              let (a, b, c) = clear_bursts_lem refused m' pending later counted u in
              let total : n ≡ e.suppressed + later = ground (arith, h, goes, counted) in
              let bursts : (clear_bursts show seen_exe refused m (e ∷ pending)).bursts
                  ≡ rest.bursts =
                rw goes in
              let events : (clear_bursts show seen_exe refused m (e ∷ pending)).events
                  ≡ burst_event show seen_exe e ∷ rest.events =
                rw goes in
              (
                ground (arith, a, total),
                ap opens_told events ∙ ground (arith, b, total),
                subst (λ t. IsCleared t e × All (IsCleared t) pending) (sym bursts)
                    (
                      get-clear_bursts_other refused m' pending (burst_key e) fresh
                          ∙ ground (
                            arith,
                            get-insert m (burst_key e) (burst_key e) (cleared_value e),
                            ==_refl (burst_key e),
                          ),
                      c,
                    ),
              )
        ]
      ]

  told-burst_event : (e : CoalesceEntry) → told (burst_event show seen_exe e) ≡ to_tell e
  told-burst_event e = elim (Bool-cases (e.dev_major == 81)) [ inl h ↦ rw h | inr h ↦ rw h ]

  told-clear_bursts :
      (refused : Bytes → Bool) (m : BpfMap) (pending : List CoalesceEntry) (n : ℕ)
      → (clear_bursts show seen_exe refused m pending).total ≡ some n
      → map told (clear_bursts show seen_exe refused m pending).events ≡ map to_tell pending
  unfolding clear_bursts
  told-clear_bursts refused m [] n h = refl
  told-clear_bursts refused m (e ∷ pending) n h =
      let m' = insert (burst_key e) (cleared_value e) m in
      let rest = clear_bursts show seen_exe refused m' pending in
      elim (Bool-cases (refused (burst_key e) || not (contains_key m (burst_key e)))) [
        | inl stop ↦ absurd (ground (arith, h, stop))
        | inr goes ↦ elim (Option-cases (rest.total)) [
          | inl failed ↦ absurd (ground (arith, h, goes, failed))
          | inr (later, counted) ↦
              let events : (clear_bursts show seen_exe refused m (e ∷ pending)).events
                  ≡ burst_event show seen_exe e ∷ rest.events =
                rw goes in
              let first : told (burst_event show seen_exe e) ≡ to_tell e = told-burst_event e in
              ap (map told) events
              ∙ ap (λ t. t ∷ map told rest.events) first
              ∙ ap (λ ts. to_tell e ∷ ts) (told-clear_bursts refused m' pending later counted)
        ]
      ]

  -- When `flush_stale_bursts` ends with a count, and the bursts that it read have different keys, the
  -- count is what the opens come to of the bursts that were quiet for longer than the window. The
  -- events tell the daemon as many: each of the bursts, in order, with its verdict, its opens and
  -- whether it is of a camera. Each of them is left with the time and the verdict that were read and
  -- with no opens, whatever the BPF program wrote to it in the meantime.
  pub flush_stale_bursts_lem :
      (refused : Bytes → Bool) (meanwhile : BpfMap → BpfMap) (now_ns window_ns : ℕ) (m : BpfMap)
      (n : ℕ)
      → (flush_stale_bursts show seen_exe refused meanwhile now_ns window_ns m).total ≡ some n
      → Distinct (map burst_key (pending_bursts now_ns window_ns m))
      → let flushed = flush_stale_bursts show seen_exe refused meanwhile now_ns window_ns m in
        (n ≡ opens_due now_ns window_ns m)
        × (opens_told flushed.events ≡ n)
        × (map told flushed.events ≡ map to_tell (pending_bursts now_ns window_ns m))
        × All
            (λ e. IsQuiet (get flushed.bursts (burst_key e)) e)
            (pending_bursts now_ns window_ns m)
  unfolding flush_stale_bursts
  flush_stale_bursts_lem refused meanwhile now_ns window_ns m n h u =
      let pending = pending_bursts now_ns window_ns m in
      let (a, b, c) = clear_bursts_lem refused (meanwhile m) pending n h u in
      (
        a ∙ opens_counted-pending now_ns window_ns m,
        b,
        told-clear_bursts refused (meanwhile m) pending n h,
        All-map (λ e. cleared_value-IsQuiet _ e) pending c,
      )
