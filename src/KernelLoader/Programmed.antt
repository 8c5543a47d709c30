-- ===== src/KernelLoader/Programmed.antt =====
-- What a request leaves: the flags that the helper reports are those that the kernel reads, and a push
-- that is answered with success programs all that it was sent.
use hwprivacy.Common.{
  ℕ, ◌^◌, ◌<◌, ◌≡◌, ◌⊎◌, refl, ap, Bool, true, false, not, none, some, List, [], map, arith, ◌==◌,
  ==_refl, nat_eq, list_eq, if◌then◌else◌, get, insert, get-insert, Bool-cases, Option-cases, inl,
  inr,
}
use hwprivacy.Common.Options.{is_some}
use hwprivacy.Common.Text.{Text}
use hwprivacy.DeviceIndex.{rescan, capture_minors}
use hwprivacy.KernelEvents.{word_at, word-bytes_of}
use hwprivacy.KernelLoader.Calls.{put_all_refused}
use hwprivacy.KernelLoader.{Bytes, BpfMap, MapCall, put_all, after_calls, config_bytes, config_key}
use hwprivacy.KernelLoader.Minors.{minor_entry, minor_calls, push_capture_minors}
use hwprivacy.KernelLoader.Replace.{Replaced, perms_value, want_entries, replace_policy}
use hwprivacy.KernelLoader.Requests.{
  Helper, Machine, cache_text, finish_push, push_minors, push_policy,
}
use hwprivacy.Proto.{PushedEntry, UnresolvedEntry, policy_applied, error_reply}

-- The kernel refuses a write of the machine.
abbrev pub IsRefused : Machine → Type 0
IsRefused machine =
    ((key : Bytes) × (machine.refuses_policy key ≡ true))
    ⊎ ((key : Bytes) × (machine.refuses_minor key ≡ true))
    ⊎ (machine.refuses_config config_key ≡ true)

replace_policy_refused :
    (machine : Machine) (m : BpfMap) (entries : List PushedEntry)
    → (replace_policy machine.resolve machine.stat_error machine.refuses_policy m entries).answer
      ≡ none
    → (key : Bytes) × (machine.refuses_policy key ≡ true)
unfolding replace_policy
replace_policy_refused machine m entries h =
    let keys =
      want_entries machine.resolve machine.stat_error (record { keys = []; unresolved = [] })
        entries in
    let puts = put_all machine.refuses_policy (map perms_value keys.keys) in
    elim (Bool-cases (puts.1)) [
      | inl done ↦ absurd (ground (arith, h, done))
      | inr failed ↦ put_all_refused machine.refuses_policy (map perms_value keys.keys) failed
    ]

minor_calls_refused :
    (refused : Bytes → Bool) (m : BpfMap) (minors : List ℕ)
    → (minor_calls refused m minors).1 ≡ false
    → (key : Bytes) × (refused key ≡ true)
unfolding minor_calls
minor_calls_refused refused m minors h = put_all_refused refused (map minor_entry minors) h

-- The BPF program reads the flags, and the window, of the helper.
abbrev pub IsProgrammed : ℕ → Helper → Type 0
IsProgrammed coalesce_ns h =
    get h.config_map config_key ≡ some (config_bytes h.enforcing h.enforcing_audio coalesce_ns)

module _ (show : ℕ → Text) (coalesce_ns : ℕ) (machine : Machine) (h : Helper)
    (entries : List PushedEntry) (camera audio : Bool) where
  abbrev pub replaced : Replaced
  replaced =
      replace_policy machine.resolve machine.stat_error machine.refuses_policy h.policy_map entries

  abbrev pub found_minors : List ℕ
  found_minors = capture_minors (rescan machine.dev machine.snd)

  abbrev pub minors_done : List MapCall × Bool
  minors_done = minor_calls machine.refuses_minor h.minors_map found_minors

  -- What an error leaves alone.
  abbrev pub KeepsFlags : Helper → Type 0
  KeepsFlags h' =
      (h'.config_map ≡ h.config_map)
      × (h'.enforcing ≡ h.enforcing)
      × (h'.enforcing_audio ≡ h.enforcing_audio)
      × (h'.cache ≡ h.cache)

  abbrev pub Applies : Helper → Type 0
  Applies h' =
      (is_some replaced.answer ≡ true)
      × (minors_done.1 ≡ true)
      × (h' ≡ record {
        policy_map = after_calls h.policy_map replaced.calls;
        config_map = insert config_key (config_bytes camera audio coalesce_ns) h.config_map;
        minors_map = after_calls h.minors_map minors_done.0;
        index = rescan machine.dev machine.snd;
        enforcing = camera;
        enforcing_audio = audio;
        cache = if machine.writes_cache then some (cache_text show entries) else h.cache;
      })

  -- A push ends with an error, or programs all of it.
  pub push_cases :
      let (reply, h') = push_policy show machine coalesce_ns h entries camera audio in
      ((why : Text) × (reply ≡ error_reply why) × (KeepsFlags h' × IsRefused machine))
      ⊎ ((applied : ℕ) × (unresolved : List UnresolvedEntry) × (reply
            ≡ policy_applied applied unresolved)
          × Applies h')
  unfolding push_policy push_minors finish_push push_capture_minors
  push_cases = elim (Option-cases (replaced.answer)) [
    | inl failed ↦
        let r = inl (replace_policy_refused machine h.policy_map entries failed) in
        rw (failed, push_policy) (inl (_, refl, ((refl, refl, refl, refl), r)))
    | inr ((applied, unresolved), answered) ↦ elim (Bool-cases (minors_done.1)) [
      | inr failed ↦
          let r =
            inr
              (inl (minor_calls_refused machine.refuses_minor h.minors_map found_minors failed)) in
          rw (answered, push_policy)
            (rw (failed, push_minors) (inl (_, refl, ((refl, refl, refl, refl), r))))
      | inl done ↦ elim (Bool-cases (machine.refuses_config config_key)) [
        | inl failed ↦
            rw (answered, push_policy)
              (rw (done, push_minors)
                (rw (failed, finish_push)
                  (inl (_, refl, ((refl, refl, refl, refl), inr (inr refl))))))
        | inr room ↦
            rw (answered, push_policy)
              (rw (done, push_minors)
                (rw (room, finish_push) (inr (applied, unresolved, refl, (refl, refl, refl)))))
      ]
    ]
  ]

  pub push_policy-IsProgrammed :
      IsProgrammed coalesce_ns h
      → IsProgrammed coalesce_ns (push_policy show machine coalesce_ns h entries camera audio).1
  push_policy-IsProgrammed p = elim push_cases [
    | inl (why, answered, ((config, flag, flag_audio, cached), _)) ↦ rw (config, flag, flag_audio) p
    | inr (applied, unresolved, answered, (policy, minors, after)) ↦ rw after (
        ground (
          arith,
          get-insert h.config_map config_key config_key (config_bytes camera audio coalesce_ns),
          ==_refl config_key,
        ))
  ]

-- What the BPF program reads of its configuration: two flags that are zero or not, and the window.
abbrev pub read_config : Bytes → Bool × Bool × ℕ
read_config bytes = (not (word_at 0 4 bytes == 0), not (word_at 4 4 bytes == 0), word_at 8 8 bytes)

pub read-config_bytes :
    (camera audio : Bool) (coalesce_ns : ℕ)
    → coalesce_ns < 2 ^ 64
    → read_config (config_bytes camera audio coalesce_ns) ≡ (camera, audio, coalesce_ns)
unfolding config_bytes nat_eq
read-config_bytes true true coalesce_ns h = ap (λ n. (true, true, n)) (word-bytes_of coalesce_ns h)
read-config_bytes true false coalesce_ns h =
    ap (λ n. (true, false, n)) (word-bytes_of coalesce_ns h)
read-config_bytes false true coalesce_ns h =
    ap (λ n. (false, true, n)) (word-bytes_of coalesce_ns h)
read-config_bytes false false coalesce_ns h =
    ap (λ n. (false, false, n)) (word-bytes_of coalesce_ns h)
