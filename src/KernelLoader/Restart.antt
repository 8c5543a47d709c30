-- ===== src/KernelLoader/Restart.antt =====
-- The policy that a restart reads from the cache is the one that the daemon pushed last.
use mathlib.Core.Option.{some-injective}
use hwprivacy.Common.{
  ℕ, ◌%◌, ◌≡◌, ap, subst, sym, ◌∙◌, Bool, true, false, ◌&&◌, ◌||◌, Option, none, some, List, [],
  ◌∷◌, arith, ◌==◌, nat_eq, list_eq, pair_eq, option_eq, if◌then◌else◌, All, All-append, any-append,
  map, Option-cases, inl, inr,
}
use hwprivacy.Common.Text.{Text, codes, starts_with}
use hwprivacy.KernelLoader.{after_calls, put_all, to_bytes}
use hwprivacy.KernelLoader.Allowlist.{grants, grants-replace_policy}
use hwprivacy.KernelLoader.Boot.{
  Cli, readable, entry_bytes, initial_policy, program_policy, boot, cache_held,
}
use hwprivacy.KernelLoader.Programmed.{push_cases}
use hwprivacy.KernelLoader.Reboot.{IsSized, same_key, grants-programmed}
use hwprivacy.KernelLoader.Requests.{Helper, Machine, cache_text, handle_request}
use hwprivacy.KernelLoader.Wanted.{gives, pushed}
use hwprivacy.KernelPerms.{Perm, perm_camera, perm_audio, has}
use hwprivacy.KernelPolicy.{PolicyKey, PolicyEntry, Policy, empty_policy, push_path, parse}
use hwprivacy.KernelPolicy.Cache.{IsCacheable, load, parse-render_cache}
use hwprivacy.KernelPolicy.Merge.{key_of, to_map, granted}
use hwprivacy.Proto.{PushedEntry, UnresolvedEntry, policy_applied, set_policy}

-- Every file that resolves has numbers that fit.
abbrev pub ResolvesSized : (Text → Option PolicyKey) → Type 0
ResolvesSized resolve = (path : Text) (key : PolicyKey) → resolve path ≡ some key → IsSized key

has-low_bits : (perm : Perm) (perms : ℕ) → has perm (perms % 4) ≡ has perm perms
has-low_bits perm_camera perms = ground arith
has-low_bits perm_audio perms = ground arith

abbrev pairs_of : List PushedEntry → List (Text × ℕ)
pairs_of entries = map (λ (e : PushedEntry). (e.exe_path, e.perms)) entries

or_assoc : (a b c : Bool) → (a || b || c) ≡ (a || (b || c))
or_assoc a b c = ground arith

one_gives :
    (keys bytes low whole absolute : Bool)
    → bytes ≡ keys
    → low ≡ whole
    → absolute ≡ true
    → (keys && low || false) ≡ (absolute && bytes && whole)
one_gives keys bytes low whole absolute e f a = ground arith

module _ (resolve : Text → Option PolicyKey) (fits : ResolvesSized resolve) where
  IsSized-push_path :
      (p : Policy) (perms : ℕ) (path : Text)
      → All (λ (e : PolicyEntry). IsSized e.key) p.entries
      → All (λ (e : PolicyEntry). IsSized e.key) (push_path resolve p perms path).entries
  unfolding push_path
  IsSized-push_path p perms path s = elim (Option-cases (resolve path)) [
    | inl e ↦ rw (e, push_path) s
    | inr (key, e) ↦
        rw (e, push_path)
          (All-append (λ (e : PolicyEntry). IsSized e.key) p.entries
            (record { path = path; key = key; perms = perms } ∷ []) s (fits path key e, tt))
  ]

  granted-push_path :
      (perm : Perm) (key : PolicyKey) (e : PushedEntry) (p : Policy)
      → IsSized key
      → IsCacheable e.exe_path
      → granted (has perm) (push_path resolve p (e.perms % 4) e.exe_path).entries (key_of key)
        ≡ (granted (has perm) p.entries (key_of key) || gives resolve (has perm) (to_bytes key) e)
  unfolding push_path
  granted-push_path perm key e p k (absolute, _, _, _) = elim (Option-cases (resolve e.exe_path)) [
    | inl missing ↦ rw (missing, push_path) (ground (arith, missing, absolute))
    | inr (found, r) ↦
        rw (r, push_path)
          (any-append (λ (x : PolicyEntry). key_of x.key == key_of key && has perm x.perms)
              p.entries (record { path = e.exe_path; key = found; perms = e.perms % 4 } ∷ [])
            ∙ ap (λ b. granted (has perm) p.entries (key_of key) || b)
                (one_gives (key_of found == key_of key) (to_bytes found == to_bytes key)
                  (has perm (e.perms % 4)) (has perm e.perms) (starts_with e.exe_path (codes "/"))
                  (same_key found key (fits e.exe_path found r) k) (has-low_bits perm e.perms)
                  absolute))
  ]

  IsSized-load :
      (entries : List (Text × ℕ)) (p : Policy)
      → All (λ (e : PolicyEntry). IsSized e.key) p.entries
      → All (λ (e : PolicyEntry). IsSized e.key) (load resolve p entries).entries
  unfolding push_path
  IsSized-load [] p s = s
  IsSized-load ((path, perms) ∷ entries) p s =
      IsSized-load entries (push_path resolve p (perms % 4) path)
        (IsSized-push_path p (perms % 4) path s)

  granted-load :
      (perm : Perm) (key : PolicyKey) (entries : List PushedEntry) (p : Policy)
      → IsSized key
      → All (λ (path, _). IsCacheable path) (pairs_of entries)
      → granted (has perm) (load resolve p (pairs_of entries)).entries (key_of key) ≡ (
          granted (has perm) p.entries (key_of key)
          || pushed resolve (has perm) entries (to_bytes key))
  unfolding push_path
  granted-load perm key [] p k h = ground arith
  granted-load perm key (e ∷ entries) p k (cacheable, h) =
      granted-load perm key entries (push_path resolve p (e.perms % 4) e.exe_path) k h
      ∙ ap (λ b. b || pushed resolve (has perm) entries (to_bytes key))
          (granted-push_path perm key e p k cacheable)
      ∙ or_assoc (granted (has perm) p.entries (key_of key))
          (gives resolve (has perm) (to_bytes key) e)
          (pushed resolve (has perm) entries (to_bytes key))

initial_policy-cached :
    (resolve : Text → Option PolicyKey) (cli : Cli) (text : Text)
    → cli.policy_file ≡ none
    → cli.allow ≡ []
    → cli.policy_cache ≡ some (readable text)
    → initial_policy resolve cli ≡ some (parse resolve text)
unfolding initial_policy
initial_policy-cached resolve cli text no_file no_allow cached =
    ground (arith, no_file, no_allow, cached)

policy_map-program_policy :
    (machine : Machine) (cli : Cli) (cache : Option Text) (policy : Policy) (h : Helper)
    → program_policy machine cli cache policy ≡ some h
    → let puts = put_all machine.refuses_policy (map entry_bytes (to_map policy)) in
      (puts.1 ≡ true) × (h.policy_map ≡ after_calls [] puts.0)
unfolding program_policy
policy_map-program_policy machine cli cache policy h programmed = (ground arith, ground arith)

-- What a boot that reads the cache programs.
grants-boot :
    (perm : Perm) (key : PolicyKey) (machine : Machine) (cli : Cli) (text : Text) (h : Helper)
    → IsSized key
    → initial_policy machine.resolve cli ≡ some (parse machine.resolve text)
    → boot machine cli true ≡ some h
    → All (λ (e : PolicyEntry). IsSized e.key) (parse machine.resolve text).entries
    → grants (has perm) h.policy_map (to_bytes key)
      ≡ granted (has perm) (parse machine.resolve text).entries (key_of key)
unfolding boot
grants-boot perm key machine cli text h k initial booted sized =
    let policy = parse machine.resolve text in
    let (done, programmed) =
      policy_map-program_policy machine cli (cache_held cli.policy_cache) policy h
        (rw (initial, boot) at booted) in
    ap (λ m. grants (has perm) m (to_bytes key)) programmed
    ∙ grants-programmed perm machine.refuses_policy policy key sized k done

module _ (show : ℕ → Text) (coalesce_ns : ℕ) (machine : Machine) (h : Helper)
    (entries : List PushedEntry) (camera audio : Bool) where
  -- Where the daemon's push was answered with success and cached, every path of it can stand in the
  -- cache, the numbers of files fit their types and paths resolve as before, a helper that starts from
  -- that cache grants every executable what the helper before it granted.
  pub grants-restart :
      (applied : ℕ) (unresolved : List UnresolvedEntry) (text : Text) (later : Machine) (cli : Cli)
      (restarted : Helper) (perm : Perm) (key : PolicyKey)
      → (handle_request show machine coalesce_ns h (set_policy entries camera audio)).0
        ≡ policy_applied applied unresolved
      → machine.writes_cache ≡ true
      → All
          (λ (path, _). IsCacheable path)
          (map (λ (e : PushedEntry). (e.exe_path, e.perms)) entries)
      → ResolvesSized machine.resolve
      → IsSized key
      → later.resolve ≡ machine.resolve
      → cli.policy_file ≡ none
      → cli.allow ≡ []
      → cli.policy_cache ≡ some (readable text)
      → (handle_request show machine coalesce_ns h (set_policy entries camera audio)).1.cache
        ≡ some text
      → boot later cli true ≡ some restarted
      → grants (has perm) restarted.policy_map (to_bytes key)
        ≡ grants
            (has perm)
            (handle_request show machine coalesce_ns h
              (set_policy entries camera audio)).1.policy_map
            (to_bytes key)
  unfolding handle_request
  grants-restart applied unresolved text later cli restarted perm key answered writes cacheable fits
        k resolves no_file no_allow cached held booted =
      let resolve = machine.resolve in
      let pairs = pairs_of entries in
      elim (push_cases show coalesce_ns machine h entries camera audio) [
        | inl (why, failed, _) ↦ absurd (cc)
        | inr (_, _, _, (written, _, after)) ↦
            let same_text : text ≡ cache_text show entries =
              some-injective text (cache_text show entries) (
                sym held
                ∙ ap (λ (h' : Helper). h'.cache) after
                ∙ ap (λ b. if b then some (cache_text show entries) else h.cache) writes) in
            let parsed : parse later.resolve text ≡ load resolve empty_policy pairs =
              ap (λ r. parse r text) resolves
              ∙ ap (parse resolve) same_text
              ∙ parse-render_cache resolve pairs cacheable in
            let sized =
              subst (λ (policy : Policy). All (λ (e : PolicyEntry). IsSized e.key) policy.entries)
                (sym parsed) (IsSized-load resolve fits pairs empty_policy tt) in
            grants-boot perm key later cli text restarted k
              (initial_policy-cached later.resolve cli text no_file no_allow cached) booted sized
            ∙ ap (λ (policy : Policy). granted (has perm) policy.entries (key_of key)) parsed
            ∙ granted-load resolve fits perm key entries empty_policy k cacheable
            ∙ sym (
                grants-replace_policy resolve machine.stat_error machine.refuses_policy perm
                  h.policy_map entries (to_bytes key) written)
            ∙ sym (ap (λ (h' : Helper). grants (has perm) h'.policy_map (to_bytes key)) after)
      ]
