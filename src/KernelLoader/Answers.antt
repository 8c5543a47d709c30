-- ===== src/KernelLoader/Answers.antt =====
-- What the helper's answers tell the daemon: the flags of a greeting, a push that was applied and one
-- that failed.
use hwprivacy.KernelLoader.Captured.{contains_key-minor_calls}
use hwprivacy.KernelLoader.Programmed.{
  IsProgrammed, IsRefused, push_cases, push_policy-IsProgrammed, read_config, read-config_bytes,
}
use hwprivacy.Common.Options.{map_some}
use hwprivacy.Common.{
  ℕ, ◌^◌, ◌<◌, ◌≡◌, refl, ap, ◌∙◌, Bool, some, List, [], ◌∷◌, arith, ==_refl, nat_eq, list_eq, All,
  contains, get, insert, get-insert, contains_key, inl, inr,
}
use hwprivacy.Common.Text.{Text}
use hwprivacy.DeviceIndex.{rescan, capture_minors}
use hwprivacy.KernelEvents.{bytes_of}
use hwprivacy.KernelLoader.{Bytes, BpfMap, config_bytes, config_key}
use hwprivacy.KernelLoader.Allowlist.{grants, grants-replace_policy}
use hwprivacy.KernelLoader.Requests.{Helper, Machine, handle_request}
use hwprivacy.KernelLoader.Wanted.{pushed}
use hwprivacy.KernelPerms.{Perm, has}
use hwprivacy.Proto.{
  PushedEntry, UnresolvedEntry, Request, hello_request, set_policy, get_policy, ping, hello,
  policy_applied, error_reply, proto_version,
}

get-inserted : (m : BpfMap) (key value : Bytes) → get (insert key value m) key ≡ some value
get-inserted m key value = ground (arith, get-insert m key key value, ==_refl key)

module _ (show : ℕ → Text) (coalesce_ns : ℕ) where
  handle_request-IsProgrammed :
      (machine : Machine) (h : Helper) (request : Request)
      → IsProgrammed coalesce_ns h
      → IsProgrammed coalesce_ns (handle_request show machine coalesce_ns h request).1
  unfolding handle_request
  handle_request-IsProgrammed machine h (hello_request version) p = p
  handle_request-IsProgrammed machine h ping p = p
  handle_request-IsProgrammed machine h get_policy p = p
  handle_request-IsProgrammed machine h (set_policy entries camera audio) p =
      push_policy-IsProgrammed show coalesce_ns machine h entries camera audio p

  -- The helper after a sequence of requests, with what the machine answers during each.
  unfoldable pub after_requests : Helper → List (Machine × Request) → Helper
  after_requests h [] = h
  after_requests h ((machine, request) ∷ requests) =
      after_requests (handle_request show machine coalesce_ns h request).1 requests

  after_requests-IsProgrammed :
      (h : Helper) (requests : List (Machine × Request))
      → IsProgrammed coalesce_ns h
      → IsProgrammed coalesce_ns (after_requests h requests)
  unfolding after_requests
  after_requests-IsProgrammed h [] p = p
  after_requests-IsProgrammed h ((machine, request) ∷ requests) p =
      after_requests-IsProgrammed (handle_request show machine coalesce_ns h request).1 requests
        (handle_request-IsProgrammed machine h request p)

  -- From a helper whose configuration is programmed, whatever the daemon asks and whatever of it
  -- fails, the flags that the helper greets with are those that the BPF program reads.
  pub hello-after_requests :
      (h : Helper) (requests : List (Machine × Request)) (machine : Machine) (version : ℕ)
      → IsProgrammed coalesce_ns h
      → coalesce_ns < 2 ^ 64
      → let h' = after_requests h requests in
        (camera audio : Bool) × ((handle_request show machine coalesce_ns h'
            (hello_request version)).0
          ≡ hello proto_version camera audio)
        × (map_some (get h'.config_map config_key) read_config ≡ some (camera, audio, coalesce_ns))
  unfolding handle_request
  hello-after_requests h requests machine version p small =
      let h' = after_requests h requests in
      (
        h'.enforcing,
        h'.enforcing_audio,
        refl,
        ap (λ bytes. map_some bytes read_config) (after_requests-IsProgrammed h requests p)
            ∙ ap some (read-config_bytes h'.enforcing h'.enforcing_audio coalesce_ns small),
      )

module _ (show : ℕ → Text) (coalesce_ns : ℕ) (machine : Machine) (h : Helper)
    (entries : List PushedEntry) (camera audio : Bool) where
  -- A push that is answered with success is in force whole: the kernel grants what the entries that
  -- resolve give, knows the microphones that were found, and reads the flags that were sent.
  pub set_policy_applied :
      (applied : ℕ) (unresolved : List UnresolvedEntry) (perm : Perm) (k : Bytes) (minor : ℕ)
      → (handle_request show machine coalesce_ns h (set_policy entries camera audio)).0
        ≡ policy_applied applied unresolved
      → All (λ x. x < 2 ^ 32) (capture_minors (rescan machine.dev machine.snd))
      → minor < 2 ^ 32
      → coalesce_ns < 2 ^ 64
      → let h' = (handle_request show machine coalesce_ns h (set_policy entries camera audio)).1 in
        (grants (has perm) h'.policy_map k ≡ pushed machine.resolve (has perm) entries k)
        × (contains_key h'.minors_map (bytes_of 4 minor)
            ≡ contains (capture_minors (rescan machine.dev machine.snd)) minor)
        × (map_some (get h'.config_map config_key) read_config ≡ some (camera, audio, coalesce_ns))
  unfolding handle_request
  set_policy_applied applied unresolved perm k minor answered found small window =
      elim (push_cases show coalesce_ns machine h entries camera audio) [
        | inl (why, failed, _) ↦ absurd (cc)
        | inr (_, _, _, (written, known, after)) ↦ (
          ap (λ (h' : Helper). grants (has perm) h'.policy_map k) after
              ∙ grants-replace_policy machine.resolve machine.stat_error machine.refuses_policy perm
                  h.policy_map entries k written,
          ap (λ (h' : Helper). contains_key h'.minors_map (bytes_of 4 minor)) after
              ∙ contains_key-minor_calls machine.refuses_minor h.minors_map
                  (capture_minors (rescan machine.dev machine.snd)) minor found small known,
          ap (λ (h' : Helper). map_some (get h'.config_map config_key) read_config) after
              ∙ ap (λ bytes. map_some bytes read_config)
                  (get-inserted h.config_map config_key (config_bytes camera audio coalesce_ns))
              ∙ ap some (read-config_bytes camera audio coalesce_ns window),
        )
      ]

  -- A push is answered with an error only if the kernel refuses to write a key of one of the maps, and
  -- it leaves the flags, the configuration that the kernel reads and the cache as they were.
  pub set_policy_failed :
      (why : Text)
      → (handle_request show machine coalesce_ns h (set_policy entries camera audio)).0
        ≡ error_reply why
      → let h' = (handle_request show machine coalesce_ns h (set_policy entries camera audio)).1 in
        (h'.config_map ≡ h.config_map)
        × (h'.enforcing ≡ h.enforcing)
        × (h'.enforcing_audio ≡ h.enforcing_audio)
        × (h'.cache ≡ h.cache)
        × IsRefused machine
  unfolding handle_request
  set_policy_failed why failed = elim (push_cases show coalesce_ns machine h entries camera audio) [
    | inl (_, _, ((config, flag, flag_audio, cached), refused)) ↦
        (config, flag, flag_audio, cached, refused)
    | inr (applied, unresolved, answered, _) ↦ absurd (cc)
  ]
