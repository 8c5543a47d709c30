-- ===== src/KernelClient/Reported.antt =====
-- hwprivacy-daemon/src/lsm_client.rs: over a whole session, which policy the helper has and what the
-- daemon reports of it.
use hwprivacy.Common.{
  ℕ, ◌≡◌, refl, ap, ◌∙◌, inl, inr, Bool, Option, none, some, List, [], ◌∷◌, ◌++◌, arith, nat_eq,
  list_eq, Option-cases, pair_eq, option_eq, bool_eq, Bool-cases,
}
use hwprivacy.Common.Text.{Text}
use hwprivacy.Common.Options.{or_else}
use hwprivacy.Config.Kernel.{CameraGap}
use hwprivacy.Daemon.{DaemonState, Moment}
use hwprivacy.KernelClient.{KernelPause}
use hwprivacy.Names.{Lowercase}
use hwprivacy.KernelClient.Policy.{Intended, same_fingerprint}
use hwprivacy.KernelClient.Session.{
  Session, Sent, Input, line, policy_changed, recheck_tick, policy_request, fingerprint_of,
  start_session, push_if_changed, tick_session, session_step, Handled, handled, protocol_mismatch,
  handle_reply,
}
use hwprivacy.Proto.{
  PushedEntry, UnresolvedEntry, Request, hello_request, set_policy, get_policy, ping,
  policy_applied,
}
use hwprivacy.KernelClient.Pushing.{Files}

-- The policy of a request, and the last one of a list.
abbrev pub policy_in : Request → Option (List PushedEntry × (Bool × Bool))
policy_in (hello_request version) = none
policy_in (set_policy entries camera audio) = some (entries, (camera, audio))
policy_in get_policy = none
policy_in ping = none

abbrev pub last_policy : List Request → Option (List PushedEntry × (Bool × Bool))
last_policy [] = none
last_policy (request ∷ requests) = or_else (last_policy requests) (policy_in request)

last_policy-append :
    (xs ys : List Request) → last_policy (xs ++ ys) ≡ or_else (last_policy ys) (last_policy xs)
last_policy-append [] ys = ground (arith, Option-cases (last_policy ys))
last_policy-append (x ∷ xs) ys =
    ground (
      arith,
      last_policy-append xs ys,
      Option-cases (last_policy ys),
      Option-cases (last_policy xs),
    )

-- A session over what comes in, with what is intended and what the file system says at each time.
unfoldable pub run_session : Sent → List (Files × (Intended × Input)) → Sent
run_session sent [] = sent
run_session sent ((files, (intended, input)) ∷ inputs) =
    let next = session_step files sent.session intended input in
    run_session (record { session = next.session; requests = sent.requests ++ next.requests })
      inputs

-- The enforcement flags that the daemon reports after a reply.
abbrev pub flags_reported : Handled → Option (Bool × Bool)
flags_reported (handled o) = some (o.state.kernel.enforcing_camera, o.state.kernel.enforcing_audio)
flags_reported (protocol_mismatch version) = none

-- The policy sent last is the one that the session remembers, with the camera's flag.
abbrev HasSent : Bool → Sent → Type 0
HasSent audio sent =
    (files : Files) × (i : Intended) × (last_policy sent.requests
      ≡ some (i.entries, (i.enforce_camera, i.enforce_audio)))
    × (sent.session.fingerprint ≡ fingerprint_of files i)
    × (sent.session.enforce ≡ i.enforce_camera)
    × (sent.session.enforce_audio ≡ audio)

start-HasSent :
    (files : Files) (started : Intended)
    → HasSent started.enforce_audio (start_session files started)
unfolding start_session
start-HasSent files started = (files, started, refl, refl, refl, refl)

abbrev after_push : Sent → Files → Intended → Session → Sent
after_push sent files intended session =
    let next = push_if_changed files session intended in
    record { session = next.session; requests = sent.requests ++ next.requests }

push-HasSent :
    (audio : Bool) (sent : Sent) (files : Files) (intended : Intended)
    (gaps : List (Text × CameraGap))
    → HasSent audio sent
    → HasSent audio (after_push sent files intended (record sent.session { last_gaps = gaps }))
unfolding push_if_changed
push-HasSent audio sent files intended gaps (before, i, last, known, camera, mic) =
    elim (Bool-cases (same_fingerprint (fingerprint_of files intended) sent.session.fingerprint)) [
      | inl e ↦ rw e (before, i, last_policy-append sent.requests [] ∙ last, known, camera, mic)
      | inr e ↦ rw e (
        files,
        intended,
        last_policy-append sent.requests (policy_request intended ∷ []),
        refl,
        refl,
        mic,
      )
    ]

step-HasSent :
    (audio : Bool) (sent : Sent) (files : Files) (intended : Intended) (input : Input)
    → HasSent audio sent
    → let next = session_step files sent.session intended input in
      HasSent audio (record { session = next.session; requests = sent.requests ++ next.requests })
unfolding session_step tick_session
step-HasSent audio sent files intended (line reply) (before, i, last, known, camera, mic) =
    (before, i, last_policy-append sent.requests [] ∙ last, known, camera, mic)
step-HasSent audio sent files intended policy_changed h =
    push-HasSent audio sent files intended sent.session.last_gaps h
step-HasSent audio sent files intended recheck_tick h =
    push-HasSent audio sent files intended intended.gaps h

run-HasSent :
    (audio : Bool) (inputs : List (Files × (Intended × Input))) (sent : Sent)
    → HasSent audio sent
    → HasSent audio (run_session sent inputs)
unfolding run_session
run-HasSent audio [] sent h = h
run-HasSent audio ((files, (intended, input)) ∷ inputs) sent h =
    run-HasSent audio inputs _ (step-HasSent audio sent files intended input h)

module _ ⦃lc : Lowercase⦄ (moment : Moment) (others : KernelPause → DaemonState → DaemonState) where
  -- Whatever comes in over a session, the policy that was sent last is the one that the session
  -- remembers with its files, and the helper's answer that a policy is applied makes the daemon report
  -- the camera's flag of that policy. The flag of the microphone that it reports is that of the policy
  -- that the session started with, whatever was sent later.
  pub session_flags_lem :
      (s : DaemonState) (files : Files) (started : Intended)
      (inputs : List (Files × (Intended × Input))) (applied : ℕ) (unresolved : List UnresolvedEntry)
      → let sent = run_session (start_session files started) inputs in
        let answered =
          handle_reply moment others sent.session s (policy_applied applied unresolved) in
        (then_ : Files) × (i : Intended) × (last_policy sent.requests
          ≡ some (i.entries, (i.enforce_camera, i.enforce_audio)))
        × (sent.session.fingerprint ≡ fingerprint_of then_ i)
        × (flags_reported answered ≡ some (i.enforce_camera, started.enforce_audio))
  unfolding handle_reply
  session_flags_lem s files started inputs applied unresolved =
      let (then_, i, last, known, camera, mic) =
        run-HasSent started.enforce_audio inputs (start_session files started)
          (start-HasSent files started) in
      (then_, i, last, known, ap some (λ k. (camera k, mic k)))
