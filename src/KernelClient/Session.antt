-- ===== src/KernelClient/Session.antt =====
-- hwprivacy-daemon/src/lsm_client.rs: `session`, one connection to the helper, as steps on what comes
-- in: a line of the helper, a change of the rules or sessions, or the tick of the recheck. What
-- `intended_policy` reads of the state is an argument of the steps that read it.
use hwprivacy.Common.{
  ℕ, ◌%◌, ◌^◌, Bool, true, false, Option, none, some, List, [], ◌∷◌, ◌++◌, ◌==◌, nat_eq, list_eq,
  pair_eq, option_eq, bool_eq, if◌then◌else◌, map,
}
use hwprivacy.Common.Text.{Text, codes}
use hwprivacy.Config.Kernel.{CameraGap}
use hwprivacy.Daemon.{DaemonState, Moment, TaskResult}
use hwprivacy.KernelClient.{KernelPause, handle_event}
use hwprivacy.KernelClient.Policy.{Intended, PolicyFingerprint, take_fingerprint, same_fingerprint}
use hwprivacy.Names.{Lowercase}
use hwprivacy.Proto.{
  Request, hello_request, set_policy, Reply, hello, policy_applied, policy_held, event, pong,
  error_reply, UnresolvedEntry, proto_version,
}

-- The variables of `session` that live across its loop.
pub record Session : Type 0 where
  pub fingerprint : PolicyFingerprint
  pub enforce : Bool
  pub enforce_audio : Bool
  pub last_gaps : List (Text × CameraGap)

-- What a step leaves: the session and the requests that it sent.
pub record Sent : Type 0 where
  pub session : Session
  pub requests : List Request

-- What wakes the loop. A line that is blank or does not parse is no reply.
pub data Input : Type 0 where
  line : Option Reply → Input
  policy_changed recheck_tick : Input

-- The state after a reply, or the error that ends the session.
pub data Handled : Type 0 where
  handled : TaskResult → Handled
  protocol_mismatch : ℕ → Handled

abbrev pub policy_request : Intended → Request
policy_request intended = set_policy intended.entries intended.enforce_camera intended.enforce_audio

-- `format!("{}: {}", u.exe_path, u.reason)`
abbrev pub unresolved_text : UnresolvedEntry → Text
unresolved_text u = u.exe_path ++ codes ": " ++ u.reason

module _ (stat_identity : Text → Option (ℕ × ℕ)) where
  abbrev pub fingerprint_of : Intended → PolicyFingerprint
  fingerprint_of intended =
      take_fingerprint stat_identity intended.entries intended.enforce_camera intended.enforce_audio

  -- The handshake, and the policy at once.
  unfoldable pub start_session : Intended → Sent
  start_session intended = record {
    session = record {
      fingerprint = fingerprint_of intended;
      enforce = intended.enforce_camera;
      enforce_audio = intended.enforce_audio;
      last_gaps = intended.gaps;
    };
    requests = hello_request proto_version ∷ policy_request intended ∷ [];
  }

  -- `if next != fingerprint { .. }`, which is the same on a change and on a tick.
  unfoldable pub push_if_changed : Session → Intended → Sent
  push_if_changed session intended =
      let next = fingerprint_of intended in
      if same_fingerprint next session.fingerprint
      then record { session = session; requests = [] }
      else record {
        session = record session { fingerprint = next; enforce = intended.enforce_camera };
        requests = policy_request intended ∷ [];
      }

  -- The tick remembers the gaps that it reported.
  unfoldable pub tick_session : Session → Intended → Sent
  unfolding push_if_changed
  tick_session session intended =
      push_if_changed (record session { last_gaps = intended.gaps }) intended

  -- One round of the loop, as far as the policy goes.
  unfoldable pub session_step : Session → Intended → Input → Sent
  unfolding tick_session
  session_step session intended (line reply) = record { session = session; requests = [] }
  session_step session intended policy_changed = push_if_changed session intended
  session_step session intended recheck_tick = tick_session session intended

module _ ⦃lc : Lowercase⦄ (moment : Moment) (others : KernelPause → DaemonState → DaemonState)
    (session : Session) where
  abbrev pub unchanged_by : DaemonState → Handled
  unchanged_by s = handled (record { state = s; effects = [] })

  -- The `match` on a reply.
  unfoldable pub handle_reply : DaemonState → Reply → Handled
  handle_reply s (hello version enforcing_camera enforcing_audio) =
      let kernel = s.kernel in
      if version == proto_version
      then unchanged_by (record s {
        kernel = record kernel {
          connected = true;
          enforcing_camera = enforcing_camera;
          enforcing_audio = enforcing_audio;
          last_error = none;
        };
      })
      else protocol_mismatch version
  handle_reply s (policy_applied applied unresolved) =
      let kernel = s.kernel in
      unchanged_by (record s {
        kernel = record kernel {
          allowed_exes = applied % 2 ^ 32;
          enforcing_camera = session.enforce;
          enforcing_audio = session.enforce_audio;
          unresolved = map unresolved_text unresolved;
        };
      })
  handle_reply s (event ev) = handled (handle_event moment others s ev)
  handle_reply s (policy_held entries) = unchanged_by s
  handle_reply s pong = unchanged_by s
  handle_reply s (error_reply message) =
      let kernel = s.kernel in
      unchanged_by (record s { kernel = record kernel { last_error = some message } })

-- After the session, whether it ended by an error or not.
unfoldable pub disconnect : DaemonState → Option Text → DaemonState
disconnect s e =
    let kernel = s.kernel in
    record s {
      kernel = record kernel {
        connected = false;
        enforcing_camera = false;
        enforcing_audio = false;
        last_error = elim e [ none ↦ kernel.last_error | some message ↦ some message ];
      };
    }
