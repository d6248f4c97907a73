-- ===== src/Sidecar/Status.antt =====
-- The status that a runtime reports to its supervisor (sidecar_runtime.rs, `observe_lifecycle`), and how
-- it follows the node's lifecycle.
use mathlib.Core.Path.{subst}
use openclaw_rust_node.Base.{
  ℕ, min, Bool, true, false, ◌≡◌, refl, Option, none, some, List, [], ◌∷◌,
}
use openclaw_rust_node.Json.{Json}
use openclaw_rust_node.Reconnect.Classify.{ReconnectPause}
use openclaw_rust_node.Reconnect.Classify
use openclaw_rust_node.Lifecycle.Events.{DisconnectReason, LifecycleEvent}
use openclaw_rust_node.Lifecycle.Events
use openclaw_rust_node.Lifecycle.{NodeLifecycle, Verdict, goes_on, stops, pauses, Attempt, run}
use openclaw_rust_node.Lifecycle.Trace.{
  Phase, resting, trying, greeted, serving, lost, waiting, over, halted, Step, Steps, here, then_,
  Fits, MayTry, rested, waited, restarted, run_follows,
}
use openclaw_rust_node.Lifecycle.Trace
use openclaw_rust_node.Sidecar.Configuration.{max_portable_json_integer}
use openclaw_rust_node.Sidecar.Messages.{
  SidecarRuntimeManifest, SidecarRuntimeStatus, SidecarRuntimeState, SidecarRuntimeReason,
}
use openclaw_rust_node.Sidecar.Messages

unfoldable pub disconnect_reason : DisconnectReason → SidecarRuntimeReason
disconnect_reason (Events.client Events.configuration) = Messages.configuration
disconnect_reason (Events.client Events.transport) = Messages.transport
disconnect_reason (Events.client Events.protocol) = Messages.protocol
disconnect_reason (Events.client Events.identity) = Messages.identity
disconnect_reason (Events.client Events.gateway) = Messages.gateway
disconnect_reason (Events.client Events.request_timeout) = Messages.request_timeout
disconnect_reason (Events.client Events.event_lagged) = Messages.event_lagged
disconnect_reason (Events.client Events.activation) = Messages.activation
disconnect_reason (Events.runtime Events.delivery_saturated) = Messages.delivery_saturated
disconnect_reason (Events.runtime Events.result_task) = Messages.result_task
disconnect_reason Events.runtime_ended = Messages.runtime_ended
disconnect_reason Events.shutdown = Messages.shutdown

unfoldable pub pause_reason : ReconnectPause → SidecarRuntimeReason
pause_reason (Classify.device_pairing d) = Messages.pairing
pause_reason (Classify.authentication code) = Messages.authentication
pause_reason (Classify.protocol code) = Messages.protocol
pause_reason Classify.configuration = Messages.configuration
pause_reason Classify.local_identity = Messages.identity

unfoldable pub disconnected_state : DisconnectReason → SidecarRuntimeState
disconnected_state Events.shutdown = Messages.draining
disconnected_state Events.runtime_ended = Messages.connecting
disconnected_state (Events.client c) = Messages.connecting
disconnected_state (Events.runtime c) = Messages.connecting

-- The state, the attempt and the reason that an event leads to.
unfoldable pub projection : LifecycleEvent → SidecarRuntimeState × ℕ × Option SidecarRuntimeReason
unfolding disconnect_reason pause_reason disconnected_state
projection (Events.connecting n) = (Messages.connecting, n, none)
projection (Events.connected n p v) = (Messages.connecting, n, none)
projection (Events.ready n) = (Messages.ready, n, none)
projection (Events.disconnected n r) = (disconnected_state r, n, some (disconnect_reason r))
projection (Events.backing_off n d r) = (Messages.backing_off, n, some (disconnect_reason r))
projection (Events.paused n w) = (Messages.paused, n, some (pause_reason w))
projection (Events.stopped n drained) = (Messages.stopped, n, some Messages.shutdown)

unfoldable pub observe_lifecycle :
    SidecarRuntimeManifest → SidecarRuntimeStatus → LifecycleEvent → SidecarRuntimeStatus
unfolding projection
observe_lifecycle manifest status e =
    let (state, attempt, reason) = projection e in
    record {
      state = state;
      manifest_generation = manifest.manifest_generation;
      runtime_version = status.runtime_version;
      attempt = min attempt max_portable_json_integer;
      reason = reason;
    }

-- The status after all the events.
unfoldable pub observe_all :
    SidecarRuntimeManifest → SidecarRuntimeStatus → List LifecycleEvent → SidecarRuntimeStatus
unfolding observe_lifecycle
observe_all manifest status [] = status
observe_all manifest status (e ∷ events) =
    observe_all manifest (observe_lifecycle manifest status e) events

abbrev is_final : SidecarRuntimeState → Bool
is_final Messages.stopped = true
is_final Messages.paused = true
is_final _ = false

-- What the status shows of a phase of the lifecycle.
abbrev Shows : Phase → SidecarRuntimeStatus → Type 0
Shows over status = status.state ≡ Messages.stopped
Shows (halted w) status = (status.state ≡ Messages.paused) × (status.reason ≡ some (pause_reason w))
Shows (resting n) status = is_final status.state ≡ false
Shows (trying n) status = is_final status.state ≡ false
Shows (greeted n) status = is_final status.state ≡ false
Shows (serving n) status = is_final status.state ≡ false
Shows (lost n r) status = is_final status.state ≡ false
Shows (waiting n) status = is_final status.state ≡ false

disconnected-Shows : (r : DisconnectReason) → is_final (disconnected_state r) ≡ false
unfolding disconnected_state
disconnected-Shows Events.shutdown = refl
disconnected-Shows Events.runtime_ended = refl
disconnected-Shows (Events.client c) = refl
disconnected-Shows (Events.runtime c) = refl

MayTry-live :
    {q : Phase} {m : ℕ} (status : SidecarRuntimeStatus)
    → MayTry q m
    → Shows q status
    → is_final status.state ≡ false
MayTry-live status (rested n) s = s
MayTry-live status (waited n) s = s
MayTry-live status (restarted n) s = s

module _ (manifest : SidecarRuntimeManifest) where
  Step-Shows :
      {p q : Phase} {e : LifecycleEvent} (status : SidecarRuntimeStatus)
      → Step p e q
      → Shows q (observe_lifecycle manifest status e)
  unfolding observe_lifecycle projection
  Step-Shows status (Trace.try n) = refl
  Step-Shows status (Trace.retry n) = refl
  Step-Shows status (Trace.restart n) = refl
  Step-Shows status (Trace.greet n p v) = refl
  Step-Shows status (Trace.serve n) = refl
  Step-Shows status (Trace.refuse n c) = disconnected-Shows (Events.client c)
  Step-Shows status (Trace.lose n r) = disconnected-Shows r
  Step-Shows status (Trace.wait_client n d c) = refl
  Step-Shows status (Trace.wait_runtime n d c) = refl
  Step-Shows status (Trace.give_up n c w) = (refl, refl)
  Step-Shows status (Trace.cancel n) = refl
  Step-Shows status (Trace.interrupt n) = refl
  Step-Shows status (Trace.finish n drained) = refl

  Steps-Shows :
      {p q : Phase} {es : List LifecycleEvent} (status : SidecarRuntimeStatus)
      → Steps p es q
      → Shows p status
      → Shows q (observe_all manifest status es)
  unfolding observe_all
  Steps-Shows status (here p) s = s
  Steps-Shows status (then_ {e = e} step steps) s =
      Steps-Shows (observe_lifecycle manifest status e) steps (Step-Shows status step)

  -- What a status says of a verdict.
  abbrev pub Tells : Verdict → SidecarRuntimeStatus → Type 0
  Tells stops status = status.state ≡ Messages.stopped
  Tells (pauses w) status =
      (status.state ≡ Messages.paused) × (status.reason ≡ some (pause_reason w))
  Tells goes_on status = is_final status.state ≡ false

  Fits-Tells :
      (v : Verdict) (m : ℕ) (q : Phase) (status : SidecarRuntimeStatus)
      → Fits v m q
      → Shows q status
      → Tells v status
  Fits-Tells goes_on m q status f s = MayTry-live status f s
  Fits-Tells stops m q status f s = subst (λ p. Shows p status) f s
  Fits-Tells (pauses w) m q status f s = subst (λ p. Shows p status) f s

  -- The status that follows the events of a lifecycle from the configured one shows it stopped exactly
  -- if the run stopped, and paused, with the reason of the pause, if it paused; while the run goes on
  -- it shows neither.
  pub status-Tells :
      (J : Json) (l : NodeLifecycle) (attempts : List (Attempt J.Value))
      (status : SidecarRuntimeStatus)
      → status.state ≡ Messages.configured
      → Tells (run J l 0 attempts).3 (observe_all manifest status (run J l 0 attempts).1)
  status-Tells J l attempts status c =
      let (m, q, t, f) = run_follows J l attempts in
      Fits-Tells (run J l 0 attempts).3 m q _ f (Steps-Shows status t (rw c refl))
