-- ===== src/Lifecycle.antt =====
-- `NodeLifecycle` (lifecycle.rs): the loop of connections, back-offs and the end by shutdown or pause.
-- What the outside decides of an attempt is a value: how the connection came out, how the session
-- ended, and whether the shutdown was resolved first where the code selects between the two.
pub mod Events
pub mod Trace
pub mod Delays
use openclaw_rust_node.Base.{
  ℕ, String, Bool, true, false, Option, none, some, List, [], ◌∷◌, ◌++◌, from_secs, saturating_add,
  ◌>>=◌,
}
use openclaw_rust_node.Json.{Json}
use openclaw_rust_node.Client.{ClientError}
use openclaw_rust_node.Reconnect.Classify.{ReconnectPause}
use openclaw_rust_node.Reconnect.Policy.{
  ReconnectPolicy, ReconnectAction, keep_session, retry_after, retry_with_stored_device_token_after,
  pause, after_failure,
}
use openclaw_rust_node.Reconnect.Policy
use openclaw_rust_node.Lifecycle.Events.{
  class_of, RuntimeErrorClass, delivery_saturated, result_task, DisconnectReason, client, runtime,
  runtime_ended, shutdown, LifecycleEvent, connecting, connected, ready, disconnected, backing_off,
  paused, stopped, IssuedDeviceToken,
}

pub record NodeLifecycle : Type 0 where
  pub reconnect : ReconnectPolicy
  pub shutdown_grace : ℕ
  pub runtime_restart_delay : ℕ

abbrev pub retired_session_retry_delay : ℕ
retired_session_retry_delay = from_secs 1

unfoldable pub new : ReconnectPolicy → NodeLifecycle
new reconnect = record {
  reconnect = reconnect;
  shutdown_grace = from_secs 5;
  runtime_restart_delay = from_secs 1;
}

-- `Ok(false)`, `Ok(true)` and `Err(LifecycleError::Paused)`.
pub data Verdict : Type 0 where
  goes_on stops : Verdict
  pauses : ReconnectPause → Verdict

-- How a ready session ends. The Boolean of a failure tells whether the shutdown is resolved during the
-- back-off, that of the shutdown whether the session drains within the grace.
pub data SessionEnd (V : Type 0) : Type 0 where
  shut_down : Bool → SessionEnd V
  client_failed : ClientError V → Bool → SessionEnd V
  saturated : Bool → SessionEnd V
  task_failed : String → Bool → SessionEnd V
  ended : SessionEnd V

pub data Attempt (V : Type 0) : Type 0 where
  shut_down_connecting : Attempt V
  connect_failed : ClientError V → Bool → Attempt V
  session_opened : (hello : V) (issued_device_token : Option String) → SessionEnd V → Attempt V

-- `backoff_or_stop`: the events and whether the lifecycle stops.
unfoldable pub backoff_or_stop : ℕ → ℕ → DisconnectReason → Bool → List LifecycleEvent × Verdict
backoff_or_stop attempt delay reason true =
    (backing_off attempt delay reason ∷ stopped attempt true ∷ [], stops)
backoff_or_stop attempt delay reason false = (backing_off attempt delay reason ∷ [], goes_on)

unfoldable pub handle_action :
    ℕ → DisconnectReason → ReconnectAction → Bool → List LifecycleEvent × Verdict
unfolding backoff_or_stop
handle_action attempt reason (retry_after delay) stop = backoff_or_stop attempt delay reason stop
handle_action attempt reason (retry_with_stored_device_token_after delay) stop =
    backoff_or_stop attempt delay reason stop
handle_action attempt reason (pause why) stop = (paused attempt why ∷ [], pauses why)
handle_action attempt reason keep_session stop =
    backoff_or_stop attempt retired_session_retry_delay reason stop

unfoldable pub handle_runtime_failure :
    NodeLifecycle → ℕ → RuntimeErrorClass → Bool → List LifecycleEvent × Verdict
unfolding backoff_or_stop
handle_runtime_failure l attempt error stop =
    let (events, verdict) = backoff_or_stop attempt l.runtime_restart_delay (runtime error) stop in
    (disconnected attempt (runtime error) ∷ events, verdict)

module _ (J : Json) where
  open J use {Value, get, as_u64, as_str}

  unfoldable pub handle_client_failure :
      NodeLifecycle → ℕ → ClientError Value → Bool → NodeLifecycle × List LifecycleEvent × Verdict
  unfolding handle_action
  handle_client_failure l attempt error stop =
      let reason = client (class_of error) in
      let (policy, action) = after_failure J l.reconnect error in
      let (events, verdict) = handle_action attempt reason action stop in
      (record l { reconnect = policy }, disconnected attempt reason ∷ events, verdict)

  unfoldable pub connected_event : ℕ → Value → LifecycleEvent
  connected_event attempt hello =
      connected attempt (get hello "protocol" >>= as_u64)
        (get hello "server" >>= (λ server. get server "version") >>= as_str)

  -- The end of a ready session.
  unfoldable pub end_session :
      NodeLifecycle → ℕ → SessionEnd Value → NodeLifecycle × List LifecycleEvent × Verdict
  unfolding handle_client_failure handle_runtime_failure
  end_session l attempt (shut_down drained) =
      (l, disconnected attempt shutdown ∷ stopped attempt drained ∷ [], stops)
  end_session l attempt (client_failed error stop) = handle_client_failure l attempt error stop
  end_session l attempt (saturated stop) =
      let (events, verdict) = handle_runtime_failure l attempt delivery_saturated stop in
      (l, events, verdict)
  end_session l attempt (task_failed reason stop) =
      let (events, verdict) = handle_runtime_failure l attempt result_task stop in
      (l, events, verdict)
  end_session l attempt ended = (l, disconnected attempt runtime_ended ∷ [], goes_on)

  abbrev issued : ℕ → Option String → List IssuedDeviceToken
  issued attempt none = []
  issued attempt (some token) = record { attempt = attempt; token = token } ∷ []

  -- What an attempt leaves: the lifecycle, the events and tokens that are handed out, the verdict.
  abbrev pub Round : Type 0
  Round = NodeLifecycle × List LifecycleEvent × List IssuedDeviceToken × Verdict

  -- One round of the loop.
  unfoldable pub run_attempt : NodeLifecycle → ℕ → Attempt Value → Round
  unfolding end_session connected_event Policy.connected
  run_attempt l attempt shut_down_connecting =
      (l, connecting attempt ∷ stopped attempt true ∷ [], [], stops)
  run_attempt l attempt (connect_failed error stop) =
      let (l', events, verdict) = handle_client_failure l attempt error stop in
      (l', connecting attempt ∷ events, [], verdict)
  run_attempt l attempt (session_opened hello token ending) =
      let (l', events, verdict) =
        end_session (record l { reconnect = Policy.connected l.reconnect }) attempt ending in
      (
        l',
        connecting attempt ∷ connected_event attempt hello ∷ ready attempt ∷ events,
        issued attempt token,
        verdict,
      )

  -- A round and, if it goes on, the later ones.
  unfoldable pub continue : Round → Round → Round
  continue (l, events, tokens, goes_on) (l', later, later_tokens, verdict) =
      (l', events ++ later, tokens ++ later_tokens, verdict)
  continue (l, events, tokens, stops) later = (l, events, tokens, stops)
  continue (l, events, tokens, pauses why) later = (l, events, tokens, pauses why)

  -- The loop over the attempts that the outside provides, after `attempt` earlier ones. It is still
  -- running if they do not end it.
  unfoldable pub run : NodeLifecycle → ℕ → List (Attempt Value) → Round
  unfolding run_attempt continue
  run l attempt [] = (l, [], [], goes_on)
  run l attempt (a ∷ rest) =
      let round = run_attempt l (saturating_add attempt 1) a in
      continue round (run round.0 (saturating_add attempt 1) rest)
