-- ===== src/Tests/LifecycleTests.antt =====
-- The lifecycle at a run of three attempts: the first is refused by the network, the second loses its
-- session to a saturated runtime, the third is shut down.
use openclaw_rust_node.Base.{ℕ, true, false, ◌≡◌, refl, none, some, List, [], ◌∷◌, All, from_secs}
use openclaw_rust_node.Json.Plain.{Plain, plain_json, text, number, obj, field, end}
use openclaw_rust_node.Client.{transport}
use openclaw_rust_node.Reconnect.Classify.{
  classify_pause, gateway_retry_after, is_session_request_error,
}
use openclaw_rust_node.Reconnect.Policy.{ReconnectPolicy, after_failure}
use openclaw_rust_node.Reconnect.Policy
use openclaw_rust_node.Reconnect.Policy.Delays.{IsValid, new-IsValid}
use openclaw_rust_node.Lifecycle.{
  NodeLifecycle, new, Attempt, connect_failed, session_opened, saturated, shut_down, run,
  run_attempt, end_session, handle_client_failure, handle_runtime_failure, handle_action,
  backoff_or_stop, connected_event, continue, stops,
}
use openclaw_rust_node.Lifecycle.Trace.{Phase, resting, Steps, Fits, run_follows}
use openclaw_rust_node.Lifecycle.Delays.{WaitsWithin, longest_wait, run_waits_bounded}

abbrev hello : Plain
hello =
    obj (field "protocol" (number 4) (field "server" (obj (field "version" (text "1.2") end)) end))

abbrev pub attempts : List (Attempt Plain)
attempts =
    connect_failed (transport "refused") false
    ∷ session_opened hello (some "token") (saturated false)
    ∷ session_opened hello none (shut_down true)
    ∷ []

abbrev policy : ReconnectPolicy
policy = Policy.new (from_secs 1) (from_secs 30)

abbrev pub lifecycle : NodeLifecycle
lifecycle = new policy

pub run_stops : (run plain_json lifecycle 0 attempts).3 ≡ stops
unfolding run run_attempt end_session handle_client_failure handle_runtime_failure handle_action
    backoff_or_stop connected_event continue new after_failure Policy.new Policy.connected
    is_session_request_error classify_pause gateway_retry_after
run_stops = refl

run_follows_example :
    (m : ℕ) × (q : Phase) × Steps (resting 0) (run plain_json lifecycle 0 attempts).1 q
    × Fits (run plain_json lifecycle 0 attempts).3 m q
run_follows_example = run_follows plain_json lifecycle attempts

lifecycle-IsValid : IsValid lifecycle.reconnect
unfolding new
lifecycle-IsValid = new-IsValid (from_secs 1) (from_secs 30)

run_waits_bounded_example :
    All (WaitsWithin (longest_wait lifecycle)) (run plain_json lifecycle 0 attempts).1
    × IsValid (run plain_json lifecycle 0 attempts).0.reconnect
run_waits_bounded_example = run_waits_bounded plain_json lifecycle attempts lifecycle-IsValid
