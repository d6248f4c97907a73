-- ===== src/Tests/ReconnectTests.antt =====
-- The reconnect policy at concrete failures.
use openclaw_rust_node.Base.{◌≤◌, ◌≡◌, refl, Option, none, some, [], ◌∷◌, from_secs, arith}
use openclaw_rust_node.Json.Plain.{Plain, plain_json, text, obj, field, end}
use openclaw_rust_node.Client.{ClientError, transport, gateway}
use openclaw_rust_node.Reconnect.Classify.{
  classify_pause, gateway_retry_after, is_session_request_error,
}
use openclaw_rust_node.Reconnect.Policy.{
  ReconnectPolicy, retry_after, available_for_trusted_endpoint, new, after_failure,
}
use openclaw_rust_node.Reconnect.Policy.Delays.{IsTransient, after_failures, backoff_doubles}
use openclaw_rust_node.Reconnect.Policy.Actions.{
  token_retries, token_budget, actions, token_retries-actions,
}

abbrev lost : ClientError Plain
lost = transport "connection reset"

abbrev mismatch : ClientError Plain
mismatch =
    gateway "connect" "UNAUTHORIZED" "no"
      (some (obj (field "code" (text "AUTH_TOKEN_MISMATCH") end))) none none

abbrev limited : Option Plain
limited = some (
    obj (
      field "code" (text " AUTH_RATE_LIMITED ")
        (field "recommendedNextStep" (text "wait_then_retry") end)))

abbrev policy : ReconnectPolicy
policy = new (from_secs 1) (from_secs 30)

lost-IsTransient : IsTransient plain_json lost
unfolding is_session_request_error classify_pause gateway_retry_after
lost-IsTransient = record { of_connection = refl; no_pause = refl; no_delay = refl }

lost_once : (after_failure plain_json policy lost).1 ≡ retry_after (from_secs 1)
unfolding after_failure new is_session_request_error classify_pause gateway_retry_after
lost_once = refl

backoff_doubles_example :
    (after_failure plain_json (after_failures plain_json policy (lost ∷ lost ∷ [])) lost).1
    ≡ retry_after (from_secs 4)
backoff_doubles_example =
    backoff_doubles plain_json (from_secs 1) (from_secs 30) (lost ∷ lost ∷ []) lost (omega arith)
      (omega arith) (lost-IsTransient, (lost-IsTransient, tt)) lost-IsTransient

token_retries-actions_example :
    token_retries (
      actions plain_json policy (
        (mismatch, available_for_trusted_endpoint)
        ∷ (mismatch, available_for_trusted_endpoint)
        ∷ []))
    ≤ token_budget plain_json policy.device_token_retry_used
token_retries-actions_example =
    token_retries-actions plain_json policy
      ((mismatch, available_for_trusted_endpoint) ∷ (mismatch, available_for_trusted_endpoint) ∷ [])
