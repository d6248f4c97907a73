-- ===== src/Reconnect/Classify.antt =====
-- The classification of failures (reconnect.rs): what pauses a node, what belongs to one request of
-- a healthy session, and what asks for a stored device token.
use openclaw_rust_node.Base.{
  ℕ, String, Bool, true, false, not, ◌&&◌, ◌||◌, if◌then◌else◌, Option, none, some, str_eq,
  is_false, from_millis,
}
use openclaw_rust_node.Text.{contains}
use openclaw_rust_node.Json.{Json}
use openclaw_rust_node.Client.{
  ClientError, invalid_url, insecure_remote_gateway, transport, tls, connect_timeout,
  challenge_timeout, invalid_challenge, connect_params, identity, gateway, request_timeout,
  write_timeout, closed, invalid_frame, event_lagged, not_activated,
}
use openclaw_rust_node.GatewayClient.{from_value, should_pause_reconnect}
use openclaw_rust_node.Reconnect.Details.{
  DevicePairingRequest, RecoveryStep, wait_then_retry, is_wait_then_retry,
  is_retry_with_device_token, recovery_step, parse_pairing_request, connect_detail_code,
}

pub data ReconnectPause : Type 0 where
  device_pairing : DevicePairingRequest → ReconnectPause
  authentication : (detail_code : String) → ReconnectPause
  protocol : (detail_code : Option String) → ReconnectPause
  configuration local_identity : ReconnectPause

unfoldable pub is_tls_configuration_error : String → Bool
unfolding contains
is_tls_configuration_error reason =
    contains reason "Gateway TLS certificate fingerprint mismatch"
    || contains reason "Gateway TLS fingerprint requires a wss:// URL"

unfoldable pub is_auth_pause_code : String → Bool
is_auth_pause_code code =
    str_eq code "AUTH_TOKEN_MISSING"
    || str_eq code "AUTH_TOKEN_NOT_CONFIGURED"
    || str_eq code "AUTH_BOOTSTRAP_TOKEN_INVALID"
    || str_eq code "AUTH_PASSWORD_MISSING"
    || str_eq code "AUTH_PASSWORD_MISMATCH"
    || str_eq code "AUTH_PASSWORD_NOT_CONFIGURED"
    || str_eq code "AUTH_RATE_LIMITED"
    || str_eq code "AUTH_DEVICE_TOKEN_MISMATCH"
    || str_eq code "AUTH_SCOPE_MISMATCH"
    || str_eq code "AUTH_TOKEN_MISMATCH"
    || str_eq code "CONTROL_UI_DEVICE_IDENTITY_REQUIRED"
    || str_eq code "DEVICE_IDENTITY_REQUIRED"

-- The last tests of the Gateway branch: the recovery advice, then the known codes.
unfoldable pub classify_advice : String → Option RecoveryStep → Option ReconnectPause
classify_advice detail_code (some wait_then_retry) = none
classify_advice detail_code (some _) = some (authentication detail_code)
classify_advice detail_code none =
    if is_auth_pause_code detail_code then some (authentication detail_code) else none

-- The pairing branch: the request pauses the node unless it says otherwise.
unfoldable pub classify_pairing : DevicePairingRequest → Option ReconnectPause
classify_pairing pairing =
    if is_false pairing.pause_reconnect || is_wait_then_retry pairing.recommended_next_step
    then none
    else some (device_pairing pairing)

module _ (J : Json) where
  open J use {Value}

  -- The Gateway branch of `classify_pause`, its detail code computed.
  unfoldable pub classify_gateway : String → Option Value → Option Bool → Option ReconnectPause
  unfolding classify_pairing classify_advice
  classify_gateway detail_code details retryable =
      if str_eq detail_code "PAIRING_REQUIRED"
      then classify_pairing (parse_pairing_request J details)
      else if str_eq detail_code "PROTOCOL_MISMATCH" || str_eq detail_code "CLIENT_VERSION_MISMATCH"
      then some (protocol (some detail_code))
      else if is_false retryable || should_pause_reconnect (from_value J details)
      then some (authentication detail_code)
      else if str_eq detail_code "AUTH_RATE_LIMITED"
      then some (authentication detail_code)
      else classify_advice detail_code (recovery_step J details)

  unfoldable pub classify_pause : ClientError Value → Option ReconnectPause
  unfolding classify_gateway
  classify_pause (invalid_url s) = some configuration
  classify_pause insecure_remote_gateway = some configuration
  classify_pause (tls reason) =
      if is_tls_configuration_error reason then some configuration else none
  classify_pause (connect_params s) = some local_identity
  classify_pause (identity e) = some local_identity
  classify_pause (invalid_challenge s) = some (protocol none)
  classify_pause (invalid_frame s) = some (protocol none)
  classify_pause (gateway method code message details retryable retry_after_ms) =
      classify_gateway (connect_detail_code J code details) details retryable
  classify_pause (transport s) = none
  classify_pause connect_timeout = none
  classify_pause challenge_timeout = none
  classify_pause (request_timeout s) = none
  classify_pause (write_timeout s) = none
  classify_pause (closed s) = none
  classify_pause (event_lagged n) = none
  classify_pause not_activated = none

  unfoldable pub gateway_retry_after : ClientError Value → Option ℕ
  gateway_retry_after (gateway _ _ _ _ _ (some retry_after_ms)) = some (from_millis retry_after_ms)
  gateway_retry_after _ = none

  unfoldable pub gateway_requests_device_token_retry : ClientError Value → Bool
  gateway_requests_device_token_retry (gateway method code _ details _ _) =
      str_eq method "connect"
      && (str_eq (connect_detail_code J code details) "AUTH_TOKEN_MISMATCH"
          || is_retry_with_device_token (recovery_step J details))
  gateway_requests_device_token_retry _ = false

  unfoldable pub is_session_request_error : ClientError Value → Bool
  is_session_request_error (gateway method _ _ _ _ _) = not (str_eq method "connect")
  is_session_request_error (request_timeout method) = not (str_eq method "connect")
  is_session_request_error (event_lagged n) = true
  is_session_request_error not_activated = true
  is_session_request_error _ = false
