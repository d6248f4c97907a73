-- ===== src/Reconnect/Policy.antt =====
-- `ReconnectPolicy` (reconnect.rs): the state, the action after a failure, the reset.
pub mod Delays
pub mod Actions
use openclaw_rust_node.Base.{
  ℕ, min, max, Bool, true, false, not, ◌&&◌, if◌then◌else◌, Option, none, some, checked_mul,
  unwrap_or, from_millis, from_secs,
}
use openclaw_rust_node.Json.{Json}
use openclaw_rust_node.Client.{ClientError}
use openclaw_rust_node.Reconnect.Classify.{
  ReconnectPause, classify_pause, gateway_retry_after, gateway_requests_device_token_retry,
  is_session_request_error,
}

pub data ReconnectAction : Type 0 where
  keep_session : ReconnectAction
  retry_after : ℕ → ReconnectAction
  retry_with_stored_device_token_after : ℕ → ReconnectAction
  pause : ReconnectPause → ReconnectAction

pub data StoredDeviceTokenRetry : Type 0 where
  unavailable available_for_trusted_endpoint : StoredDeviceTokenRetry

pub record ReconnectPolicy : Type 0 where
  pub initial_delay : ℕ
  pub maximum_delay : ℕ
  pub next_delay : ℕ
  pub device_token_retry_used : Bool

unfoldable pub new : ℕ → ℕ → ReconnectPolicy
new initial_delay maximum_delay = record {
  initial_delay = initial_delay;
  maximum_delay = max maximum_delay initial_delay;
  next_delay = initial_delay;
  device_token_retry_used = false;
}

abbrev pub default : ReconnectPolicy
unfolding new
default = new (from_secs 1) (from_secs 30)

abbrev pub device_token_retry_delay : ℕ
device_token_retry_delay = from_millis 250

abbrev is_available : StoredDeviceTokenRetry → Bool
is_available available_for_trusted_endpoint = true
is_available unavailable = false

-- The delay that is due, the next one doubled up to the maximum.
unfoldable pub back_off : ReconnectPolicy → ReconnectPolicy × ReconnectAction
back_off p = (
  record p {
    next_delay = min (unwrap_or (checked_mul p.next_delay 2) p.maximum_delay) p.maximum_delay;
  },
  retry_after p.next_delay,
)

-- What follows the test for a pause.
unfoldable pub retry : ReconnectPolicy → Option ℕ → ReconnectPolicy × ReconnectAction
unfolding back_off
retry p (some delay) = (p, retry_after (min delay p.maximum_delay))
retry p none = back_off p

module _ (J : Json) where
  open J use {Value}

  unfoldable pub after_failure_with_device_token :
      ReconnectPolicy
      → ClientError Value
      → StoredDeviceTokenRetry
      → ReconnectPolicy × ReconnectAction
  unfolding retry
  after_failure_with_device_token p error stored_token =
      if is_session_request_error J error
      then (p, keep_session)
      else if not p.device_token_retry_used
          && is_available stored_token
          && gateway_requests_device_token_retry J error
      then (
        record p { device_token_retry_used = true },
        retry_with_stored_device_token_after device_token_retry_delay,
      )
      else elim (classify_pause J error) [
        | some reason ↦ (p, pause reason)
        | none ↦ retry p (gateway_retry_after J error)
      ]

  unfoldable pub after_failure :
      ReconnectPolicy → ClientError Value → ReconnectPolicy × ReconnectAction
  unfolding after_failure_with_device_token
  after_failure p error = after_failure_with_device_token p error unavailable

unfoldable pub connected : ReconnectPolicy → ReconnectPolicy
connected p = record p { next_delay = p.initial_delay; device_token_retry_used = false }
