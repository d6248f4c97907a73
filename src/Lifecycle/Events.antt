-- ===== src/Lifecycle/Events.antt =====
-- The events, the reasons and the error classes of lifecycle.rs.
use openclaw_rust_node.Base.{ℕ, String, Bool, Option, if◌then◌else◌}
use openclaw_rust_node.Client.{
  ClientError, invalid_url, insecure_remote_gateway, tls, connect_timeout, challenge_timeout,
  write_timeout, closed, invalid_challenge, invalid_frame, connect_params, not_activated,
}
use openclaw_rust_node.Client
use openclaw_rust_node.Reconnect.Classify.{ReconnectPause, is_tls_configuration_error}

pub data ClientErrorClass : Type 0 where
  configuration transport protocol identity gateway : ClientErrorClass
  request_timeout event_lagged activation : ClientErrorClass

unfoldable pub class_of : {V : Type 0} → ClientError V → ClientErrorClass
class_of (invalid_url reason) = configuration
class_of insecure_remote_gateway = configuration
class_of (tls reason) = if is_tls_configuration_error reason then configuration else transport
class_of (Client.transport reason) = transport
class_of connect_timeout = transport
class_of challenge_timeout = transport
class_of (write_timeout method) = transport
class_of (closed reason) = transport
class_of (invalid_challenge reason) = protocol
class_of (invalid_frame reason) = protocol
class_of (connect_params reason) = identity
class_of (Client.identity e) = identity
class_of (Client.gateway method code message details retryable retry_after_ms) = gateway
class_of (Client.request_timeout method) = request_timeout
class_of (Client.event_lagged n) = event_lagged
class_of not_activated = activation

pub data RuntimeErrorClass : Type 0 where
  delivery_saturated result_task : RuntimeErrorClass

pub data DisconnectReason : Type 0 where
  client : ClientErrorClass → DisconnectReason
  runtime : RuntimeErrorClass → DisconnectReason
  runtime_ended shutdown : DisconnectReason

pub data LifecycleEvent : Type 0 where
  connecting : (attempt : ℕ) → LifecycleEvent
  connected : (attempt : ℕ) (protocol : Option ℕ) (server_version : Option String) → LifecycleEvent
  ready : (attempt : ℕ) → LifecycleEvent
  disconnected : (attempt : ℕ) (reason : DisconnectReason) → LifecycleEvent
  backing_off : (attempt delay : ℕ) (reason : DisconnectReason) → LifecycleEvent
  paused : (attempt : ℕ) (reason : ReconnectPause) → LifecycleEvent
  stopped : (attempt : ℕ) (drained : Bool) → LifecycleEvent

pub record IssuedDeviceToken : Type 0 where
  pub attempt : ℕ
  pub token : String
