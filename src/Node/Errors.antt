-- ===== src/Node/Errors.antt =====
-- The errors of the Gateway client (crates/openclaw-gateway-client/src/session.rs) and what the node
-- makes of them (node.rs), with the check of the Gateway's hello at the end of a connection.
use openclaw_rust_node.Base.{ℕ, String, Bool, ◌==◌, is_some_and, if◌then◌else◌, Option, none, some}
use openclaw_rust_node.Base.{◌>>=◌}
use openclaw_rust_node.Base.Results.{Result, ok, err}
use openclaw_rust_node.Json.{Json}
use openclaw_rust_node.Client.{ClientError, invalid_frame}
use openclaw_rust_node.Client
use openclaw_rust_node.Node.Options.{NodeProtocolVersion, number}

pub data GatewayClientError (V : Type 0) : Type 0 where
  invalid_url invalid_header transport tls : String → GatewayClientError V
  insecure_remote_gateway connect_timeout challenge_timeout : GatewayClientError V
  invalid_challenge connect_params : String → GatewayClientError V
  gateway :
      (method code message : String) (details : Option V) (retryable : Option Bool)
      (retry_after_ms : Option ℕ)
      → GatewayClientError V
  request_timeout dispatch_rejected write_timeout closed : String → GatewayClientError V
  invalid_gateway_frame : String → GatewayClientError V
  event_lagged : ℕ → GatewayClientError V

-- `none` where the source is unreachable: the node issues no guarded request.
unfoldable pub map_gateway_error : {V : Type 0} → GatewayClientError V → Option (ClientError V)
map_gateway_error (invalid_url e) = some (Client.invalid_url e)
map_gateway_error (invalid_header e) = some (Client.invalid_url e)
map_gateway_error insecure_remote_gateway = some Client.insecure_remote_gateway
map_gateway_error (transport e) = some (Client.transport e)
map_gateway_error (tls e) = some (Client.tls e)
map_gateway_error connect_timeout = some Client.connect_timeout
map_gateway_error challenge_timeout = some Client.challenge_timeout
map_gateway_error (invalid_challenge e) = some (Client.invalid_challenge e)
map_gateway_error (connect_params e) = some (Client.connect_params e)
map_gateway_error (gateway method code message details retryable retry_after_ms) =
    some (Client.gateway method code message details retryable retry_after_ms)
map_gateway_error (request_timeout method) = some (Client.request_timeout method)
map_gateway_error (dispatch_rejected reason) = none
map_gateway_error (write_timeout operation) = some (Client.write_timeout operation)
map_gateway_error (closed e) = some (Client.closed e)
map_gateway_error (invalid_gateway_frame e) = some (Client.invalid_frame e)
map_gateway_error (event_lagged count) = some (Client.event_lagged count)

module _ (J : Json) where
  open J use {Value, get, as_u64, as_str}

  -- The hello has to name the protocol of the envelope that was sent.
  unfoldable pub check_hello : Value → NodeProtocolVersion → Result (ClientError Value) (Unit {0})
  check_hello hello protocol =
      if is_some_and (get hello "protocol" >>= as_u64) (λ p. p == number protocol)
      then ok tt
      else err (invalid_frame "Gateway hello protocol did not match the node connect envelope")
