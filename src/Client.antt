-- ===== src/Client.antt =====
-- The client errors of crates/openclaw-node-host/src/node.rs, identity.rs' error among them.
use openclaw_rust_node.Base.{ℕ, String, Bool, Option}

pub data IdentityError : Type 0 where
  random : String → IdentityError
  invalid_public_key invalid_signature : IdentityError

-- `V` is the type of JSON values.
pub data ClientError (V : Type 0) : Type 0 where
  invalid_url : String → ClientError V
  insecure_remote_gateway : ClientError V
  transport : String → ClientError V
  tls : String → ClientError V
  connect_timeout : ClientError V
  challenge_timeout : ClientError V
  invalid_challenge : String → ClientError V
  connect_params : String → ClientError V
  identity : IdentityError → ClientError V
  gateway :
      (method code message : String) (details : Option V) (retryable : Option Bool)
      (retry_after_ms : Option ℕ)
      → ClientError V
  request_timeout : String → ClientError V
  write_timeout : String → ClientError V
  closed : String → ClientError V
  invalid_frame : String → ClientError V
  event_lagged : ℕ → ClientError V
  not_activated : ClientError V
