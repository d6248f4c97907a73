-- ===== src/Node.antt =====
-- The node's side of a Gateway session (node.rs): invocations, their results, and the payloads of the
-- events that carry them. An `Instant` is a number of nanoseconds on the node's clock.
pub mod Invocations
pub mod Results
pub mod Events
pub mod Options
pub mod Surface
pub mod Errors
use openclaw_rust_node.Base.{ℕ, ◌-◌, String, Option, none, some}

-- `V` is the type of JSON values.
pub record NodeInvocation (V : Type 0) : Type 0 where
  pub id : String
  pub node_id : String
  pub command : String
  pub params : V
  pub timeout_ms : Option ℕ
  pub idempotency_key : Option String
  pub session_key : Option String
  pub received_params_bytes : Option ℕ
  pub received_at : Option ℕ

pub data NodeSessionEvent (V : Type 0) : Type 0 where
  invocation : NodeInvocation V → NodeSessionEvent V
  invocation_input :
      (invoke_id node_id : String) (seq : ℕ) (payload_json : String) → NodeSessionEvent V
  invocation_cancelled : (invoke_id node_id : String) → NodeSessionEvent V

pub data InvocationResult (V : Type 0) : Type 0 where
  success : V → InvocationResult V
  failure : (code message : String) → InvocationResult V

unfoldable pub new : {V : Type 0} → String → String → String → V → NodeInvocation V
new id node_id command params = record {
  id = id;
  node_id = node_id;
  command = command;
  params = params;
  timeout_ms = none;
  idempotency_key = none;
  session_key = none;
  received_params_bytes = none;
  received_at = none;
}

unfoldable pub received_elapsed : {V : Type 0} → NodeInvocation V → (now : ℕ) → Option ℕ
received_elapsed i now = elim i.received_at [ none ↦ none | some received ↦ some (now - received) ]
