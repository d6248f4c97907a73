-- ===== src/Node/Invocations.antt =====
-- The payloads of the events `node.invoke.request`, `node.invoke.input` and `node.invoke.cancel`
-- (node.rs). What serde reads of a payload into the derived structs is a parameter, and the text of
-- its errors with it.
use Prim.Native.String.{len, ◌++◌}
use openclaw_rust_node.Base.{ℕ, ◌*◌, String, ltb, Option, none, some}
use openclaw_rust_node.Base.Results.{Result, ok, ◌>>=◌, ◌>>◌, fail_if, map_err}
use openclaw_rust_node.Client.{ClientError, invalid_frame}
use openclaw_rust_node.Node.{
  NodeInvocation, NodeSessionEvent, invocation_input, invocation_cancelled,
}
use openclaw_rust_node.Node.Results.{require_non_empty_result_field}

abbrev pub max_input_frame_bytes : ℕ
max_input_frame_bytes = 16 * 1024

pub record RequestPayload : Type 0 where
  pub id : String
  pub node_id : String
  pub command : String
  pub params_json : Option String
  pub timeout_ms : Option ℕ
  pub idempotency_key : Option String
  pub session_key : Option String

pub record InputPayload : Type 0 where
  pub id : String
  pub node_id : String
  pub seq : ℕ
  pub json : String

pub record CancelPayload : Type 0 where
  pub invoke_id : String
  pub node_id : String

-- serde_json: `from_value` at the three structs, `from_str`, and `Value::Null`.
pub record Decoders (V : Type 0) : Type 0 where
  pub request : V → Result String RequestPayload
  pub input : V → Result String InputPayload
  pub cancel : V → Result String CancelPayload
  pub from_str : String → Result String V
  pub null : V

pub record DecodedInvocation (V : Type 0) : Type 0 where
  pub id : String
  pub node_id : String
  pub command : String
  pub params : V
  pub received_params_bytes : Option ℕ
  pub timeout_ms : Option ℕ
  pub idempotency_key : Option String
  pub session_key : Option String

-- `Option::map` and `transpose` with `require_non_empty_result_field`.
unfoldable pub require_non_empty_if_some :
    {V : Type 0} → String → Option String → Result (ClientError V) (Option String)
unfolding require_non_empty_result_field
require_non_empty_if_some name none = ok none
require_non_empty_if_some name (some value) = do
  value' ← require_non_empty_result_field name value
  ok (some value')

module _ {V : Type 0} (D : Decoders V) where
  open D use {request, input, cancel, from_str, null}

  unfoldable decode_params : Option String → Result (ClientError V) (V × Option ℕ)
  decode_params (some value) = do
    params ← map_err (λ e. invalid_frame ("invalid invocation paramsJSON: " ++ e)) (from_str value)
    ok (params, some (len value))
  decode_params none = ok (null, some 0)

  unfoldable pub decode_invocation : V → Result (ClientError V) (DecodedInvocation V)
  unfolding decode_params
  decode_invocation value = do
    payload ← map_err (λ e. invalid_frame ("invalid node.invoke.request: " ++ e)) (request value)
    decoded ← decode_params payload.params_json
    ok (record {
      id = payload.id;
      node_id = payload.node_id;
      command = payload.command;
      params = decoded.0;
      received_params_bytes = decoded.1;
      timeout_ms = payload.timeout_ms;
      idempotency_key = payload.idempotency_key;
      session_key = payload.session_key;
    })

  unfoldable pub parse_decoded :
      DecodedInvocation V → (received_at : ℕ) → Result (ClientError V) (NodeInvocation V)
  unfolding require_non_empty_if_some
  parse_decoded payload received_at = do
    id ← require_non_empty_result_field "invocation id" payload.id
    node_id ← require_non_empty_result_field "invocation node id" payload.node_id
    command ← require_non_empty_result_field "invocation command" payload.command
    idempotency_key ← require_non_empty_if_some "invocation idempotency key" payload.idempotency_key
    session_key ← require_non_empty_if_some "invocation session key" payload.session_key
    ok (record {
      id = id;
      node_id = node_id;
      command = command;
      params = payload.params;
      timeout_ms = payload.timeout_ms;
      idempotency_key = idempotency_key;
      session_key = session_key;
      received_params_bytes = payload.received_params_bytes;
      received_at = some received_at;
    })

  unfoldable pub parse_invocation :
      V → (received_at : ℕ) → Result (ClientError V) (NodeInvocation V)
  unfolding decode_invocation parse_decoded
  parse_invocation value received_at = do
    payload ← decode_invocation value
    parse_decoded payload received_at

  unfoldable pub parse_invocation_input : V → Result (ClientError V) (NodeSessionEvent V)
  unfolding require_non_empty_result_field
  parse_invocation_input value = do
    payload ← map_err (λ e. invalid_frame ("invalid node.invoke.input: " ++ e)) (input value)
    fail_if (ltb max_input_frame_bytes (len payload.json))
        (invalid_frame "node.invoke.input payloadJSON exceeds 16 KiB")
    id ← require_non_empty_result_field "input invocation id" payload.id
    node_id ← require_non_empty_result_field "input invocation node id" payload.node_id
    ok (invocation_input id node_id payload.seq payload.json)

  unfoldable pub parse_invocation_cancel : V → Result (ClientError V) (NodeSessionEvent V)
  unfolding require_non_empty_result_field
  parse_invocation_cancel value = do
    payload ← map_err (λ e. invalid_frame ("invalid node.invoke.cancel: " ++ e)) (cancel value)
    id ← require_non_empty_result_field "cancelled invocation id" payload.invoke_id
    node_id ← require_non_empty_result_field "cancelled invocation node id" payload.node_id
    ok (invocation_cancelled id node_id)
