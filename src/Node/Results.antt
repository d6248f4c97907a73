-- ===== src/Node/Results.antt =====
-- The parameters of `node.invoke.result` (node.rs). The `json!` objects are kept as their fields.
use openclaw_rust_node.Base.{String, if◌then◌else◌, ◌≡◌, refl, false, arith}
use Prim.Native.String.{◌++◌}
use openclaw_rust_node.Base.Results.{Result, ok, err, ◌>>=◌}
use openclaw_rust_node.Text.{is_empty}
use openclaw_rust_node.Client.{ClientError, invalid_frame}
use openclaw_rust_node.Node.{NodeInvocation, InvocationResult, success, failure}

unfoldable pub require_non_empty_result_field :
    {V : Type 0} → String → String → Result (ClientError V) String
require_non_empty_result_field name value =
    if is_empty value then err (invalid_frame (name ++ " must not be empty")) else ok value

pub data ResultParams (V : Type 0) : Type 0 where
  succeeded : (id node_id : String) (payload : V) → ResultParams V
  failed : (id node_id code message : String) → ResultParams V

unfoldable pub invocation_result_params :
    {V : Type 0} → NodeInvocation V → InvocationResult V → Result (ClientError V) (ResultParams V)
unfolding require_non_empty_result_field
invocation_result_params i (success payload) = ok (succeeded i.id i.node_id payload)
invocation_result_params i (failure code message) = do
  code' ← require_non_empty_result_field "error code" code
  message' ← require_non_empty_result_field "error message" message
  ok (failed i.id i.node_id code' message')

-- A result that the Gateway can be told: a failure has a code and a message.
abbrev pub IsDeliverable : {V : Type 0} → InvocationResult V → Type 0
IsDeliverable (success payload) = Unit
IsDeliverable (failure code message) = (is_empty code ≡ false) × (is_empty message ≡ false)

abbrev pub params_of : {V : Type 0} → NodeInvocation V → InvocationResult V → ResultParams V
params_of i (success payload) = succeeded i.id i.node_id payload
params_of i (failure code message) = failed i.id i.node_id code message

pub invocation_result_params_lem :
    {V : Type 0} (i : NodeInvocation V) (result : InvocationResult V)
    → IsDeliverable result
    → invocation_result_params i result ≡ ok (params_of i result)
unfolding invocation_result_params
invocation_result_params_lem i (success payload) d = refl
invocation_result_params_lem i (failure code message) d = ground arith
