-- ===== src/Tests/RuntimeTests.antt =====
-- The command runtime at an invocation of a camera command that is admitted after one second and whose
-- handler takes two.
use openclaw_rust_node.Base.{
  min, ℕ, ◌≤◌, ◌+◌, String, true, false, ◌≡◌, refl, ◌↔◌, none, some, List, [], ◌∷◌, All, length,
  from_secs, from_millis, u64_max, unwrap_or, arith,
}
use openclaw_rust_node.Base.Results.{ok, err, IsOk}
use openclaw_rust_node.Json.Plain.{Plain, text, number}
use openclaw_rust_node.Text.{is_whitespace, trim, trim_start, trim_end}
use openclaw_rust_node.Text.Names.{AreDistinct, is_in}
use openclaw_rust_node.Client.{closed}
use openclaw_rust_node.Sidecar.Frame.{Codec, encoded}
use openclaw_rust_node.Node.{
  NodeInvocation, NodeSessionEvent, success, invocation_input, received_elapsed,
}
use openclaw_rust_node.Node.Results.{
  invocation_result_params, params_of, require_non_empty_result_field,
}
use openclaw_rust_node.Node.Invocations.{Decoders, parse_invocation_input}
use openclaw_rust_node.Node.Events.{
  Event, node_event, next_parsed, next_node_event, IsWellFormed, next_node_event-IsWellFormed,
}
use openclaw_rust_node.Runtime.Build.{
  CommandRuntimeBuilder, default, capability, duplex_command, admission_policy, build, assemble,
  get, register, add_capabilities, add_handlers, is_system_command, registered,
}
use openclaw_rust_node.Runtime.Build.Accepted.{
  IsNamed, IsRegistrable, names, find_registration, build-IsOk_iff, build_routes,
}
use openclaw_rust_node.Runtime.Build.Accepted
use openclaw_rust_node.Runtime.Futures.{finishes, await, await_for, await_never}
use openclaw_rust_node.Runtime.Limits.{limit_write, limit_writes, serialized_json_within_limit}
use openclaw_rust_node.Runtime.Admission.{
  Handler, AdmissionPolicy, Runtime, evaluate_admission, consult, settle_admission, settle_policy,
  remaining_after, resolve_timeout, remaining_of, total_timeout, resolve_session_handler,
}
use openclaw_rust_node.Runtime.Evaluate.{
  Surroundings, Evaluation, evaluate_tracked, after_resolution, after_timeout, after_admission,
  enter_handler, call_handler, execute_handler, settle_execution, settle_handler,
  handler_entry_rejection, input_within_limit,
}
use openclaw_rust_node.Runtime.Evaluate.Completion.{evaluate_completes, resolve_timeout_bounds}
use openclaw_rust_node.Runtime.Evaluate.Results.{evaluate_answers}
use openclaw_rust_node.Runtime.Evaluate.Guards.{IsPermitted, entered-IsPermitted}

-- Every value is three bytes, in two pieces.
abbrev serde : Codec Plain
serde = record {
  pieces = λ v. (1 ∷ 2 ∷ []) ∷ (3 ∷ []) ∷ [];
  complete = λ v. true;
  parse = λ b. none;
}

abbrev error_value : String → String → Plain
error_value code message = text code

abbrev snap : Handler Plain
snap i io = some (record { takes = some (from_secs 2); gives = finishes (ok (number 7)) })

abbrev policy : AdmissionPolicy Plain
policy i = some (record { takes = some (from_secs 1); gives = finishes (ok tt) })

abbrev builder : CommandRuntimeBuilder (Handler Plain) (AdmissionPolicy Plain)
builder =
    admission_policy (duplex_command (capability default " camera ") "camera.snap" snap) policy

build-IsOk_iff_example : IsOk (build builder) ↔ (
    All IsNamed builder.capabilities
    × All IsRegistrable builder.registrations
    × AreDistinct (names builder.registrations))
build-IsOk_iff_example = build-IsOk_iff builder

abbrev pub runtime : Runtime Plain
runtime =
    assemble builder ("camera" ∷ [])
      (("camera.snap", record { handler = snap; duplex = true }) ∷ [])

builder_builds : build builder ≡ ok runtime
unfolding build add_capabilities add_handlers is_system_command registered get is_in
    admission_policy duplex_command register capability default trim trim_start trim_end
    is_whitespace
builder_builds = refl

build_routes_example :
    Accepted.IsValid runtime
    × ((name : String) → get runtime.handlers name ≡ find_registration builder.registrations name)
build_routes_example = build_routes builder runtime builder_builds

abbrev pub request : NodeInvocation Plain
request = record {
  id = "invoke-1";
  node_id = "node-1";
  command = "camera.snap";
  params = number 1;
  timeout_ms = some 5000;
  idempotency_key = none;
  session_key = none;
  received_params_bytes = some 1;
  received_at = some 0;
}

abbrev around : Surroundings
around = record {
  session = some (record { advertised_commands = "camera.snap" ∷ []; is_retired = false });
  now = from_millis 100;
  cancelled_at = none;
  overflowed_at = some (from_secs 4);
}

abbrev evaluation : Evaluation Plain
evaluation = record { result = success (number 7); cancelled = false; entered = true }

request_evaluates : evaluate_tracked serde error_value runtime request around ≡ some evaluation
unfolding evaluate_tracked after_resolution after_timeout after_admission enter_handler call_handler
    execute_handler settle_execution settle_handler handler_entry_rejection evaluate_admission
    consult settle_admission settle_policy remaining_after resolve_timeout remaining_of
    total_timeout resolve_session_handler input_within_limit serialized_json_within_limit
    limit_writes limit_write await await_for await_never received_elapsed assemble get is_in
    admission_policy duplex_command register capability default
request_evaluates = refl

request_in_time : resolve_timeout runtime request around.now ≡ ok (some (from_millis 4800))
unfolding resolve_timeout remaining_of total_timeout received_elapsed assemble admission_policy
    duplex_command register capability default
request_in_time = refl

output_is_small : runtime.max_output_bytes ≤ u64_max
unfolding assemble admission_policy duplex_command register capability default
output_is_small = omega arith

evaluate_completes_example :
    (e : Evaluation Plain) × (evaluate_tracked serde error_value runtime request around ≡ some e)
evaluate_completes_example = evaluate_completes serde error_value runtime request around refl

evaluate_answers_example :
    (invocation_result_params request evaluation.result ≡ ok (params_of request evaluation.result))
    × ((value : Plain)
        → evaluation.result ≡ success value
        → length (encoded serde value) ≤ runtime.max_output_bytes)
evaluate_answers_example =
    evaluate_answers serde error_value runtime request around evaluation output_is_small
      request_evaluates

entered-IsPermitted_example : IsPermitted serde error_value runtime request around
entered-IsPermitted_example =
    entered-IsPermitted serde error_value runtime request around evaluation request_evaluates refl

resolve_timeout_bounds_example :
    from_millis 4800 + unwrap_or (received_elapsed request around.now) 0 + runtime.result_grace
    ≡ min (from_millis 5000) runtime.max_timeout
resolve_timeout_bounds_example =
    ((resolve_timeout_bounds runtime request around.now
          (build_routes builder runtime builder_builds).0).1
        (from_millis 4800) request_in_time).3
      5000 refl

abbrev decoders : Decoders Plain
decoders = record {
  request = λ v. err "no request";
  input = λ v. ok (record { id = "invoke-1"; node_id = "node-1"; seq = 0; json = "1" });
  cancel = λ v. err "no cancellation";
  from_str = λ s. ok (text s);
  null = text "";
}

abbrev events : List (Event Plain × ℕ)
events =
    (record { event = "tick"; payload = text "" }, 0)
    ∷ (record { event = "node.invoke.input"; payload = text "" }, 1)
    ∷ []

abbrev one_input : NodeSessionEvent Plain
one_input = invocation_input "invoke-1" "node-1" 0 "1"

events_parse : (next_node_event decoders true events (closed "end")).1 ≡ ok one_input
unfolding next_node_event next_parsed node_event parse_invocation_input
    require_non_empty_result_field
events_parse = refl

next_node_event-IsWellFormed_example : IsWellFormed one_input × (true ≡ true)
next_node_event-IsWellFormed_example =
    next_node_event-IsWellFormed decoders true events (closed "end") one_input events_parse
