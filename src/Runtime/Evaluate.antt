-- ===== src/Runtime/Evaluate.antt =====
-- The evaluation of an invocation (runtime.rs); what comes before the handler is in Runtime/Admission.
-- The clock starts when the evaluation does, with `now` as the node's time. When the outside cancels
-- the invocation, and when its input overflows, are times of the surroundings; that the evaluation
-- cancels its own token is a field of what it leaves.
pub mod Completion
pub mod Results
pub mod Guards
use openclaw_rust_node.Base.{
  ℕ, ◌+◌, ◌-◌, String, Bool, true, false, ◌&&◌, leb, if◌then◌else◌, Option, none, some, is_none_or,
  is_some_and,
}
use openclaw_rust_node.Base.Results.{Result, ok, err}
use openclaw_rust_node.Sidecar.Frame.{Codec}
use openclaw_rust_node.Node.{NodeInvocation, InvocationResult, success, failure}
use openclaw_rust_node.Runtime.Build.{RegisteredHandler}
use openclaw_rust_node.Runtime.Limits.{serialized_json_within_limit}
use openclaw_rust_node.Runtime.Admission.{
  HandlerError, Handler, Runtime, Session, Admission, resolve_session_handler, resolve_timeout,
  handler_failure, evaluate_admission, admitted, rejected, never,
}
use openclaw_rust_node.Runtime.Futures.{
  Outcome, finishes, panics, Future, Awaited, completes, elapses, hangs, await, happened,
}

pub record Surroundings : Type 0 where
  pub session : Option Session
  pub now : ℕ
  pub cancelled_at : Option ℕ
  pub overflowed_at : Option ℕ

-- The result, whether the evaluation cancelled the token, and whether it called the handler.
pub record Evaluation (V : Type 0) : Type 0 where
  pub result : InvocationResult V
  pub cancelled : Bool
  pub entered : Bool

abbrev is_some : Option Session → Bool
is_some none = false
is_some (some session) = true

module _ {V : Type 0} where
  unfoldable pub handler_entry_rejection :
      (cancelled : Bool) → Option Session → Option (InvocationResult V × Bool)
  handler_entry_rejection cancelled session =
      if cancelled
      then some (
        failure "INVOCATION_CANCELLED" "command invocation was cancelled before handler execution",
        false,
      )
      else if is_some_and session (λ s. s.is_retired)
      then some (failure "SESSION_RETIRED" "command invocation belongs to a retired session", true)
      else none

  abbrev pub not_entered : InvocationResult V → Bool → Option (Evaluation V)
  not_entered result cancelled =
      some (record { result = result; cancelled = cancelled; entered = false })

  abbrev pub entered_with : Option (InvocationResult V × Bool) → Option (Evaluation V)
  entered_with none = none
  entered_with (some (result, cancelled)) =
      some (record { result = result; cancelled = cancelled; entered = true })

-- `serde` is serde_json at `Value`, and `error_value` the `json!` object of a code and a message.
module _ {V : Type 0} (serde : Codec V) (error_value : String → String → V) where
  unfoldable pub input_within_limit : Runtime V → NodeInvocation V → Bool
  input_within_limit r i =
      is_none_or i.received_params_bytes (λ received. leb received r.max_input_bytes)
      && serialized_json_within_limit serde i.params r.max_input_bytes

  unfoldable pub settle_handler :
      (max_output_bytes : ℕ) → Outcome (Result HandlerError V) → InvocationResult V × Bool
  settle_handler max_output_bytes panics =
      (failure "HANDLER_PANIC" "command handler panicked", true)
  settle_handler max_output_bytes (finishes (err error)) = (
    handler_failure serde error_value error "HANDLER_ERROR" "command handler failed"
        max_output_bytes,
    false,
  )
  settle_handler max_output_bytes (finishes (ok result)) =
      if serialized_json_within_limit serde result max_output_bytes
      then (success result, false)
      else (failure "OUTPUT_TOO_LARGE" "command result exceeds the runtime limit", false)

  abbrev pub input_overflow : InvocationResult V × Bool
  input_overflow =
      (failure "INPUT_BUFFER_OVERFLOW" "duplex command input exceeded the pending-byte limit", true)

  -- The result of a handler that was entered at a time, and whether the token is cancelled for it;
  -- `none` if it never comes. `overflowed_at` is the overflow that the handler's io can have.
  unfoldable pub settle_execution :
      (max_output_bytes entered_at : ℕ)
      → (overflowed_at : Option ℕ) → Awaited (Result HandlerError V)
      → Option (InvocationResult V × Bool)
  unfolding settle_handler
  settle_execution max_output_bytes entered_at overflowed_at (completes t outcome) =
      if happened overflowed_at (entered_at + t)
      then some input_overflow
      else some (settle_handler max_output_bytes outcome)
  settle_execution max_output_bytes entered_at overflowed_at (elapses t) =
      if happened overflowed_at (entered_at + t)
      then some input_overflow
      else some (failure "HANDLER_TIMEOUT" "command handler exceeded its deadline", true)
  settle_execution max_output_bytes entered_at none hangs = none
  settle_execution max_output_bytes entered_at (some t) hangs = some input_overflow

  unfoldable pub execute_handler :
      Runtime V
      → Future (Result HandlerError V)
      → (timeout : Option ℕ) → (entered_at : ℕ) → (overflowed_at : Option ℕ) → (duplex : Bool)
      → Option (InvocationResult V × Bool)
  unfolding settle_execution
  execute_handler r future timeout entered_at overflowed_at duplex =
      settle_execution r.max_output_bytes entered_at (if duplex then overflowed_at else none)
        (await timeout future)

  unfoldable pub call_handler :
      Runtime V
      → Surroundings
      → (io : Bool) → (timeout : Option ℕ) → (at : ℕ) → Option (Future (Result HandlerError V))
      → Option (Evaluation V)
  unfolding execute_handler
  call_handler r around io timeout at none =
      entered_with (some (failure "HANDLER_PANIC" "command handler panicked", true))
  call_handler r around io timeout at (some future) =
      entered_with (execute_handler r future timeout at around.overflowed_at io)

  -- From the handler's entry on.
  unfoldable pub enter_handler :
      Runtime V
      → NodeInvocation V
      → Surroundings
      → RegisteredHandler (Handler V)
      → (timeout : Option ℕ) → (at : ℕ) → Option (InvocationResult V × Bool)
      → Option (Evaluation V)
  unfolding call_handler
  enter_handler r i around h timeout at (some (result, cancelled)) = not_entered result cancelled
  enter_handler r i around h timeout at none =
      let io = h.duplex && is_some around.session in
      call_handler r around io timeout at (h.handler i io)

  unfoldable pub after_admission :
      Runtime V
      → NodeInvocation V
      → Surroundings
      → RegisteredHandler (Handler V)
      → Admission V
      → Option (Evaluation V)
  unfolding enter_handler handler_entry_rejection
  after_admission r i around h never = none
  after_admission r i around h (rejected result) = not_entered result true
  after_admission r i around h (admitted timeout at) =
      if happened around.overflowed_at at
      then not_entered input_overflow.0 true
      else enter_handler r i around h timeout at
          (handler_entry_rejection (happened around.cancelled_at at) around.session)

  unfoldable pub after_timeout :
      Runtime V
      → NodeInvocation V
      → Surroundings
      → RegisteredHandler (Handler V)
      → Result (Unit {0}) (Option ℕ)
      → Option (Evaluation V)
  unfolding after_admission
  after_timeout r i around h (err e) =
      not_entered (failure "HANDLER_TIMEOUT" "command handler deadline already elapsed") true
  after_timeout r i around h (ok timeout) =
      after_admission r i around h
        (evaluate_admission serde error_value r i timeout around.cancelled_at)

  unfoldable pub after_resolution :
      Runtime V
      → NodeInvocation V
      → Surroundings
      → Result (InvocationResult V) (RegisteredHandler (Handler V))
      → Option (Evaluation V)
  unfolding after_timeout
  after_resolution r i around (err result) = not_entered result false
  after_resolution r i around (ok h) =
      if input_within_limit r i
      then after_timeout r i around h (resolve_timeout r i around.now)
      else not_entered (failure "INPUT_TOO_LARGE" "command parameters exceed the runtime limit")
          false

  unfoldable pub evaluate_tracked :
      Runtime V → NodeInvocation V → Surroundings → Option (Evaluation V)
  unfolding after_resolution
  evaluate_tracked r i around =
      after_resolution r i around (resolve_session_handler r i around.session)
