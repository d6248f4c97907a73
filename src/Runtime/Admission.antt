-- ===== src/Runtime/Admission.antt =====
-- What an invocation passes before its handler (runtime.rs): the handler of its command, its deadline,
-- and the admission policy, with what a failure is answered by. Times are counted from the start of
-- the evaluation.
use openclaw_rust_node.Base.{
  ℕ, ◌-◌, min, String, Bool, not, ◌&&◌, ◌==◌, leb, if◌then◌else◌, Option, none, some, List,
  from_millis, is_some_and, unwrap_or,
}
use openclaw_rust_node.Base.Results.{Result, ok, err, ok_or}
use openclaw_rust_node.Text.{is_empty}
use openclaw_rust_node.Text.Names.{is_in}
use openclaw_rust_node.Sidecar.Frame.{Codec}
use openclaw_rust_node.Node.{NodeInvocation, InvocationResult, failure, received_elapsed}
use openclaw_rust_node.Runtime.Build.{RegisteredHandler, CommandRuntime, get}
use openclaw_rust_node.Runtime.Limits.{serialized_json_within_limit}
use openclaw_rust_node.Runtime.Futures.{
  Outcome, finishes, panics, Future, Awaited, completes, elapses, hangs, await, happened,
}

pub record HandlerError : Type 0 where
  pub code : String
  pub message : String

-- The embedder's code: a call panics, or gives a future. A handler is told whether it has duplex io.
abbrev pub Handler : Type 0 → Type 0
Handler V = NodeInvocation V → (io : Bool) → Option (Future (Result HandlerError V))

abbrev pub AdmissionPolicy : Type 0 → Type 0
AdmissionPolicy V = NodeInvocation V → Option (Future (Result HandlerError (Unit {0})))

abbrev pub Runtime : Type 0 → Type 0
Runtime V = CommandRuntime (Handler V) (AdmissionPolicy V)

-- What the evaluation asks of a session. Retirement is asked for as the handler is entered.
pub record Session : Type 0 where
  pub advertised_commands : List String
  pub is_retired : Bool

abbrev pub advertises_command : Session → String → Bool
advertises_command session command = is_in command session.advertised_commands

-- What the admission comes to, and when.
pub data Admission (V : Type 0) : Type 0 where
  admitted : (remaining : Option ℕ) → (at : ℕ) → Admission V
  rejected : InvocationResult V → Admission V
  never : Admission V

-- `checked_sub`, and the filter of a remainder that is not zero.
unfoldable pub remaining_of : (total elapsed : ℕ) → Result (Unit {0}) (Option ℕ)
remaining_of total elapsed =
    if leb elapsed total && not (total - elapsed == 0) then ok (some (total - elapsed)) else err tt

abbrev pub is_zero : Option ℕ → Bool
is_zero timeout_ms = is_some_and timeout_ms (λ milliseconds. milliseconds == 0)

module _ {V : Type 0} where
  unfoldable pub resolve_session_handler :
      Runtime V
      → NodeInvocation V
      → Option Session
      → Result (InvocationResult V) (RegisteredHandler (Handler V))
  resolve_session_handler r i session =
      if is_some_and session (λ s. not (advertises_command s i.command))
      then err
          (failure "COMMAND_NOT_ADVERTISED" "command is outside the active connection manifest")
      else ok_or (get r.handlers i.command)
          (failure "COMMAND_NOT_FOUND" "no handler registered for command")

  unfoldable pub total_timeout : Runtime V → Option ℕ → ℕ
  total_timeout r none = r.default_timeout
  total_timeout r (some milliseconds) =
      min (from_millis milliseconds) r.max_timeout - r.result_grace

  unfoldable pub resolve_timeout :
      Runtime V → NodeInvocation V → (now : ℕ) → Result (Unit {0}) (Option ℕ)
  unfolding remaining_of total_timeout
  resolve_timeout r i now =
      if is_zero i.timeout_ms
      then ok none
      else remaining_of (total_timeout r i.timeout_ms) (unwrap_or (received_elapsed i now) 0)

  unfoldable pub remaining_after : Option ℕ → (elapsed : ℕ) → Admission V
  remaining_after none elapsed = admitted none elapsed
  remaining_after (some remaining) elapsed =
      if remaining - elapsed == 0
      then rejected (failure "HANDLER_TIMEOUT" "command handler deadline already elapsed")
      else admitted (some (remaining - elapsed)) elapsed

-- `serde` is serde_json at `Value`, and `error_value` the `json!` object of a code and a message.
module _ {V : Type 0} (serde : Codec V) (error_value : String → String → V) where
  unfoldable pub handler_failure :
      HandlerError
      → (fallback_code fallback_message : String) → (max_output_bytes : ℕ) → InvocationResult V
  handler_failure error fallback_code fallback_message max_output_bytes =
      let code = if is_empty error.code then fallback_code else error.code in
      let message = if is_empty error.message then fallback_message else error.message in
      if serialized_json_within_limit serde (error_value code message) max_output_bytes
      then failure code message
      else failure "OUTPUT_TOO_LARGE" "command error exceeds the runtime limit"

  -- The policy has come to an outcome, at a time.
  unfoldable pub settle_policy :
      Runtime V → Option ℕ → ℕ → Outcome (Result HandlerError (Unit {0})) → Admission V
  unfolding remaining_after
  settle_policy r timeout t panics =
      rejected (failure "ADMISSION_PANIC" "command admission policy panicked")
  settle_policy r timeout t (finishes (err error)) = rejected (
      handler_failure error "ADMISSION_DENIED" "command denied by admission policy"
        r.max_output_bytes)
  settle_policy r timeout t (finishes (ok u)) = remaining_after timeout t

  unfoldable pub settle_admission :
      Runtime V → Option ℕ → Option ℕ → Awaited (Result HandlerError (Unit {0})) → Admission V
  unfolding settle_policy
  settle_admission r timeout cancelled_at (completes t outcome) =
      if happened cancelled_at t
      then rejected
          (failure "INVOCATION_CANCELLED" "command invocation was cancelled during admission")
      else settle_policy r timeout t outcome
  settle_admission r timeout cancelled_at (elapses t) =
      if happened cancelled_at t
      then rejected
          (failure "INVOCATION_CANCELLED" "command invocation was cancelled during admission")
      else rejected (failure "HANDLER_TIMEOUT" "command admission exceeded its deadline")
  settle_admission r timeout none hangs = never
  settle_admission r timeout (some t) hangs =
      rejected (failure "INVOCATION_CANCELLED" "command invocation was cancelled during admission")

  unfoldable pub consult :
      Runtime V
      → Option ℕ
      → Option ℕ
      → Option (Future (Result HandlerError (Unit {0})))
      → Admission V
  unfolding settle_admission
  consult r timeout cancelled_at none =
      rejected (failure "ADMISSION_PANIC" "command admission policy panicked")
  consult r timeout cancelled_at (some future) =
      settle_admission r timeout cancelled_at (await timeout future)

  unfoldable pub evaluate_admission :
      Runtime V → NodeInvocation V → Option ℕ → (cancelled_at : Option ℕ) → Admission V
  unfolding consult
  evaluate_admission r i timeout cancelled_at = elim r.admission_policy [
    | none ↦ admitted timeout 0
    | some policy ↦ consult r timeout cancelled_at (policy i)
  ]
