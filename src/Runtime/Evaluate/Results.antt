-- ===== src/Runtime/Evaluate/Results.antt =====
-- Every result of an evaluation can be told to the Gateway.
use mathlib.Core.Path.{subst}
use openclaw_rust_node.Base.{
  ℕ, ◌≤◌, ◌+◌, String, Bool, true, false, not, ◌≡◌, refl, inl, inr, Option, none, some, length,
  u64_max, is_some_and, Bool-cases, Option-cases, arith,
}
use openclaw_rust_node.Base.Results.{Result, ok, err}
use openclaw_rust_node.Text.{is_empty}
use openclaw_rust_node.Sidecar.Frame.{Codec, encoded}
use openclaw_rust_node.Node.{NodeInvocation, InvocationResult, success, failure}
use openclaw_rust_node.Node.Results.{
  IsDeliverable, invocation_result_params, invocation_result_params_lem, params_of,
}
use openclaw_rust_node.Runtime.Build.{RegisteredHandler, get}
use openclaw_rust_node.Runtime.Limits.{serialized_json_within_limit, within_limit_iff}
use openclaw_rust_node.Runtime.Futures.{
  Outcome, finishes, panics, Future, Awaited, completes, elapses, hangs, await, happened,
}
use openclaw_rust_node.Runtime.Admission.{
  HandlerError, Handler, Runtime, Session, Admission, admitted, rejected, never,
  resolve_session_handler, advertises_command, handler_failure, remaining_after, settle_policy,
  settle_admission, consult, evaluate_admission,
}
use openclaw_rust_node.Runtime.Evaluate.{
  Surroundings, Evaluation, input_within_limit, settle_handler, settle_execution, execute_handler,
  entered_with, call_handler, enter_handler, handler_entry_rejection, after_admission,
  after_timeout, after_resolution, evaluate_tracked,
}

module _ {V : Type 0} (serde : Codec V) (error_value : String → String → V) where
  -- A success within the limit, or a failure with a code and a message.
  abbrev pub IsAnswer : ℕ → InvocationResult V → Type 0
  IsAnswer most (success value) = serialized_json_within_limit serde value most ≡ true
  IsAnswer most (failure code message) = (is_empty code ≡ false) × (is_empty message ≡ false)

  abbrev Answers : ℕ → Option (Evaluation V) → Type 0
  Answers most none = Unit
  Answers most (some e) = IsAnswer most e.result

  handler_failure-IsAnswer :
      (most : ℕ) (error : HandlerError) (code message : String)
      → is_empty code ≡ false
      → is_empty message ≡ false
      → IsAnswer most (handler_failure serde error_value error code message most)
  unfolding handler_failure
  handler_failure-IsAnswer most error code message c m = ground arith

  abbrev Rejects : ℕ → Admission V → Type 0
  Rejects most never = Unit
  Rejects most (rejected result) = IsAnswer most result
  Rejects most (admitted remaining at) = Unit

  settle_policy-IsAnswer :
      (r : Runtime V) (timeout : Option ℕ) (t : ℕ) (o : Outcome (Result HandlerError (Unit {0})))
      → Rejects r.max_output_bytes (settle_policy serde error_value r timeout t o)
  unfolding settle_policy remaining_after
  settle_policy-IsAnswer r timeout t panics = (refl, refl)
  settle_policy-IsAnswer r timeout t (finishes (err e)) =
      handler_failure-IsAnswer r.max_output_bytes e "ADMISSION_DENIED"
        "command denied by admission policy" refl refl
  settle_policy-IsAnswer r none t (finishes (ok u)) = tt
  settle_policy-IsAnswer r (some d) t (finishes (ok u)) = ground arith

  settle_admission-IsAnswer :
      (r : Runtime V) (timeout cancelled_at : Option ℕ)
      (a : Awaited (Result HandlerError (Unit {0})))
      → Rejects r.max_output_bytes (settle_admission serde error_value r timeout cancelled_at a)
  unfolding settle_admission
  settle_admission-IsAnswer r timeout cancelled_at (completes t o) =
      elim (Bool-cases (happened cancelled_at t)) [
        | inl e ↦ rw e (refl, refl)
        | inr e ↦ rw e (settle_policy-IsAnswer r timeout t o)
      ]
  settle_admission-IsAnswer r timeout cancelled_at (elapses t) = ground arith
  settle_admission-IsAnswer r timeout none hangs = tt
  settle_admission-IsAnswer r timeout (some t) hangs = (refl, refl)

  settle_handler-IsAnswer :
      (most : ℕ) (o : Outcome (Result HandlerError V))
      → IsAnswer most (settle_handler serde error_value most o).0
  unfolding settle_handler
  settle_handler-IsAnswer most panics = (refl, refl)
  settle_handler-IsAnswer most (finishes (err e)) =
      handler_failure-IsAnswer most e "HANDLER_ERROR" "command handler failed" refl refl
  settle_handler-IsAnswer most (finishes (ok v)) =
      elim (Bool-cases (serialized_json_within_limit serde v most)) [
        | inl e ↦ rw e e
        | inr e ↦ rw e (refl, refl)
      ]

  abbrev AnswersWith : ℕ → Option (InvocationResult V × Bool) → Type 0
  AnswersWith most none = Unit
  AnswersWith most (some x) = IsAnswer most x.0

  entered-Answers :
      (most : ℕ) (x : Option (InvocationResult V × Bool))
      → AnswersWith most x
      → Answers most (entered_with x)
  entered-Answers most none a = tt
  entered-Answers most (some x) a = a

  settle_execution-IsAnswer :
      (most at : ℕ) (overflowed_at : Option ℕ) (a : Awaited (Result HandlerError V))
      → AnswersWith most (settle_execution serde error_value most at overflowed_at a)
  unfolding settle_execution
  settle_execution-IsAnswer most at overflowed_at (completes t o) =
      elim (Bool-cases (happened overflowed_at (at + t))) [
        | inl e ↦ rw e (refl, refl)
        | inr e ↦ rw e (settle_handler-IsAnswer most o)
      ]
  settle_execution-IsAnswer most at overflowed_at (elapses t) =
      elim (Bool-cases (happened overflowed_at (at + t))) [
        | inl e ↦ rw e (refl, refl)
        | inr e ↦ rw e (refl, refl)
      ]
  settle_execution-IsAnswer most at none hangs = tt
  settle_execution-IsAnswer most at (some t) hangs = (refl, refl)

  entry-IsAnswer :
      (most : ℕ) (cancelled : Bool) (session : Option Session)
      → AnswersWith most (handler_entry_rejection cancelled session)
  unfolding handler_entry_rejection
  entry-IsAnswer most true session = (refl, refl)
  entry-IsAnswer most false session = elim (Bool-cases (is_some_and session (λ s. s.is_retired))) [
    | inl e ↦ rw e (refl, refl)
    | inr e ↦ rw e tt
  ]

  module _ (r : Runtime V) (i : NodeInvocation V) (around : Surroundings) where
    called-Answers :
        (io : Bool) (timeout : Option ℕ) (at : ℕ) (f : Option (Future (Result HandlerError V)))
        → Answers r.max_output_bytes (call_handler serde error_value r around io timeout at f)
    unfolding call_handler execute_handler
    called-Answers io timeout at none = (refl, refl)
    called-Answers io timeout at (some f) =
        entered-Answers _ _ (settle_execution-IsAnswer r.max_output_bytes at _ (await timeout f))

    entered_handler-Answers :
        (h : RegisteredHandler (Handler V)) (timeout : Option ℕ) (at : ℕ)
        (rejection : Option (InvocationResult V × Bool))
        → AnswersWith r.max_output_bytes rejection
        → Answers r.max_output_bytes
            (enter_handler serde error_value r i around h timeout at rejection)
    unfolding enter_handler
    entered_handler-Answers h timeout at none a = called-Answers _ timeout at _
    entered_handler-Answers h timeout at (some x) a = a

    admitted-Answers :
        (h : RegisteredHandler (Handler V)) (a : Admission V)
        → Rejects r.max_output_bytes a
        → Answers r.max_output_bytes (after_admission serde error_value r i around h a)
    unfolding after_admission
    admitted-Answers h never a = tt
    admitted-Answers h (rejected result) a = a
    admitted-Answers h (admitted timeout at) a =
        elim (Bool-cases (happened around.overflowed_at at)) [
          | inl e ↦ rw e (refl, refl)
          | inr e ↦
              rw e (entered_handler-Answers h timeout at _ (entry-IsAnswer _ _ around.session))
        ]

    consulted-IsAnswer :
        (timeout : Option ℕ) (f : Option (Future (Result HandlerError (Unit {0}))))
        → Rejects r.max_output_bytes (consult serde error_value r timeout around.cancelled_at f)
    unfolding consult
    consulted-IsAnswer timeout none = (refl, refl)
    consulted-IsAnswer timeout (some f) = settle_admission-IsAnswer r timeout around.cancelled_at _

    admission-IsAnswer :
        (timeout : Option ℕ)
        → Rejects r.max_output_bytes
            (evaluate_admission serde error_value r i timeout around.cancelled_at)
    unfolding evaluate_admission
    admission-IsAnswer timeout = elim (Option-cases r.admission_policy) [
      | inl e ↦ rw e tt
      | inr (policy, e) ↦ rw e (consulted-IsAnswer timeout (policy i))
    ]

    abbrev Refuses : Result (InvocationResult V) (RegisteredHandler (Handler V)) → Type 0
    Refuses (err result) = IsAnswer r.max_output_bytes result
    Refuses (ok h) = Unit

    resolution-IsAnswer : Refuses (resolve_session_handler r i around.session)
    unfolding resolve_session_handler
    resolution-IsAnswer =
        elim (Bool-cases (is_some_and around.session (λ s. not (advertises_command s i.command)))) [
          | inl e ↦ rw e (refl, refl)
          | inr e ↦ elim (Option-cases (get r.handlers i.command)) [
            | inl f ↦ rw (e, f) (refl, refl)
            | inr (h, f) ↦ rw (e, f) tt
          ]
        ]

    timed-Answers :
        (h : RegisteredHandler (Handler V)) (t : Result (Unit {0}) (Option ℕ))
        → Answers r.max_output_bytes (after_timeout serde error_value r i around h t)
    unfolding after_timeout
    timed-Answers h (err u) = (refl, refl)
    timed-Answers h (ok t) = admitted-Answers h _ (admission-IsAnswer t)

    resolved-Answers :
        (h : Result (InvocationResult V) (RegisteredHandler (Handler V)))
        → Refuses h
        → Answers r.max_output_bytes (after_resolution serde error_value r i around h)
    unfolding after_resolution
    resolved-Answers (err result) a = a
    resolved-Answers (ok h) a = elim (Bool-cases (input_within_limit serde error_value r i)) [
      | inl e ↦ rw e (timed-Answers h _)
      | inr e ↦ rw e (refl, refl)
    ]

    evaluate-Answers : Answers r.max_output_bytes (evaluate_tracked serde error_value r i around)
    unfolding evaluate_tracked
    evaluate-Answers = resolved-Answers _ resolution-IsAnswer

  IsAnswer-IsDeliverable :
      (most : ℕ) (result : InvocationResult V) → IsAnswer most result → IsDeliverable result
  IsAnswer-IsDeliverable most (success v) a = tt
  IsAnswer-IsDeliverable most (failure code message) a = a

  -- Whatever the policy and the handler do, the result of an evaluation is one that the session can
  -- report: an error has a code and a message even if the handler's are empty, so the parameters of
  -- `node.invoke.result` are built, and what a success carries is at most `max_output_bytes` of JSON.
  pub evaluate_answers :
      (r : Runtime V) (i : NodeInvocation V) (around : Surroundings) (e : Evaluation V)
      → r.max_output_bytes ≤ u64_max
      → evaluate_tracked serde error_value r i around ≡ some e
      → (invocation_result_params i e.result ≡ ok (params_of i e.result))
        × ((value : V)
            → e.result ≡ success value
            → length (encoded serde value) ≤ r.max_output_bytes)
  evaluate_answers r i around e m h =
      let a : Answers r.max_output_bytes (some e) =
        subst (λ x. Answers r.max_output_bytes x) h (evaluate-Answers r i around) in
      (
        invocation_result_params_lem i e.result
            (IsAnswer-IsDeliverable r.max_output_bytes e.result a),
        λ value q.
            let b : IsAnswer r.max_output_bytes (success value) =
              subst (λ x. IsAnswer r.max_output_bytes x) q a in
            ((within_limit_iff serde value r.max_output_bytes m).0 b).0,
      )
