-- ===== src/Runtime/Evaluate/Completion.antt =====
-- An invocation with a deadline is always answered.
use openclaw_rust_node.Base.{
  ℕ, ◌≤◌, ◌+◌, min, ◌↔◌, String, Bool, true, false, if◌then◌else◌, ◌≡◌, refl, inl, inr, Option,
  none, some, Bool-cases, Option-cases, arith, from_millis, unwrap_or,
}
use openclaw_rust_node.Base.Results.{Result, ok, err}
use openclaw_rust_node.Sidecar.Frame.{Codec}
use openclaw_rust_node.Node.{NodeInvocation, InvocationResult, received_elapsed}
use openclaw_rust_node.Runtime.Build.{RegisteredHandler}
use openclaw_rust_node.Runtime.Build.Accepted
use openclaw_rust_node.Runtime.Futures.{
  finishes, panics, Future, Awaited, completes, elapses, hangs, await, await_for, await_never,
  happened,
}
use openclaw_rust_node.Runtime.Admission.{
  HandlerError, Handler, Runtime, Admission, admitted, rejected, never, resolve_session_handler,
  remaining_of, total_timeout, is_zero, resolve_timeout, remaining_after, settle_policy,
  settle_admission, consult, evaluate_admission,
}
use openclaw_rust_node.Runtime.Evaluate.{
  Surroundings, Evaluation, input_within_limit, settle_execution, execute_handler, entered_with,
  call_handler, enter_handler, handler_entry_rejection, after_admission, after_timeout,
  after_resolution, evaluate_tracked,
}

abbrev is_done : {A : Type 0} → Option A → Bool
is_done none = false
is_done (some a) = true

abbrev is_awaited : {A : Type 0} → Awaited A → Bool
is_awaited (completes t o) = true
is_awaited (elapses t) = true
is_awaited hangs = false

await-deadline : {A : Type 0} (d : ℕ) (f : Future A) → is_awaited (await (some d) f) ≡ true
unfolding await await_for await_never
await-deadline d f = elim (Option-cases f.takes) [
  | inl e ↦ rw e refl
  | inr (t, e) ↦ rw e (ground arith)
]

-- An admission that came to something, with a deadline for the handler if it is admitted.
abbrev has_deadline : {V : Type 0} → Admission V → Bool
has_deadline never = false
has_deadline (rejected result) = true
has_deadline (admitted none at) = false
has_deadline (admitted (some d) at) = true

module _ {V : Type 0} where
  -- There is no deadline exactly if `timeoutMs` is 0. A deadline is positive; with the time since the
  -- invocation was received it is at most the maximum. Without `timeoutMs` the two make up the
  -- default timeout; with it they make up, together with the grace to deliver the result, the smaller
  -- of `timeoutMs` and the maximum. It is refused exactly if `timeoutMs` is not 0 and that time leaves
  -- nothing of the total.
  pub resolve_timeout_bounds :
      (r : Runtime V) (i : NodeInvocation V) (now : ℕ)
      → Accepted.IsValid r
      → let elapsed = unwrap_or (received_elapsed i now) 0 in
        ((resolve_timeout r i now ≡ ok none) ↔ (i.timeout_ms ≡ some 0))
        × ((d : ℕ)
            → resolve_timeout r i now ≡ ok (some d)
            → (1 ≤ d)
              × (d + elapsed ≤ r.max_timeout)
              × (i.timeout_ms ≡ none → d + elapsed ≡ r.default_timeout)
              × ((milliseconds : ℕ)
                  → i.timeout_ms ≡ some milliseconds
                  → d + elapsed + r.result_grace ≡ min (from_millis milliseconds) r.max_timeout))
        × (i.timeout_ms ≡ none → (resolve_timeout r i now ≡ err tt) ↔ (r.default_timeout ≤ elapsed))
        × ((milliseconds : ℕ)
            → i.timeout_ms ≡ some milliseconds
            → (resolve_timeout r i now ≡ err tt) ↔ (
                (1 ≤ milliseconds)
                × (min (from_millis milliseconds) r.max_timeout ≤ elapsed + r.result_grace)))
  unfolding resolve_timeout remaining_of total_timeout
  resolve_timeout_bounds r i now v = elim (Option-cases i.timeout_ms) [
    | inl e ↦ (
      (λ h. absurd (ground arith), λ h. absurd (ground arith)),
      λ d h. (
        ground (arith, v.positive, v.ordered),
        ground (arith, v.positive, v.ordered),
        λ q. ground arith,
        λ m q. absurd (ground arith),
      ),
      λ q. (λ h. ground arith, λ h. ground arith),
      λ m q. absurd (ground arith),
    )
    | inr (t, e) ↦ (
      (λ h. ground arith, λ h. ground arith),
      λ d h. (
        ground (arith, v.positive, v.ordered),
        ground (arith, v.positive, v.ordered),
        λ q. absurd (ground arith),
        λ m q. ground arith,
      ),
      λ q. absurd (ground arith),
      λ m q. (λ h. ground arith, λ h. ground arith),
    )
  ]

  resolve_timeout-some :
      (r : Runtime V) (i : NodeInvocation V) (now : ℕ) (t : Option ℕ)
      → is_zero i.timeout_ms ≡ false
      → resolve_timeout r i now ≡ ok t
      → is_done t ≡ true
  unfolding resolve_timeout remaining_of
  resolve_timeout-some r i now t z h = ground arith

module _ {V : Type 0} (serde : Codec V) (error_value : String → String → V) where
  settle_admission-deadline :
      (r : Runtime V) (d : ℕ) (cancelled_at : Option ℕ)
      (a : Awaited (Result HandlerError (Unit {0})))
      → is_awaited a ≡ true
      → has_deadline (settle_admission serde error_value r (some d) cancelled_at a) ≡ true
  unfolding settle_admission settle_policy remaining_after
  settle_admission-deadline r d cancelled_at (completes t panics) h = ground arith
  settle_admission-deadline r d cancelled_at (completes t (finishes (err e))) h = ground arith
  settle_admission-deadline r d cancelled_at (completes t (finishes (ok u))) h = ground arith
  settle_admission-deadline r d cancelled_at (elapses t) h = ground arith
  settle_admission-deadline r d cancelled_at hangs h = absurd (ground arith)

  evaluate_admission-deadline :
      (r : Runtime V) (i : NodeInvocation V) (d : ℕ) (cancelled_at : Option ℕ)
      → has_deadline (evaluate_admission serde error_value r i (some d) cancelled_at) ≡ true
  unfolding evaluate_admission
  evaluate_admission-deadline r i d cancelled_at = elim (Option-cases r.admission_policy) [
    | inl e ↦ rw e refl
    | inr (policy, e) ↦ rw e (consulted (policy i))
  ]
    where
      consulted :
          (f : Option (Future (Result HandlerError (Unit {0}))))
          → has_deadline (consult serde error_value r (some d) cancelled_at f) ≡ true
      consulted none = refl
      consulted (some f) =
          settle_admission-deadline r d cancelled_at (await (some d) f) (await-deadline d f)

  either_done :
      (b : Bool) (x y : InvocationResult V × Bool)
      → is_done (entered_with (if b then some x else some y)) ≡ true
  either_done true x y = refl
  either_done false x y = refl

  settle_execution-done :
      (most at : ℕ) (overflowed_at : Option ℕ) (a : Awaited (Result HandlerError V))
      → is_awaited a ≡ true
      → is_done (entered_with (settle_execution serde error_value most at overflowed_at a)) ≡ true
  unfolding settle_execution
  settle_execution-done most at overflowed_at (completes t o) h =
      either_done (happened overflowed_at (at + t)) _ _
  settle_execution-done most at overflowed_at (elapses t) h =
      either_done (happened overflowed_at (at + t)) _ _
  settle_execution-done most at overflowed_at hangs h = absurd (ground arith)

  after_admission-done :
      (r : Runtime V) (i : NodeInvocation V) (around : Surroundings)
      (h : RegisteredHandler (Handler V)) (a : Admission V)
      → has_deadline a ≡ true
      → is_done (after_admission serde error_value r i around h a) ≡ true
  unfolding after_admission enter_handler call_handler execute_handler
  after_admission-done r i around h never d = absurd (ground arith)
  after_admission-done r i around h (rejected result) d = refl
  after_admission-done r i around h (admitted none at) d = absurd (ground arith)
  after_admission-done r i around h (admitted (some d) at) _ =
      elim (Bool-cases (happened around.overflowed_at at)) [
        | inl e ↦ rw e refl
        | inr e ↦
            rw e
              (entered (handler_entry_rejection (happened around.cancelled_at at) around.session))
      ]
    where
      called :
          (io : Bool) (f : Option (Future (Result HandlerError V)))
          → is_done (call_handler serde error_value r around io (some d) at f) ≡ true
      called io none = refl
      called io (some f) =
          settle_execution-done r.max_output_bytes at _ (await (some d) f) (await-deadline d f)

      entered :
          (rejection : Option (InvocationResult V × Bool))
          → is_done (enter_handler serde error_value r i around h (some d) at rejection) ≡ true
      entered none = called _ _
      entered (some x) = refl

  -- An invocation whose `timeoutMs` is not 0 is always evaluated to a result, also if its handler or the
  -- admission policy never finishes.
  pub evaluate_completes :
      (r : Runtime V) (i : NodeInvocation V) (around : Surroundings)
      → is_zero i.timeout_ms ≡ false
      → (e : Evaluation V) × (evaluate_tracked serde error_value r i around ≡ some e)
  unfolding evaluate_tracked after_resolution after_timeout
  evaluate_completes r i around z =
      elim (Option-cases (evaluate_tracked serde error_value r i around)) [
        | inl e ↦ absurd (ground (arith, resolved (resolve_session_handler r i around.session), e))
        | inr found ↦ found
      ]
    where
      timed :
          (h : RegisteredHandler (Handler V)) (t : Result (Unit {0}) (Option ℕ))
          → resolve_timeout r i around.now ≡ t
          → is_done (after_timeout serde error_value r i around h t) ≡ true
      timed h (err u) e = refl
      timed h (ok none) e = absurd (ground (arith, resolve_timeout-some r i around.now none z e))
      timed h (ok (some d)) e =
          after_admission-done r i around h _
            (evaluate_admission-deadline r i d around.cancelled_at)

      resolved :
          (h : Result (InvocationResult V) (RegisteredHandler (Handler V)))
          → is_done (after_resolution serde error_value r i around h) ≡ true
      resolved (err result) = refl
      resolved (ok h) = elim (Bool-cases (input_within_limit serde error_value r i)) [
        | inl e ↦ rw e (timed h _ refl)
        | inr e ↦ rw e refl
      ]
