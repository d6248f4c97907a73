-- ===== src/Runtime/Evaluate/Guards.antt =====
-- When a handler runs.
use openclaw_rust_node.Base.{
  ℕ, ◌<◌, String, Bool, true, false, not, ◌≡◌, refl, inl, inr, Option, none, some, is_some_and,
  Bool-cases, arith,
}
use openclaw_rust_node.Base.Results.{Result, ok, err, Result-cases}
use openclaw_rust_node.Sidecar.Frame.{Codec}
use openclaw_rust_node.Node.{NodeInvocation, InvocationResult}
use openclaw_rust_node.Runtime.Build.{RegisteredHandler, get}
use openclaw_rust_node.Runtime.Futures.{
  Outcome, finishes, panics, Future, await, await_for, await_never, happened,
}
use openclaw_rust_node.Runtime.Admission.{
  HandlerError, Handler, AdmissionPolicy, Runtime, Session, Admission, admitted, rejected, never,
  advertises_command, resolve_session_handler, resolve_timeout, remaining_after, settle_policy,
  settle_admission, consult, evaluate_admission,
}
use openclaw_rust_node.Runtime.Evaluate.{
  Surroundings, Evaluation, input_within_limit, enter_handler, handler_entry_rejection,
  after_admission, after_timeout, after_resolution, evaluate_tracked,
}

-- The time at which a handler may be entered leaves some of the deadline.
abbrev IsBefore : ℕ → Option ℕ → Type 0
IsBefore at none = Unit
IsBefore at (some deadline) = at < deadline

module _ {V : Type 0} (serde : Codec V) (error_value : String → String → V) where
  -- The policy, where there is one, gives a future that consents at this time, before the deadline and
  -- before the invocation is cancelled.
  abbrev pub Consents :
      Option (AdmissionPolicy V) → NodeInvocation V → Option ℕ → Option ℕ → ℕ → Type 0
  Consents none i timeout cancelled_at at = at ≡ 0
  Consents (some policy) i timeout cancelled_at at =
      (f : Future (Result HandlerError (Unit {0}))) × (policy i ≡ some f)
      × (f.takes ≡ some at)
      × (f.gives ≡ finishes (ok tt))
      × IsBefore at timeout
      × (happened cancelled_at at ≡ false)

  -- What has to hold for a handler to be called.
  pub record IsPermitted (r : Runtime V) (i : NodeInvocation V) (around : Surroundings)
      : Type 0 where
    pub advertised : is_some_and around.session (λ s. not (advertises_command s i.command)) ≡ false
    pub registered : (h : RegisteredHandler (Handler V)) × (get r.handlers i.command ≡ some h)
    pub within_limit : input_within_limit serde error_value r i ≡ true
    pub timeout : Option ℕ
    pub in_time : resolve_timeout r i around.now ≡ ok timeout
    pub at : ℕ
    pub consented : Consents r.admission_policy i timeout around.cancelled_at at
    pub not_cancelled : happened around.cancelled_at at ≡ false
    pub not_overflowed : happened around.overflowed_at at ≡ false
    pub not_retired : is_some_and around.session (λ s. s.is_retired) ≡ false

  awaited-some :
      (r : Runtime V) (d : Option ℕ) (t remaining : Option ℕ) (c : Option ℕ) (at : ℕ)
      (o : Outcome (Result HandlerError (Unit {0})))
      → settle_admission serde error_value r d c (await d (record { takes = t; gives = o }))
        ≡ admitted remaining at
      → (t ≡ some at) × (o ≡ finishes (ok tt)) × IsBefore at d × (happened c at ≡ false)
  unfolding settle_admission settle_policy remaining_after await await_for await_never
  awaited-some r none none remaining c at o h = absurd (ground arith)
  awaited-some r none (some t) remaining c at panics h = absurd (ground arith)
  awaited-some r none (some t) remaining c at (finishes (err e)) h = absurd (ground arith)
  awaited-some r none (some t) remaining c at (finishes (ok u)) h =
      (ground arith, refl, tt, ground arith)
  awaited-some r (some d) none remaining c at o h = absurd (ground arith)
  awaited-some r (some d) (some t) remaining c at panics h = absurd (ground arith)
  awaited-some r (some d) (some t) remaining c at (finishes (err e)) h = absurd (ground arith)
  awaited-some r (some d) (some t) remaining c at (finishes (ok u)) h =
      (ground arith, refl, ground arith, ground arith)

  admitted-Consents :
      (r : Runtime V) (i : NodeInvocation V) (timeout remaining c : Option ℕ) (at : ℕ)
      → evaluate_admission serde error_value r i timeout c ≡ admitted remaining at
      → Consents r.admission_policy i timeout c at
  unfolding evaluate_admission
  admitted-Consents r i timeout remaining c at h = decided r.admission_policy h
    where
      consulted :
          (policy : AdmissionPolicy V) (f : Option (Future (Result HandlerError (Unit {0}))))
          → policy i ≡ f
          → consult serde error_value r timeout c f ≡ admitted remaining at
          → Consents (some policy) i timeout c at
      consulted policy none e g = absurd (ground arith)
      consulted policy (some f) e g =
          let (a, b, d, n) = awaited-some r timeout f.takes remaining c at f.gives g in
          (f, e, a, b, d, n)

      decided :
          (p : Option (AdmissionPolicy V))
          → (elim p [
            | none ↦ admitted timeout 0
            | some policy ↦ consult serde error_value r timeout c (policy i)
          ])
            ≡ admitted remaining at
          → Consents p i timeout c at
      decided none g = ground arith
      decided (some policy) g = consulted policy (policy i) refl g

  abbrev has_entered : Option (Evaluation V) → Bool
  has_entered none = false
  has_entered (some e) = e.entered

  admission-guards :
      (r : Runtime V) (i : NodeInvocation V) (around : Surroundings)
      (h : RegisteredHandler (Handler V)) (remaining : Option ℕ) (at : ℕ)
      → has_entered (after_admission serde error_value r i around h (admitted remaining at)) ≡ true
      → (happened around.cancelled_at at ≡ false)
        × (happened around.overflowed_at at ≡ false)
        × (is_some_and around.session (λ s. s.is_retired) ≡ false)
  unfolding after_admission enter_handler handler_entry_rejection
  admission-guards r i around h remaining at en =
      elim (Bool-cases (happened around.overflowed_at at)) [
        | inl o ↦ absurd (ground arith)
        | inr o ↦ elim (Bool-cases (happened around.cancelled_at at)) [
          | inl c ↦ absurd (ground arith)
          | inr c ↦ elim (Bool-cases (is_some_and around.session (λ s. s.is_retired))) [
            | inl q ↦ absurd (ground arith)
            | inr q ↦ (c, o, q)
          ]
        ]
      ]

  resolution-guards :
      (r : Runtime V) (i : NodeInvocation V) (session : Option Session)
      (h : RegisteredHandler (Handler V))
      → resolve_session_handler r i session ≡ ok h
      → (is_some_and session (λ s. not (advertises_command s i.command)) ≡ false)
        × (get r.handlers i.command ≡ some h)
  unfolding resolve_session_handler
  resolution-guards r i session h e =
      elim (Bool-cases (is_some_and session (λ s. not (advertises_command s i.command)))) [
        | inl a ↦ absurd (ground arith)
        | inr a ↦ (a, ground arith)
      ]

  -- A handler is called only for a command that the connection advertises and that is registered, with
  -- parameters within the limit, a deadline that is not over, an admission policy that consents
  -- before the deadline, and if by then the invocation is neither cancelled nor overflowed and the
  -- session not retired.
  pub entered-IsPermitted :
      (r : Runtime V) (i : NodeInvocation V) (around : Surroundings) (e : Evaluation V)
      → evaluate_tracked serde error_value r i around ≡ some e
      → e.entered ≡ true
      → IsPermitted r i around
  unfolding evaluate_tracked after_resolution after_timeout
  entered-IsPermitted r i around e h entered =
      resolved (resolve_session_handler r i around.session) refl (ground arith)
    where
      admission :
          (h : RegisteredHandler (Handler V)) (timeout : Option ℕ) (a : Admission V)
          → get r.handlers i.command ≡ some h
          → is_some_and around.session (λ s. not (advertises_command s i.command)) ≡ false
          → input_within_limit serde error_value r i ≡ true
          → resolve_timeout r i around.now ≡ ok timeout
          → evaluate_admission serde error_value r i timeout around.cancelled_at ≡ a
          → has_entered (after_admission serde error_value r i around h a) ≡ true
          → IsPermitted r i around
      admission h timeout never g ad w t c en = absurd (ground arith)
      admission h timeout (rejected result) g ad w t c en = absurd (ground arith)
      admission h timeout (admitted remaining at) g ad w t c en = record {
        advertised = ad;
        registered = (h, g);
        within_limit = w;
        timeout = timeout;
        in_time = t;
        at = at;
        consented = admitted-Consents r i timeout remaining around.cancelled_at at c;
        not_cancelled = (admission-guards r i around h remaining at en).0;
        not_overflowed = (admission-guards r i around h remaining at en).1;
        not_retired = (admission-guards r i around h remaining at en).2;
      }

      resolved :
          (h : Result (InvocationResult V) (RegisteredHandler (Handler V)))
          → resolve_session_handler r i around.session ≡ h
          → has_entered (after_resolution serde error_value r i around h) ≡ true
          → IsPermitted r i around
      resolved (err result) e en = absurd (ground arith)
      resolved (ok h) e en = elim (Bool-cases (input_within_limit serde error_value r i)) [
        | inr w ↦ absurd (ground arith)
        | inl w ↦ elim (Result-cases (resolve_timeout r i around.now)) [
          | inr (u, t) ↦ absurd (ground arith)
          | inl (timeout, t) ↦
              let (ad, g) = resolution-guards r i around.session h e in
              admission h timeout _ g ad w t refl (ground arith)
        ]
      ]
