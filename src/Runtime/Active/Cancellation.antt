-- ===== src/Runtime/Active/Cancellation.antt =====
-- Cancellation of all that is active when the runtime stops.
use openclaw_rust_node.Base.{ℕ, ◌≤◌, true, ◌≡◌, Option, none, some, List, [], ◌∷◌, All, arith}
use openclaw_rust_node.Duplex.Input.{InputBuffer, recv, close}
use openclaw_rust_node.Runtime.Active.{
  ActiveInvocationState, ActiveInvocations, set, cancel_token, close_input, cancel_state,
  cancel_states, cancel_all,
}
use openclaw_rust_node.Runtime.Active.Cells.{IsAllocated, InputBelow, Entries, IsValid}
use openclaw_rust_node.Runtime.Active.Runs.{
  Op, starts, arrives, receives, ends, stops_all, apply, run,
}
use openclaw_rust_node.Runtime.Active.Growth.{
  Grows, Grows-self, Grows-then, set-Grows, recv_stays_closed, routed-Grows, start-Grows,
  drop-Grows, cancel_state-Grows, cancel_states-Grows,
}

pub cancel_all-Grows : (w : ActiveInvocations) → Grows w (cancel_all w)
unfolding cancel_all
cancel_all-Grows w =
    let g = cancel_states-Grows (record w { entries = [] }) w.entries in
    record { fresh = g.fresh; cancelled = g.cancelled; closed = g.closed }

apply-Grows : {V : Type 0} (w : ActiveInvocations) (op : Op V) → Grows w (apply w op)
unfolding apply
apply-Grows w (starts id node_id duplex) = start-Grows w id node_id duplex
apply-Grows w (arrives e) = routed-Grows w e
apply-Grows w (receives b) = set-Grows w b (recv (w.buffers b)).0 (recv_stays_closed (w.buffers b))
apply-Grows w (ends handle) = drop-Grows w handle
apply-Grows w stops_all = cancel_all-Grows w

run-Grows : {V : Type 0} (w : ActiveInvocations) (ops : List (Op V)) → Grows w (run w ops)
unfolding run
run-Grows w [] = Grows-self w
run-Grows w (op ∷ ops) = Grows-then (apply-Grows w op) (run-Grows (apply w op) ops)

abbrev IsClosed : Option ℕ → (ℕ → InputBuffer) → Type 0
IsClosed none f = Unit
IsClosed (some b) f = (f b).closed ≡ true

-- The invocation's token is cancelled, and its input buffer, where it has one, is closed.
pub record IsStopped (w : ActiveInvocations) (s : ActiveInvocationState) : Type 0 where
  pub cancelled : w.cancelled s.cancellation ≡ true
  pub closed : IsClosed s.input w.buffers

IsStopped-Grows :
    (s : ActiveInvocationState) (n : ℕ) {w w' : ActiveInvocations}
    → Grows w w'
    → n ≤ w.fresh
    → IsAllocated n s
    → IsStopped w s
    → IsStopped w' s
IsStopped-Grows s n {w = w} {w' = w'} g l a h = record {
  cancelled = g.cancelled s.cancellation (omega (arith, a.cancellation)) h.cancelled;
  closed = closed s.input a.input h.closed;
}
  where
    closed : (i : Option ℕ) → InputBelow n i → IsClosed i w.buffers → IsClosed i w'.buffers
    closed none b c = tt
    closed (some i) b c = g.closed i (omega arith) c

close_input-cancelled :
    (w : ActiveInvocations) (t : ℕ) (i : Option ℕ)
    → (close_input (cancel_token w t) i).cancelled t ≡ true
unfolding close_input cancel_token set
close_input-cancelled w t none = ground arith
close_input-cancelled w t (some b) = ground arith

close_input-IsClosed : (w : ActiveInvocations) (i : Option ℕ) → IsClosed i (close_input w i).buffers
unfolding close_input close set
close_input-IsClosed w none = tt
close_input-IsClosed w (some b) = ground arith

cancel_state-IsStopped :
    (w : ActiveInvocations) (s : ActiveInvocationState) → IsStopped (cancel_state w s) s
unfolding cancel_state
cancel_state-IsStopped w s = record {
  cancelled = close_input-cancelled w s.cancellation s.input;
  closed = close_input-IsClosed (cancel_token w s.cancellation) s.input;
}

pub cancel_states-IsStopped :
    (w : ActiveInvocations) (n : ℕ) (entries : Entries)
    → n ≤ w.fresh
    → All (λ e. IsAllocated n e.1) entries
    → All (λ e. IsStopped (cancel_states w entries) e.1) entries
unfolding cancel_states
cancel_states-IsStopped w n [] l a = tt
cancel_states-IsStopped w n ((id, s) ∷ rest) l a =
    let first = cancel_state-Grows w s in
    (
      IsStopped-Grows s n (cancel_states-Grows (cancel_state w s) rest)
          (omega (arith, l, first.fresh)) a.0 (cancel_state-IsStopped w s),
      cancel_states-IsStopped (cancel_state w s) n rest (omega (arith, l, first.fresh)) a.1,
    )

pub All-IsStopped-Grows :
    (n : ℕ) (entries : Entries) {w w' : ActiveInvocations}
    → Grows w w'
    → n ≤ w.fresh
    → All (λ e. IsAllocated n e.1) entries
    → All (λ e. IsStopped w e.1) entries
    → All (λ e. IsStopped w' e.1) entries
All-IsStopped-Grows n [] g l a h = tt
All-IsStopped-Grows n ((id, s) ∷ rest) g l a h =
    (IsStopped-Grows s n g l a.0 h.0, All-IsStopped-Grows n rest g l a.1 h.1)

-- When the runtime stops, every invocation that is active is cancelled and its input closed, and
-- whatever happens later, to these or to other invocations, does not undo this.
pub cancel_all_final :
    {V : Type 0} (w : ActiveInvocations) (ops : List (Op V))
    → IsValid w
    → All (λ e. IsStopped (run (cancel_all w) ops) e.1) w.entries
unfolding cancel_all
cancel_all_final w ops v =
    All-IsStopped-Grows w.fresh w.entries (run-Grows (cancel_all w) ops) (cancel_all-Grows w).fresh
      v.entries.allocated
      (cancel_states-IsStopped (record w { entries = [] }) w.fresh w.entries (omega arith)
        v.entries.allocated)
