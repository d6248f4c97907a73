-- ===== src/Runtime/Active/Runs.antt =====
-- Runs of the active invocations: what happens to them, in any order.
use openclaw_rust_node.Base.{ℕ, String, Bool, none, some, List, [], ◌∷◌}
use openclaw_rust_node.Node.{NodeSessionEvent, invocation, invocation_input, invocation_cancelled}
use openclaw_rust_node.Duplex.Input.{
  InputDisposition, accepted, ignored, overflow, recv, default_pending_input_bytes,
}
use openclaw_rust_node.Duplex.Input.Bounds
use openclaw_rust_node.Duplex.Input.Bounds.{recv-IsValid, new-IsValid}
use openclaw_rust_node.Runtime.Active.{
  ActiveInvocations, ActiveInvocation, default, set, start, input, cancel_all, drop,
  cancel_overflowed, route_invocation_control,
}
use openclaw_rust_node.Runtime.Active.Cells.{
  IsValid, set-IsValid, Touches, Touches-self, Touches-then, Touches-IsValid, cancel-Touches,
  input-Touches,
}
use openclaw_rust_node.Runtime.Active.Invariant.{start-IsValid, drop-IsValid, cancel_all-IsValid}

-- What happens to the active invocations: tasks start and end, events arrive, handlers receive input,
-- and the runtime stops.
pub data Op (V : Type 0) : Type 0 where
  starts : (id node_id : String) (duplex : Bool) → Op V
  arrives : NodeSessionEvent V → Op V
  receives : (buffer : ℕ) → Op V
  ends : ActiveInvocation → Op V
  stops_all : Op V

unfoldable pub routed : {V : Type 0} → ActiveInvocations → NodeSessionEvent V → ActiveInvocations
routed w e = elim (route_invocation_control w e) [ some w' ↦ w' | none ↦ w ]

unfoldable pub apply : {V : Type 0} → ActiveInvocations → Op V → ActiveInvocations
apply w (starts id node_id duplex) = (start w id node_id duplex).0
apply w (arrives e) = routed w e
apply w (receives b) = record w { buffers = set w.buffers b (recv (w.buffers b)).0 }
apply w (ends handle) = drop w handle
apply w stops_all = cancel_all w

unfoldable pub run : {V : Type 0} → ActiveInvocations → List (Op V) → ActiveInvocations
unfolding apply
run w [] = w
run w (op ∷ ops) = run (apply w op) ops

cancel_overflowed-Touches :
    (w : ActiveInvocations) (id : String) (r : ActiveInvocations × InputDisposition)
    → Touches w r.0
    → Touches w (cancel_overflowed id r)
unfolding cancel_overflowed
cancel_overflowed-Touches w id (u, overflow) t = Touches-then t (cancel-Touches u id)
cancel_overflowed-Touches w id (u, ignored) t = t
cancel_overflowed-Touches w id (u, accepted) t = t

pub routed-Touches :
    {V : Type 0} (w : ActiveInvocations) (e : NodeSessionEvent V)
    → ((b : ℕ) → Bounds.IsValid (w.buffers b))
    → Touches w (routed w e)
unfolding routed route_invocation_control
routed-Touches w (invocation i) v = Touches-self w
routed-Touches w (invocation_input id node_id seq payload) v =
    cancel_overflowed-Touches w id (input w id node_id seq payload)
      (input-Touches w id node_id seq payload v)
routed-Touches w (invocation_cancelled id node_id) v = cancel-Touches w id

pub apply-IsValid :
    {V : Type 0} (w : ActiveInvocations) (op : Op V) → IsValid w → IsValid (apply w op)
unfolding apply
apply-IsValid w (starts id node_id duplex) v = start-IsValid w id node_id duplex v
apply-IsValid w (arrives e) v = Touches-IsValid (routed-Touches w e v.buffers) v
apply-IsValid w (receives b) v = record {
  entries = v.entries;
  buffers =
      set-IsValid w.buffers b (recv (w.buffers b)).0 v.buffers
        (recv-IsValid (w.buffers b) (v.buffers b)).0;
}
apply-IsValid w (ends handle) v = drop-IsValid w handle v
apply-IsValid w stops_all v = cancel_all-IsValid w v

run-IsValid_from :
    {V : Type 0} (w : ActiveInvocations) (ops : List (Op V)) → IsValid w → IsValid (run w ops)
unfolding run
run-IsValid_from w [] v = v
run-IsValid_from w (op ∷ ops) v = run-IsValid_from (apply w op) ops (apply-IsValid w op v)

pub default-IsValid : IsValid default
unfolding default
default-IsValid = record {
  entries = record { apart = tt; allocated = tt };
  buffers = λ b. new-IsValid default_pending_input_bytes;
}

-- Whatever starts, arrives, is received, ends or stops, and in whatever order: no identifier is active
-- twice, no two active invocations share a token or an input buffer, and no buffer holds more than
-- its maximum.
pub active_run-IsValid : {V : Type 0} (ops : List (Op V)) → IsValid (run default ops)
active_run-IsValid ops = run-IsValid_from default ops default-IsValid
