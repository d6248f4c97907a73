-- ===== src/Tests/ActiveTests.antt =====
-- The active invocations after two have started, one of them duplex.
use openclaw_rust_node.Base.{String, true, false, ◌≡◌, refl, none, some, List, [], ◌∷◌, All}
use openclaw_rust_node.Node.{NodeSessionEvent, invocation_input}
use openclaw_rust_node.Runtime.Build.{get}
use openclaw_rust_node.Runtime.Active.{
  ActiveInvocationState, ActiveInvocations, default, new_token, new_input, enter, track_vacant,
  track_entry, track, start,
}
use openclaw_rust_node.Runtime.Active.Cells.{IsValid}
use openclaw_rust_node.Runtime.Active.Runs.{
  Op, starts, arrives, routed, apply, run, active_run-IsValid,
}
use openclaw_rust_node.Runtime.Active.Isolation.{Keeps, routed_isolates}
use openclaw_rust_node.Runtime.Active.Cancellation.{IsStopped, cancel_all_final}
use openclaw_rust_node.Runtime.Active.{cancel_all}

abbrev ops : List (Op String)
ops = starts "stream" "node-1" true ∷ starts "snap" "node-1" false ∷ []

abbrev active : ActiveInvocations
active = run default ops

abbrev snap_state : ActiveInvocationState
snap_state = record { node_id = "node-1"; cancellation = 3; input = none; input_overflow = 4 }

abbrev frame : NodeSessionEvent String
frame = invocation_input "stream" "node-1" 0 "data"

snap_is_active : get active.entries "snap" ≡ some snap_state
unfolding run apply start track track_entry track_vacant enter new_token new_input get default
snap_is_active = refl

active_is_valid : IsValid active
active_is_valid = active_run-IsValid ops

active_run-IsValid_example : IsValid active
active_run-IsValid_example = active_run-IsValid ops

routed_isolates_example :
    ((routed active frame).entries ≡ active.entries) × Keeps snap_state active (routed active frame)
routed_isolates_example =
    routed_isolates active frame "snap" snap_state active_is_valid snap_is_active refl

abbrev later : List (Op String)
later = arrives frame ∷ starts "snap" "node-1" false ∷ []

cancel_all_final_example : All (λ e. IsStopped (run (cancel_all active) later) e.1) active.entries
cancel_all_final_example = cancel_all_final active later active_is_valid
