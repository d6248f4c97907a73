-- ===== src/Runtime/Loop/Ending.antt =====
-- The end of the runtime's loop.
use openclaw_rust_node.Base.{
  ℕ, zero, suc, Bool, ltb, ◌≡◌, refl, inl, inr, Option, none, some, List, [], ◌∷◌, All, length,
  Bool-cases, arith,
}
use openclaw_rust_node.Base.Results.{ok, err}
use openclaw_rust_node.Node.{NodeInvocation, invocation, invocation_input, invocation_cancelled}
use openclaw_rust_node.Runtime.Build.{CommandRuntime}
use openclaw_rust_node.Runtime.Active.{ActiveInvocations, ActiveInvocation, cancel_all}
use openclaw_rust_node.Runtime.Active.Cells
use openclaw_rust_node.Runtime.Active.Runs.{Op, run}
use openclaw_rust_node.Runtime.Active.Growth.{Grows, Grows-self, Grows-then, drop-Grows}
use openclaw_rust_node.Runtime.Active.Cancellation.{
  IsStopped, All-IsStopped-Grows, cancel_all-Grows, cancel_all_final,
}
use openclaw_rust_node.Runtime.Tasks.{
  Completion, delivered, undelivered, died, Task, drop_handle, abort_all, join_task,
}
use openclaw_rust_node.Runtime.Loop.{
  RuntimeError, client, result_task, Loop, LoopEvent, next_event, completes, joins, worker_takes,
  worker_ends, joins_worker, taken_elsewhere, returned_elsewhere, active_elsewhere, take_elsewhere,
  return_elsewhere, stop, spawn_handler_task, send_overload, overload, accept, on_event, release,
  on_joined, join_worker, turn, turn_unless, loop_step,
}

drop_handle-Grows :
    (w : ActiveInvocations) (h : Option ActiveInvocation) → Grows w (drop_handle w h)
unfolding drop_handle
drop_handle-Grows w none = Grows-self w
drop_handle-Grows w (some h) = drop-Grows w h

abort_all-Grows :
    {V : Type 0} (w : ActiveInvocations) (tasks : List (Task V)) → Grows w (abort_all w tasks)
unfolding abort_all
abort_all-Grows w [] = Grows-self w
abort_all-Grows w (t ∷ tasks) =
    Grows-then (drop_handle-Grows w t.handle) (abort_all-Grows (drop_handle w t.handle) tasks)

module _ {V : Type 0} where
  -- All that was active in the one is stopped in the other.
  abbrev pub AreStopped : Loop V → Loop V → Type 0
  AreStopped l l' = All (λ e. IsStopped l'.active e.1) l.active.entries

  stop-AreStopped :
      (l : Loop V) (error : RuntimeError V) → Cells.IsValid l.active → AreStopped l (stop l error)
  unfolding stop run
  stop-AreStopped l error v =
      All-IsStopped-Grows l.active.fresh l.active.entries
        (abort_all-Grows (cancel_all l.active) l.tasks) (cancel_all-Grows l.active).fresh
        v.entries.allocated (stopped_now [])
    where
      stopped_now :
          (ops : List (Op V))
          → All (λ e. IsStopped (run (cancel_all l.active) ops) e.1) l.active.entries
      stopped_now ops = cancel_all_final l.active ops v

  -- If the loop has ended in the second state, all that was active is stopped.
  abbrev EndsStopped : Loop V → Loop V → Type 0
  EndsStopped l l' = (error : RuntimeError V) → l'.ended ≡ some error → AreStopped l l'

  module _ (l : Loop V) (v : Cells.IsValid l.active) (running : l.ended ≡ none) where
    stop-EndsStopped : (error : RuntimeError V) → EndsStopped l (stop l error)
    stop-EndsStopped error e h = stop-AreStopped l error v

    send_overload-EndsStopped :
        (i : NodeInvocation V) (worker : Option (Completion V))
        → EndsStopped l (send_overload l i worker)
    unfolding send_overload
    send_overload-EndsStopped i (some c) = stop-EndsStopped _
    send_overload-EndsStopped i none =
        elim (Bool-cases (ltb (length l.queue) l.delivery_capacity)) [
          | inr f ↦ rw f (stop-EndsStopped _)
          | inl f ↦ rw f (λ error h. absurd (ground arith))
        ]

    accept-EndsStopped :
        (i : NodeInvocation V) (duplex : Bool) (free : ℕ) → EndsStopped l (accept l i duplex free)
    unfolding accept overload spawn_handler_task
    accept-EndsStopped i duplex zero = send_overload-EndsStopped i l.worker
    accept-EndsStopped i duplex (suc free) = λ error h. absurd (ground arith)

    joined-EndsStopped :
        (found : Option (Completion V × List (Task V))) → EndsStopped l (on_joined l found)
    unfolding on_joined release
    joined-EndsStopped none = λ error h. absurd (ground arith)
    joined-EndsStopped (some (delivered, rest)) = λ error h. absurd (ground arith)
    joined-EndsStopped (some (undelivered x, rest)) =
        λ error h. stop-AreStopped (release l (undelivered x) rest) (client x) v
    joined-EndsStopped (some (died x, rest)) =
        λ error h. stop-AreStopped (release l (died x) rest) (result_task x) v

    worker-EndsStopped : (c : Option (Completion V)) → EndsStopped l (join_worker l c)
    unfolding join_worker
    worker-EndsStopped none = λ error h. absurd (ground arith)
    worker-EndsStopped (some c) = stop-EndsStopped _

    taken-EndsStopped : (free : ℕ) → EndsStopped l (take_elsewhere l free)
    unfolding take_elsewhere
    taken-EndsStopped zero = λ error h. absurd (ground arith)
    taken-EndsStopped (suc free) = λ error h. absurd (ground arith)

    returned-EndsStopped : (held : ℕ) → EndsStopped l (return_elsewhere l held)
    unfolding return_elsewhere
    returned-EndsStopped zero = λ error h. absurd (ground arith)
    returned-EndsStopped (suc held) = λ error h. absurd (ground arith)

    turn-EndsStopped :
        {H P : Type 0} (r : CommandRuntime H P) (e : LoopEvent V) → EndsStopped l (turn r l e)
    unfolding turn on_event
    turn-EndsStopped r (next_event (ok (invocation i))) = accept-EndsStopped i _ l.free_permits
    turn-EndsStopped r (next_event (ok (invocation_input id node_id seq payload))) =
        λ error h. absurd (ground arith)
    turn-EndsStopped r (next_event (ok (invocation_cancelled id node_id))) =
        λ error h. absurd (ground arith)
    turn-EndsStopped r (next_event (err error)) = stop-EndsStopped _
    turn-EndsStopped r (completes n c) = λ error h. absurd (ground arith)
    turn-EndsStopped r (joins n) = joined-EndsStopped (join_task l.tasks n)
    turn-EndsStopped r worker_takes = λ error h. absurd (ground arith)
    turn-EndsStopped r (worker_ends c) = λ error h. absurd (ground arith)
    turn-EndsStopped r joins_worker = worker-EndsStopped l.worker
    turn-EndsStopped r taken_elsewhere = taken-EndsStopped l.free_permits
    turn-EndsStopped r returned_elsewhere = returned-EndsStopped l.held_elsewhere
    turn-EndsStopped r (active_elsewhere op) = λ error h. absurd (ground arith)

  -- However the loop ends - the session fails, a result cannot be delivered, a task dies, or the
  -- delivery queue is full - every invocation that was active is cancelled and its input closed.
  pub loop_ends_stopped :
      {H P : Type 0} (r : CommandRuntime H P) (l : Loop V) (e : LoopEvent V)
      (error : RuntimeError V)
      → Cells.IsValid l.active
      → l.ended ≡ none
      → (loop_step r l e).ended ≡ some error
      → AreStopped l (loop_step r l e)
  unfolding loop_step
  loop_ends_stopped r l e error v running = stepped l.ended refl
    where
      stepped :
          (ended : Option (RuntimeError V))
          → l.ended ≡ ended
          → (turn_unless r l e ended).ended ≡ some error
          → AreStopped l (turn_unless r l e ended)
      stepped none q h = turn-EndsStopped l v running r e error h
      stepped (some x) q h = absurd (ground arith)
