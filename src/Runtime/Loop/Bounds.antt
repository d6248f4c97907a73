-- ===== src/Runtime/Loop/Bounds.antt =====
-- The resources of the runtime's loop.
use openclaw_rust_node.Base.{
  ℕ, zero, suc, ◌+◌, ◌≤◌, Bool, true, ltb, ◌≡◌, refl, inl, inr, Option, none, some, List, [], ◌∷◌,
  length, length-snoc, Bool-cases, arith,
}
use openclaw_rust_node.Base.Results.{ok, err}
use openclaw_rust_node.Node.{
  NodeInvocation, NodeSessionEvent, InvocationResult, invocation, invocation_input,
  invocation_cancelled,
}
use openclaw_rust_node.Runtime.Build.{CommandRuntime}
use openclaw_rust_node.Runtime.Active.{ActiveInvocations, start, cancel_all}
use openclaw_rust_node.Runtime.Active.Cells
use openclaw_rust_node.Runtime.Active.Cells.{Touches-IsValid}
use openclaw_rust_node.Runtime.Active.Invariant.{start-IsValid, cancel_all-IsValid}
use openclaw_rust_node.Runtime.Active.Runs.{apply-IsValid, routed, routed-Touches, default-IsValid}
use openclaw_rust_node.Runtime.Tasks.Permits.{
  abort_all-IsValid, complete_task-IsValid, join_task-held_permits, held_permits-snoc,
}
use openclaw_rust_node.Runtime.Tasks.{
  Completion, delivered, undelivered, died, Task, permits_of, held_permits, join_task,
}
use openclaw_rust_node.Runtime.Loop.{
  RuntimeError, Loop, LoopEvent, next_event, completes, joins, worker_takes, worker_ends,
  joins_worker, taken_elsewhere, returned_elsewhere, active_elsewhere, take_elsewhere,
  return_elsewhere, begin, stop, spawn_handler_task, send_overload, overload_result, overload,
  accept, on_event, release, on_joined, take_result, join_worker, turn, turn_unless, loop_step,
  run_loop,
}

-- Every permit is free, held by one task or held elsewhere; the queue of overload results is within its
-- capacity, an ended loop has no task and has closed its session, and the active invocations are valid.
pub record IsValid {V : Type 0} (total capacity : ℕ) (l : Loop V) : Type 0 where
  pub counted : l.free_permits + held_permits l.tasks + l.held_elsewhere ≡ total
  pub capacity_kept : l.delivery_capacity ≡ capacity
  pub bounded : length l.queue ≤ capacity
  pub over :
      (error : RuntimeError V)
      → l.ended ≡ some error
      → (length l.tasks ≡ 0) × (l.session_closed ≡ true)
  pub active : Cells.IsValid l.active

module _ {V : Type 0} where
  stop-IsValid :
      (total capacity : ℕ) (l : Loop V) (error : RuntimeError V)
      → l.free_permits + held_permits l.tasks + l.held_elsewhere ≡ total
      → l.delivery_capacity ≡ capacity
      → Cells.IsValid l.active
      → IsValid total capacity (stop l error)
  unfolding stop held_permits
  stop-IsValid total capacity l error counted kept v = record {
    counted = omega arith;
    capacity_kept = kept;
    bounded = omega arith;
    over = λ e h. (refl, refl);
    active = abort_all-IsValid (cancel_all l.active) l.tasks (cancel_all-IsValid l.active v);
  }

  module _ (total capacity : ℕ) (l : Loop V) (v : IsValid total capacity l)
      (running : l.ended ≡ none) where
    stopped : (error : RuntimeError V) → IsValid total capacity (stop l error)
    stopped error = stop-IsValid total capacity l error v.counted v.capacity_kept v.active

    send_overload-IsValid :
        (i : NodeInvocation V) (worker : Option (Completion V))
        → IsValid total capacity (send_overload l i worker)
    unfolding send_overload
    send_overload-IsValid i (some c) = stopped _
    send_overload-IsValid i none = elim (Bool-cases (ltb (length l.queue) l.delivery_capacity)) [
      | inr f ↦ rw f (stopped _)
      | inl f ↦ rw f (record {
        counted = v.counted;
        capacity_kept = v.capacity_kept;
        bounded = ground (arith, v.capacity_kept, length-snoc l.queue (overload_result i));
        over = v.over;
        active = v.active;
      })
    ]

    accept-IsValid :
        (i : NodeInvocation V) (duplex : Bool) (free : ℕ)
        → l.free_permits ≡ free
        → IsValid total capacity (accept l i duplex free)
    unfolding accept spawn_handler_task overload permits_of
    accept-IsValid i duplex zero e = send_overload-IsValid i l.worker
    accept-IsValid i duplex (suc free) e = record {
      counted = omega (
        arith,
        v.counted,
        e,
        held_permits-snoc l.tasks
            (record { handle = (start l.active i.id i.node_id duplex).1; completion = none }),
      );
      capacity_kept = v.capacity_kept;
      bounded = v.bounded;
      over = λ error h. absurd (ground arith);
      active = start-IsValid l.active i.id i.node_id duplex v.active;
    }

    touched :
        (active : ActiveInvocations)
        → Cells.IsValid active
        → IsValid total capacity (record l { active = active })
    touched active a = record {
      counted = v.counted;
      capacity_kept = v.capacity_kept;
      bounded = v.bounded;
      over = v.over;
      active = a;
    }

    routed-IsValid : (e : NodeSessionEvent V) → Cells.IsValid (routed l.active e)
    routed-IsValid e = Touches-IsValid (routed-Touches l.active e v.active.buffers) v.active

    on_event-IsValid :
        {H P : Type 0} (r : CommandRuntime H P) (e : NodeSessionEvent V)
        → IsValid total capacity (on_event r l e)
    unfolding on_event
    on_event-IsValid r (invocation i) = accept-IsValid i _ l.free_permits refl
    on_event-IsValid r (invocation_input id node_id seq payload) =
        touched _ (routed-IsValid (invocation_input id node_id seq payload))
    on_event-IsValid r (invocation_cancelled id node_id) =
        touched _ (routed-IsValid (invocation_cancelled id node_id))

    joined-counted :
        (n : ℕ) (c : Completion V) (rest : List (Task V))
        → join_task l.tasks n ≡ some (c, rest)
        → l.free_permits + permits_of (some c) + held_permits rest + l.held_elsewhere ≡ total
    joined-counted n c rest e = omega (arith, v.counted, join_task-held_permits l.tasks n c rest e)

    joined-IsValid :
        (found : Option (Completion V × List (Task V))) (n : ℕ)
        → join_task l.tasks n ≡ found
        → IsValid total capacity (on_joined l found)
    unfolding on_joined release
    joined-IsValid none n e = v
    joined-IsValid (some (delivered, rest)) n e = record {
      counted = joined-counted n delivered rest e;
      capacity_kept = v.capacity_kept;
      bounded = v.bounded;
      over = λ error h. absurd (ground arith);
      active = v.active;
    }
    joined-IsValid (some (undelivered x, rest)) n e =
        stop-IsValid total capacity (release l (undelivered x) rest) _
          (joined-counted n (undelivered x) rest e) v.capacity_kept v.active
    joined-IsValid (some (died x, rest)) n e =
        stop-IsValid total capacity (release l (died x) rest) _ (joined-counted n (died x) rest e)
          v.capacity_kept v.active

    recounted :
        (free elsewhere : ℕ)
        → free + held_permits l.tasks + elsewhere ≡ total
        → IsValid total capacity (record l { free_permits = free; held_elsewhere = elsewhere })
    recounted free elsewhere counted = record {
      counted = counted;
      capacity_kept = v.capacity_kept;
      bounded = v.bounded;
      over = v.over;
      active = v.active;
    }

    taken-IsValid :
        (free : ℕ) → l.free_permits ≡ free → IsValid total capacity (take_elsewhere l free)
    unfolding take_elsewhere
    taken-IsValid zero e = v
    taken-IsValid (suc free) e = recounted free (l.held_elsewhere + 1) (omega (arith, v.counted, e))

    returned-IsValid :
        (held : ℕ) → l.held_elsewhere ≡ held → IsValid total capacity (return_elsewhere l held)
    unfolding return_elsewhere
    returned-IsValid zero e = v
    returned-IsValid (suc held) e =
        recounted (l.free_permits + 1) held (omega (arith, v.counted, e))

    worker-IsValid : (c : Option (Completion V)) → IsValid total capacity (join_worker l c)
    unfolding join_worker
    worker-IsValid none = v
    worker-IsValid (some c) = stopped _

    take_result-length :
        (queue : List (NodeInvocation V × InvocationResult V))
        → length (take_result queue) ≤ length queue
    unfolding take_result
    take_result-length [] = omega arith
    take_result-length (x ∷ queue) = omega arith

    turn-IsValid :
        {H P : Type 0} (r : CommandRuntime H P) (e : LoopEvent V)
        → IsValid total capacity (turn r l e)
    unfolding turn
    turn-IsValid r (next_event (ok e)) = on_event-IsValid r e
    turn-IsValid r (next_event (err error)) = stopped _
    turn-IsValid r (completes n c) =
        let (a, same) = complete_task-IsValid l.active l.tasks n c v.active in
        record {
          counted = omega (arith, v.counted, same);
          capacity_kept = v.capacity_kept;
          bounded = v.bounded;
          over = λ error h. absurd (ground arith);
          active = a;
        }
    turn-IsValid r (joins n) = joined-IsValid (join_task l.tasks n) n refl
    turn-IsValid r worker_takes = record {
      counted = v.counted;
      capacity_kept = v.capacity_kept;
      bounded = omega (arith, v.bounded, take_result-length l.queue);
      over = v.over;
      active = v.active;
    }
    turn-IsValid r (worker_ends c) = record {
      counted = v.counted;
      capacity_kept = v.capacity_kept;
      bounded = omega arith;
      over = v.over;
      active = v.active;
    }
    turn-IsValid r joins_worker = worker-IsValid l.worker
    turn-IsValid r taken_elsewhere = taken-IsValid l.free_permits refl
    turn-IsValid r returned_elsewhere = returned-IsValid l.held_elsewhere refl
    turn-IsValid r (active_elsewhere op) = touched _ (apply-IsValid l.active op v.active)

module _ {V H P : Type 0} (r : CommandRuntime H P) where
  turn_unless-IsValid :
      (total capacity : ℕ) (l : Loop V) (e : LoopEvent V) (ended : Option (RuntimeError V))
      → l.ended ≡ ended
      → IsValid total capacity l
      → IsValid total capacity (turn_unless r l e ended)
  unfolding turn_unless
  turn_unless-IsValid total capacity l e none q v = turn-IsValid total capacity l v q r e
  turn_unless-IsValid total capacity l e (some error) q v = v

  run_loop-IsValid_from :
      (total capacity : ℕ) (l : Loop V) (events : List (LoopEvent V))
      → IsValid total capacity l
      → IsValid total capacity (run_loop r l events)
  unfolding run_loop loop_step
  run_loop-IsValid_from total capacity l [] v = v
  run_loop-IsValid_from total capacity l (e ∷ events) v =
      run_loop-IsValid_from total capacity (loop_step r l e) events
        (turn_unless-IsValid total capacity l e l.ended refl v)

  -- Whatever arrives and in whatever order tasks, deliveries and the runtime's other users proceed,
  -- every permit is free, held by exactly one task that has not died, or held elsewhere, so the tasks
  -- that have not died are at most as many as the permits; the overload results that wait are at
  -- most the delivery capacity, the active invocations are valid, and a loop that has ended has no
  -- task left and has closed its session.
  pub run_loop-IsValid :
      (free elsewhere capacity : ℕ) (events : List (LoopEvent V))
      → IsValid (free + elsewhere) capacity (run_loop r (begin free elsewhere capacity) events)
  unfolding begin held_permits
  run_loop-IsValid free elsewhere capacity events =
      run_loop-IsValid_from (free + elsewhere) capacity _ events (record {
        counted = omega arith;
        capacity_kept = refl;
        bounded = omega arith;
        over = λ error h. absurd (ground arith);
        active = default-IsValid;
      })
