-- ===== src/Runtime/Loop.antt =====
-- `CommandRuntime::run` (runtime.rs) as a state and what happens to it. Which of the ready branches the
-- `select` takes is the outside's choice; so is the order in which tasks and the delivery worker
-- proceed. A task's evaluation is in Runtime/Evaluate; here it has an end. The permits are those of the
-- runtime, which its other runs and `dispatch` share: what they hold is held elsewhere. Handlers and `dispatch`
-- share the active invocations of the session.
pub mod Bounds
pub mod Ending
use openclaw_rust_node.Base.{
  ℕ, zero, suc, ◌+◌, String, Bool, true, false, ltb, if◌then◌else◌, Option, none, some, List, [],
  ◌∷◌, ◌++◌, length,
}
use openclaw_rust_node.Base.Results.{Result, ok, err}
use openclaw_rust_node.Client.{ClientError}
use openclaw_rust_node.Node.{
  NodeInvocation, NodeSessionEvent, InvocationResult, failure, invocation, invocation_input,
  invocation_cancelled,
}
use openclaw_rust_node.Runtime.Build.{CommandRuntime, get}
use openclaw_rust_node.Runtime.Active.{ActiveInvocations, default, start, cancel_all}
use openclaw_rust_node.Runtime.Active.Runs.{Op, apply, routed}
use openclaw_rust_node.Runtime.Tasks.{
  Completion, delivered, undelivered, died, Task, permits_of, held_permits, abort_all,
  complete_task, join_task,
}

pub data RuntimeError (V : Type 0) : Type 0 where
  client : ClientError V → RuntimeError V
  delivery_saturated : RuntimeError V
  result_task : String → RuntimeError V

pub record Loop (V : Type 0) : Type 0 where
  pub active : ActiveInvocations
  pub free_permits : ℕ
  pub held_elsewhere : ℕ
  pub tasks : List (Task V)
  pub queue : List (NodeInvocation V × InvocationResult V)
  pub delivery_capacity : ℕ
  pub worker : Option (Completion V)
  pub session_closed : Bool
  pub ended : Option (RuntimeError V)

pub data LoopEvent (V : Type 0) : Type 0 where
  -- `session.next_node_event()`.
  next_event : Result (ClientError V) (NodeSessionEvent V) → LoopEvent V
  -- The task at this place completes its invocation; later its end is joined.
  completes : (task : ℕ) → Completion V → LoopEvent V
  joins : (task : ℕ) → LoopEvent V
  -- The delivery worker takes a result from the queue; it ends, and its end is
  -- joined.
  worker_takes : LoopEvent V
  worker_ends : Completion V → LoopEvent V
  joins_worker : LoopEvent V
  -- Another user of the runtime takes a permit, if there is one, or gives one back.
  taken_elsewhere : LoopEvent V
  returned_elsewhere : LoopEvent V
  -- A handler or a `dispatch` of the same session uses the active invocations.
  active_elsewhere : Op V → LoopEvent V

abbrev is_duplex : {H P : Type 0} → CommandRuntime H P → String → Bool
is_duplex r command = elim (get r.handlers command) [ none ↦ false | some h ↦ h.duplex ]

module _ {V : Type 0} where
  unfoldable pub begin : (free_permits held_elsewhere delivery_capacity : ℕ) → Loop V
  begin free_permits held_elsewhere delivery_capacity = record {
    active = default;
    free_permits = free_permits;
    held_elsewhere = held_elsewhere;
    tasks = [];
    queue = [];
    delivery_capacity = delivery_capacity;
    worker = none;
    session_closed = false;
    ended = none;
  }

  -- `stop_runtime_tasks` or `stop_handler_tasks`, the end of the session, and the error.
  unfoldable pub stop : Loop V → RuntimeError V → Loop V
  unfolding abort_all held_permits
  stop l error = record l {
    active = abort_all (cancel_all l.active) l.tasks;
    free_permits = l.free_permits + held_permits l.tasks;
    tasks = [];
    queue = [];
    session_closed = true;
    ended = some error;
  }

  unfoldable pub runtime_task_failure : Completion V → (unexpected : String) → RuntimeError V
  runtime_task_failure (undelivered error) unexpected = client error
  runtime_task_failure (died reason) unexpected = result_task reason
  runtime_task_failure delivered unexpected = result_task unexpected

  -- A permit is at hand: the invocation is tracked, and a task evaluates it or reports the duplicate.
  unfoldable pub spawn_handler_task : Loop V → NodeInvocation V → (duplex : Bool) → ℕ → Loop V
  spawn_handler_task l i duplex free_permits =
      let (active, handle) = start l.active i.id i.node_id duplex in
      record l {
        active = active;
        free_permits = free_permits;
        tasks = l.tasks ++ (record { handle = handle; completion = none } ∷ []);
      }

  abbrev pub overload_result : NodeInvocation V → NodeInvocation V × InvocationResult V
  overload_result i = (i, failure "OVERLOADED" "command runtime is at its concurrency limit")

  -- `try_send` of the overload's result: to the worker, or to none if it has ended.
  unfoldable pub send_overload : Loop V → NodeInvocation V → Option (Completion V) → Loop V
  unfolding stop
  send_overload l i none =
      if ltb (length l.queue) l.delivery_capacity
      then record l { queue = l.queue ++ (overload_result i ∷ []) }
      else stop l delivery_saturated
  send_overload l i (some c) = stop l (runtime_task_failure c "result delivery worker stopped")

  unfoldable pub overload : Loop V → NodeInvocation V → Loop V
  unfolding send_overload
  overload l i = send_overload l i l.worker

  -- `try_acquire_owned` takes a permit or finds none.
  unfoldable pub accept : Loop V → NodeInvocation V → (duplex : Bool) → ℕ → Loop V
  unfolding spawn_handler_task overload
  accept l i duplex zero = overload l i
  accept l i duplex (suc free) = spawn_handler_task l i duplex free

  unfoldable pub on_event :
      {H P : Type 0} → CommandRuntime H P → Loop V → NodeSessionEvent V → Loop V
  unfolding accept
  on_event r l (invocation i) = accept l i (is_duplex r i.command) l.free_permits
  on_event r l (invocation_input invoke_id node_id seq payload_json) =
      let e : NodeSessionEvent V = invocation_input invoke_id node_id seq payload_json in
      record l { active = routed l.active e }
  on_event r l (invocation_cancelled invoke_id node_id) =
      let e : NodeSessionEvent V = invocation_cancelled invoke_id node_id in
      record l { active = routed l.active e }

  -- The permit in the output of a joined task is free, also where its error ends the loop.
  unfoldable pub release : Loop V → Completion V → List (Task V) → Loop V
  unfolding permits_of
  release l c tasks = record l {
    tasks = tasks;
    free_permits = l.free_permits + permits_of (some c);
  }

  unfoldable pub on_joined : Loop V → Option (Completion V × List (Task V)) → Loop V
  unfolding stop release
  on_joined l none = l
  on_joined l (some (delivered, tasks)) = release l delivered tasks
  on_joined l (some (undelivered error, tasks)) =
      stop (release l (undelivered error) tasks) (client error)
  on_joined l (some (died reason, tasks)) =
      stop (release l (died reason) tasks) (result_task reason)

  unfoldable pub take_result :
      List (NodeInvocation V × InvocationResult V) → List (NodeInvocation V × InvocationResult V)
  take_result [] = []
  take_result (result ∷ queue) = queue

  -- The worker ends once, and is joined only then.
  unfoldable pub end_worker : Option (Completion V) → Completion V → Option (Completion V)
  end_worker none c = some c
  end_worker (some first) c = some first

  unfoldable pub join_worker : Loop V → Option (Completion V) → Loop V
  unfolding stop
  join_worker l none = l
  join_worker l (some c) =
      stop l (runtime_task_failure c "result delivery worker stopped unexpectedly")

  unfoldable pub take_elsewhere : Loop V → ℕ → Loop V
  take_elsewhere l zero = l
  take_elsewhere l (suc free) = record l {
    free_permits = free;
    held_elsewhere = l.held_elsewhere + 1;
  }

  unfoldable pub return_elsewhere : Loop V → ℕ → Loop V
  return_elsewhere l zero = l
  return_elsewhere l (suc held) = record l {
    free_permits = l.free_permits + 1;
    held_elsewhere = held;
  }

  -- One turn of a loop that runs.
  unfoldable pub turn : {H P : Type 0} → CommandRuntime H P → Loop V → LoopEvent V → Loop V
  unfolding on_event complete_task on_joined take_result end_worker join_worker take_elsewhere
      return_elsewhere
  turn r l (next_event (ok e)) = on_event r l e
  turn r l (next_event (err error)) = stop l (client error)
  turn r l (completes n c) =
      let (active, tasks, dropped) = complete_task l.active l.tasks n c in
      record l { active = active; tasks = tasks; free_permits = l.free_permits + dropped }
  turn r l (joins n) = on_joined l (join_task l.tasks n)
  turn r l worker_takes = record l { queue = take_result l.queue }
  turn r l (worker_ends c) = record l { queue = []; worker = end_worker l.worker c }
  turn r l joins_worker = join_worker l l.worker
  turn r l taken_elsewhere = take_elsewhere l l.free_permits
  turn r l returned_elsewhere = return_elsewhere l l.held_elsewhere
  turn r l (active_elsewhere op) = record l { active = apply l.active op }

  -- Nothing happens to a loop that has ended.
  unfoldable pub turn_unless :
      {H P : Type 0} → CommandRuntime H P → Loop V → LoopEvent V → Option (RuntimeError V) → Loop V
  unfolding turn
  turn_unless r l e none = turn r l e
  turn_unless r l e (some error) = l

  unfoldable pub loop_step : {H P : Type 0} → CommandRuntime H P → Loop V → LoopEvent V → Loop V
  unfolding turn_unless
  loop_step r l e = turn_unless r l e l.ended

  unfoldable pub run_loop :
      {H P : Type 0} → CommandRuntime H P → Loop V → List (LoopEvent V) → Loop V
  unfolding loop_step
  run_loop r l [] = l
  run_loop r l (e ∷ events) = run_loop r (loop_step r l e) events
