-- ===== src/Tests/LoopTests.antt =====
-- The runtime's loop with one permit: an invocation takes it, a second is told of the overload, and
-- then the session is lost. In another run a task dies, and the next takes its permit.
use openclaw_rust_node.Base.{◌≡◌, refl, none, some, List, [], ◌∷◌, length}
use openclaw_rust_node.Base.Results.{ok, err}
use openclaw_rust_node.Json.Plain.{Plain}
use openclaw_rust_node.Client.{closed}
use openclaw_rust_node.Node.{invocation}
use openclaw_rust_node.Runtime.Tasks.{died, complete_task, complete_handle, dropped_permits}
use openclaw_rust_node.Runtime.Loop.{
  Loop, LoopEvent, next_event, completes, taken_elsewhere, take_elsewhere, begin, client, stop,
  overload_result, turn, turn_unless, loop_step, run_loop, accept, spawn_handler_task, on_event,
  overload, send_overload,
}
use openclaw_rust_node.Runtime.Loop.Bounds.{IsValid, run_loop-IsValid}
use openclaw_rust_node.Runtime.Loop.Ending.{AreStopped, loop_ends_stopped}
use openclaw_rust_node.Tests.RuntimeTests.{runtime, request}

abbrev before : List (LoopEvent Plain)
before = next_event (ok (invocation request)) ∷ next_event (ok (invocation request)) ∷ []

abbrev loop : Loop Plain
loop = run_loop runtime (begin 1 0 1) before

abbrev lost : LoopEvent Plain
lost = next_event (err (closed "reset"))

one_task_one_overload : loop.queue ≡ overload_result request ∷ []
unfolding run_loop loop_step turn_unless turn on_event accept spawn_handler_task overload
    send_overload begin
one_task_one_overload = refl

loop_runs : loop.ended ≡ none
unfolding run_loop loop_step turn_unless turn on_event accept spawn_handler_task overload
    send_overload begin
loop_runs = refl

loop_is_lost : (loop_step runtime loop lost).ended ≡ some (client (closed "reset"))
unfolding run_loop loop_step turn_unless turn on_event accept spawn_handler_task overload
    send_overload begin stop
loop_is_lost = refl

-- A task that dies frees its permit before it is joined, so that another is spawned beside it.
abbrev crash : List (LoopEvent Plain)
crash =
    next_event (ok (invocation request))
    ∷ completes 0 (died "panic")
    ∷ next_event (ok (invocation request))
    ∷ taken_elsewhere
    ∷ []

two_tasks_one_permit : length (run_loop runtime (begin 1 1 1) crash).tasks ≡ 2
unfolding run_loop loop_step turn_unless turn on_event accept spawn_handler_task complete_task
    dropped_permits complete_handle take_elsewhere overload send_overload begin
two_tasks_one_permit = refl

run_loop-IsValid_example : IsValid 2 1 (run_loop runtime (begin 1 1 1) crash)
run_loop-IsValid_example = run_loop-IsValid runtime 1 1 1 crash

loop_ends_stopped_example : AreStopped loop (loop_step runtime loop lost)
loop_ends_stopped_example =
    loop_ends_stopped runtime loop lost (client (closed "reset"))
      (run_loop-IsValid runtime 1 0 1 before).active loop_runs loop_is_lost
