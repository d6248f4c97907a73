-- ===== src/Runtime/Tasks.antt =====
-- The handler tasks of `CommandRuntime::run` (runtime.rs), a `JoinSet`: each has a handle and a permit.
pub mod Permits
use openclaw_rust_node.Base.{ℕ, zero, suc, ◌+◌, String, Option, none, some, List, [], ◌∷◌}
use openclaw_rust_node.Client.{ClientError}
use openclaw_rust_node.Runtime.Active.{ActiveInvocations, ActiveInvocation, disarm, drop}

-- How the completion of a task's invocation ends: delivered, refused, or the task is aborted by a panic.
pub data Completion (V : Type 0) : Type 0 where
  delivered : Completion V
  undelivered : ClientError V → Completion V
  died : String → Completion V

-- A handler task, with its handle until it has completed, if its invocation is tracked. Its permit is
-- part of its output, which the join drops; a task that dies drops it on unwinding, before the join.
pub record Task (V : Type 0) : Type 0 where
  pub handle : Option ActiveInvocation
  pub completion : Option (Completion V)

unfoldable pub drop_handle : ActiveInvocations → Option ActiveInvocation → ActiveInvocations
drop_handle w none = w
drop_handle w (some handle) = drop w handle

module _ {V : Type 0} where
  -- The permits that a task with this end holds.
  unfoldable pub permits_of : Option (Completion V) → ℕ
  permits_of none = 1
  permits_of (some delivered) = 1
  permits_of (some (undelivered error)) = 1
  permits_of (some (died reason)) = 0

  unfoldable pub held_permits : List (Task V) → ℕ
  unfolding permits_of
  held_permits [] = 0
  held_permits (t ∷ tasks) = permits_of t.completion + held_permits tasks

  -- `abort_all`, until every task has been joined: each drops its handle.
  unfoldable pub abort_all : ActiveInvocations → List (Task V) → ActiveInvocations
  unfolding drop_handle
  abort_all w [] = w
  abort_all w (t ∷ tasks) = abort_all (drop_handle w t.handle) tasks

  -- A delivered result disarms the handle before it is dropped.
  unfoldable pub complete_handle :
      ActiveInvocations → Option ActiveInvocation → Completion V → ActiveInvocations
  unfolding disarm
  complete_handle w none c = w
  complete_handle w (some handle) delivered = drop w (disarm handle)
  complete_handle w (some handle) (undelivered error) = drop w handle
  complete_handle w (some handle) (died reason) = drop w handle

  -- The permit that a task which ends so drops by itself.
  unfoldable pub dropped_permits : Completion V → ℕ
  dropped_permits delivered = 0
  dropped_permits (undelivered error) = 0
  dropped_permits (died reason) = 1

  -- The task at a place completes, unless there is none or it has completed before. Its permit is
  -- counted if it has been dropped.
  unfoldable pub complete_task :
      ActiveInvocations → List (Task V) → ℕ → Completion V → ActiveInvocations × List (Task V) × ℕ
  unfolding complete_handle dropped_permits
  complete_task w [] n c = (w, [], 0)
  complete_task w (t ∷ tasks) (suc n) c =
      let (w', tasks', dropped) = complete_task w tasks n c in (w', t ∷ tasks', dropped)
  complete_task w (t ∷ tasks) zero c = elim t.completion [
    | some done ↦ (w, t ∷ tasks, 0)
    | none ↦ (
      complete_handle w t.handle c,
      record { handle = none; completion = some c } ∷ tasks,
      dropped_permits c,
    )
  ]

  -- The task at a place is joined if it has completed: its end and the others.
  unfoldable pub join_task : List (Task V) → ℕ → Option (Completion V × List (Task V))
  join_task [] n = none
  join_task (t ∷ tasks) zero = elim t.completion [ none ↦ none | some c ↦ some (c, tasks) ]
  join_task (t ∷ tasks) (suc n) = elim (join_task tasks n) [
    | none ↦ none
    | some (c, rest) ↦ some (c, t ∷ rest)
  ]
