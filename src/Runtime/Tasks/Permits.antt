-- ===== src/Runtime/Tasks/Permits.antt =====
-- The permits and the handles of the handler tasks.
use openclaw_rust_node.Base.{
  ℕ, zero, suc, ◌+◌, ◌≡◌, refl, inl, inr, Option, none, some, List, [], ◌∷◌, ◌++◌, Option-cases,
  arith,
}
use openclaw_rust_node.Runtime.Active.{ActiveInvocations, ActiveInvocation, disarm}
use openclaw_rust_node.Runtime.Active.Cells
use openclaw_rust_node.Runtime.Active.Invariant.{drop-IsValid}
use openclaw_rust_node.Runtime.Tasks.{
  Completion, delivered, undelivered, died, Task, drop_handle, permits_of, held_permits, abort_all,
  complete_handle, dropped_permits, complete_task, join_task,
}

drop_handle-IsValid :
    (w : ActiveInvocations) (h : Option ActiveInvocation)
    → Cells.IsValid w
    → Cells.IsValid (drop_handle w h)
unfolding drop_handle
drop_handle-IsValid w none v = v
drop_handle-IsValid w (some h) v = drop-IsValid w h v

module _ {V : Type 0} where
  pub abort_all-IsValid :
      (w : ActiveInvocations) (tasks : List (Task V))
      → Cells.IsValid w
      → Cells.IsValid (abort_all w tasks)
  unfolding abort_all
  abort_all-IsValid w [] v = v
  abort_all-IsValid w (t ∷ tasks) v =
      abort_all-IsValid (drop_handle w t.handle) tasks (drop_handle-IsValid w t.handle v)

  complete_handle-IsValid :
      (w : ActiveInvocations) (h : Option ActiveInvocation) (c : Completion V)
      → Cells.IsValid w
      → Cells.IsValid (complete_handle w h c)
  unfolding complete_handle
  complete_handle-IsValid w none c v = v
  complete_handle-IsValid w (some h) delivered v = drop-IsValid w (disarm h) v
  complete_handle-IsValid w (some h) (undelivered e) v = drop-IsValid w h v
  complete_handle-IsValid w (some h) (died reason) v = drop-IsValid w h v

  dropped-permits_of : (c : Completion V) → permits_of (some c) + dropped_permits c ≡ 1
  unfolding permits_of dropped_permits
  dropped-permits_of delivered = refl
  dropped-permits_of (undelivered e) = refl
  dropped-permits_of (died reason) = refl

  pub complete_task-IsValid :
      (w : ActiveInvocations) (tasks : List (Task V)) (n : ℕ) (c : Completion V)
      → Cells.IsValid w
      → let (w', tasks', dropped) = complete_task w tasks n c in
        Cells.IsValid w' × (held_permits tasks' + dropped ≡ held_permits tasks)
  unfolding complete_task held_permits permits_of
  complete_task-IsValid w [] n c v = (v, refl)
  complete_task-IsValid w (t ∷ tasks) (suc n) c v =
      let (valid, same) = complete_task-IsValid w tasks n c v in (valid, omega (arith, same))
  complete_task-IsValid w (t ∷ tasks) zero c v = elim (Option-cases t.completion) [
    | inl e ↦ rw e (complete_handle-IsValid w t.handle c v, omega (arith, dropped-permits_of c))
    | inr (d, e) ↦ rw e (v, omega arith)
  ]

  -- What a join finds is one task less, with its permit.
  pub join_task-held_permits :
      (tasks : List (Task V)) (n : ℕ) (c : Completion V) (rest : List (Task V))
      → join_task tasks n ≡ some (c, rest)
      → held_permits tasks ≡ permits_of (some c) + held_permits rest
  unfolding join_task held_permits
  join_task-held_permits [] n c rest h = absurd (ground arith)
  join_task-held_permits (t ∷ tasks) zero c rest h = elim (Option-cases t.completion) [
    | inl e ↦ absurd (ground arith)
    | inr (d, e) ↦ ground arith
  ]
  join_task-held_permits (t ∷ tasks) (suc n) c rest h = elim (Option-cases (join_task tasks n)) [
    | inl e ↦ absurd (ground arith)
    | inr ((d, later), e) ↦ ground (arith, join_task-held_permits tasks n d later e)
  ]

  pub held_permits-snoc :
      (tasks : List (Task V)) (t : Task V)
      → held_permits (tasks ++ (t ∷ [])) ≡ held_permits tasks + permits_of t.completion
  unfolding held_permits
  held_permits-snoc [] t = omega arith
  held_permits-snoc (x ∷ tasks) t = omega (arith, held_permits-snoc tasks t)
