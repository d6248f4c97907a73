-- ===== src/Runtime/Futures.antt =====
-- Futures that the command runtime awaits (runtime.rs). A future is what it comes to and the time that
-- this takes, or never; time passes only while the runtime awaits. `tokio::time::timeout` polls the
-- future before the clock, so a future that is ready at its deadline still counts.
use openclaw_rust_node.Base.{ℕ, Bool, false, leb, if◌then◌else◌, Option, none, some}

-- `catch_unwind` of a call or of a poll.
pub data Outcome (A : Type 0) : Type 0 where
  finishes : A → Outcome A
  panics : Outcome A

pub record Future (A : Type 0) : Type 0 where
  pub takes : Option ℕ
  pub gives : Outcome A

pub data Awaited (A : Type 0) : Type 0 where
  completes : (at : ℕ) → Outcome A → Awaited A
  elapses : (at : ℕ) → Awaited A
  hangs : Awaited A

unfoldable pub await_for : {A : Type 0} → Option ℕ → ℕ → Outcome A → Awaited A
await_for none t o = completes t o
await_for (some d) t o = if leb t d then completes t o else elapses d

unfoldable pub await_never : {A : Type 0} → Option ℕ → Awaited A
await_never none = hangs
await_never (some d) = elapses d

-- Awaits a future, under a timeout if there is one.
unfoldable pub await : {A : Type 0} → Option ℕ → Future A → Awaited A
unfolding await_for await_never
await timeout f = elim f.takes [ none ↦ await_never timeout | some t ↦ await_for timeout t f.gives ]

-- Whether an event that happens at a time, if ever, has happened.
abbrev pub happened : Option ℕ → ℕ → Bool
happened none now = false
happened (some at) now = leb at now
