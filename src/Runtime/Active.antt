-- ===== src/Runtime/Active.antt =====
-- `ActiveInvocations` (runtime.rs): the invocations of a session that are being executed. A token or a
-- buffer behind an `Arc` is a cell, known by its number to all who hold a clone of it; the map and its
-- cells are one state. The code changes the map under its lock, and releases the lock before it cancels
-- a token or reaches a buffer, which has its own; here an operation is one step.
pub mod Cells
pub mod Invariant
pub mod Runs
pub mod Isolation
pub mod Growth
pub mod Cancellation
use openclaw_rust_node.Base.{
  ℕ, ◌+◌, String, Bool, true, false, ◌==◌, Option, none, some, List, [], ◌∷◌, str_eq, if◌then◌else◌,
}
use openclaw_rust_node.Duplex.Input.{
  InputBuffer, InputDisposition, ignored, overflow, accepted, default_pending_input_bytes, push,
  close,
}
use openclaw_rust_node.Duplex.Input
use openclaw_rust_node.Node.{NodeSessionEvent, invocation, invocation_input, invocation_cancelled}
use openclaw_rust_node.Runtime.Build.{get}

pub record ActiveInvocationState : Type 0 where
  pub node_id : String
  pub cancellation : ℕ
  pub input : Option ℕ
  pub input_overflow : ℕ

-- `cancelled` tells which tokens are cancelled; the cells from `fresh` on are not allocated.
pub record ActiveInvocations : Type 0 where
  pub entries : List (String × ActiveInvocationState)
  pub cancelled : ℕ → Bool
  pub buffers : ℕ → InputBuffer
  pub fresh : ℕ

-- The handle of the task that executes the invocation.
pub record ActiveInvocation : Type 0 where
  pub id : String
  pub cancellation : ℕ
  pub input : Option ℕ
  pub input_overflow : ℕ
  pub cancel_on_drop : Bool

unfoldable pub default : ActiveInvocations
unfolding Input.new
default = record {
  entries = [];
  cancelled = λ t. false;
  buffers = λ b. Input.new default_pending_input_bytes;
  fresh = 0;
}

unfoldable pub set {ℓ} : {A : Type ℓ} → (ℕ → A) → ℕ → A → ℕ → A
set f i a j = if j == i then a else f j

-- `CancellationToken::new`: the token and the state with it.
unfoldable pub new_token : ActiveInvocations → ActiveInvocations × ℕ
new_token w = (record w { cancelled = set w.cancelled w.fresh false; fresh = w.fresh + 1 }, w.fresh)

-- `InputBuffer::new` behind an `Arc`, for a command that is duplex.
unfoldable pub new_input : ActiveInvocations → (duplex : Bool) → ActiveInvocations × Option ℕ
new_input w false = (w, none)
new_input w true = (
  record w {
    buffers = set w.buffers w.fresh (Input.new default_pending_input_bytes);
    fresh = w.fresh + 1;
  },
  some w.fresh,
)

unfoldable pub cancel_token : ActiveInvocations → ℕ → ActiveInvocations
cancel_token w t = record w { cancelled = set w.cancelled t true }

unfoldable pub close_input : ActiveInvocations → Option ℕ → ActiveInvocations
close_input w none = w
close_input w (some b) = record w { buffers = set w.buffers b (close (w.buffers b)) }

-- The vacant branch of `track`, the cells at hand.
unfoldable pub enter :
    ActiveInvocations → String → String → ℕ → Option ℕ → ℕ → ActiveInvocations × ActiveInvocation
enter w id node_id cancellation input input_overflow = (
  record w {
    entries =
        (
          id,
          record {
            node_id = node_id;
            cancellation = cancellation;
            input = input;
            input_overflow = input_overflow;
          },
        )
        ∷ w.entries;
  },
  record {
    id = id;
    cancellation = cancellation;
    input = input;
    input_overflow = input_overflow;
    cancel_on_drop = true;
  },
)

unfoldable pub track_vacant :
    ActiveInvocations → String → String → ℕ → Bool → ActiveInvocations × ActiveInvocation
unfolding new_token new_input enter
track_vacant w id node_id cancellation duplex =
    let (w1, input) = new_input w duplex in
    let (w2, input_overflow) = new_token w1 in enter w2 id node_id cancellation input input_overflow

unfoldable pub track_entry :
    ActiveInvocations
    → String
    → String
    → ℕ
    → Bool
    → Option ActiveInvocationState
    → ActiveInvocations × Option ActiveInvocation
track_entry w id node_id cancellation duplex (some state) = (w, none)
track_entry w id node_id cancellation duplex none =
    let (w', handle) = track_vacant w id node_id cancellation duplex in (w', some handle)

unfoldable pub track :
    ActiveInvocations → String → String → ℕ → Bool → ActiveInvocations × Option ActiveInvocation
unfolding track_entry
track w id node_id cancellation duplex =
    track_entry w id node_id cancellation duplex (get w.entries id)

-- A task begins with a token of its own and the tracking of its invocation.
unfoldable pub start :
    ActiveInvocations → String → String → Bool → ActiveInvocations × Option ActiveInvocation
start w id node_id duplex =
    let (w', cancellation) = new_token w in track w' id node_id cancellation duplex

-- `HashMap::remove`: the entries without those of the name.
unfoldable pub remove {ℓ} : {A : Type ℓ} → List (String × A) → String → List (String × A)
remove [] name = []
remove ((n, a) ∷ entries) name =
    let rest = remove entries name in if str_eq name n then rest else (n, a) ∷ rest

unfoldable pub close_removed : ActiveInvocations → Option ActiveInvocationState → ActiveInvocations
unfolding close_input
close_removed w none = w
close_removed w (some state) = close_input w state.input

unfoldable pub untrack : ActiveInvocations → String → ActiveInvocations
unfolding close_removed
untrack w id = close_removed (record w { entries = remove w.entries id }) (get w.entries id)

unfoldable pub cancel_state : ActiveInvocations → ActiveInvocationState → ActiveInvocations
unfolding cancel_token close_input
cancel_state w state = close_input (cancel_token w state.cancellation) state.input

unfoldable pub cancel_found : ActiveInvocations → Option ActiveInvocationState → ActiveInvocations
unfolding cancel_state
cancel_found w none = w
cancel_found w (some state) = cancel_state w state

unfoldable pub cancel : ActiveInvocations → String → ActiveInvocations
unfolding cancel_found
cancel w id = cancel_found w (get w.entries id)

-- `input`, once the invocation's buffer is known and has taken the payload.
unfoldable pub settle_push :
    ActiveInvocations
    → (buffer_cell overflow_token : ℕ) → InputBuffer × InputDisposition
    → ActiveInvocations × InputDisposition
unfolding cancel_token
settle_push w b t (buffer, overflow) =
    (cancel_token (record w { buffers = set w.buffers b buffer }) t, overflow)
settle_push w b t (buffer, ignored) = (record w { buffers = set w.buffers b buffer }, ignored)
settle_push w b t (buffer, accepted) = (record w { buffers = set w.buffers b buffer }, accepted)

unfoldable pub push_input :
    ActiveInvocations
    → Option ℕ
    → (overflow_token seq : ℕ) → String
    → ActiveInvocations × InputDisposition
unfolding settle_push
push_input w none t seq payload = (w, ignored)
push_input w (some b) t seq payload = settle_push w b t (push (w.buffers b) seq payload)

unfoldable pub input_found :
    ActiveInvocations
    → Option ActiveInvocationState
    → String
    → ℕ
    → String
    → ActiveInvocations × InputDisposition
unfolding push_input
input_found w none node_id seq payload = (w, ignored)
input_found w (some state) node_id seq payload =
    if str_eq state.node_id node_id
    then push_input w state.input state.input_overflow seq payload
    else (w, ignored)

unfoldable pub input :
    ActiveInvocations → String → String → ℕ → String → ActiveInvocations × InputDisposition
unfolding input_found
input w id node_id seq payload = input_found w (get w.entries id) node_id seq payload

unfoldable pub cancel_states :
    ActiveInvocations → List (String × ActiveInvocationState) → ActiveInvocations
unfolding cancel_state
cancel_states w [] = w
cancel_states w ((id, state) ∷ rest) = cancel_states (cancel_state w state) rest

unfoldable pub cancel_all : ActiveInvocations → ActiveInvocations
unfolding cancel_states
cancel_all w = cancel_states (record w { entries = [] }) w.entries

-- The handle: `disarm`, and what dropping it does.
unfoldable pub disarm : ActiveInvocation → ActiveInvocation
disarm handle = record handle { cancel_on_drop = false }

unfoldable pub drop : ActiveInvocations → ActiveInvocation → ActiveInvocations
unfolding cancel_token untrack
drop w handle =
    untrack (if handle.cancel_on_drop then cancel_token w handle.cancellation else w) handle.id

unfoldable pub cancel_overflowed : String → ActiveInvocations × InputDisposition → ActiveInvocations
cancel_overflowed id (w, overflow) = cancel w id
cancel_overflowed id (w, ignored) = w
cancel_overflowed id (w, accepted) = w

-- Invocations are dispatched elsewhere: for one the source is unreachable.
unfoldable pub route_invocation_control :
    {V : Type 0} → ActiveInvocations → NodeSessionEvent V → Option ActiveInvocations
unfolding cancel_overflowed
route_invocation_control w (invocation_input invoke_id node_id seq payload_json) =
    some (cancel_overflowed invoke_id (input w invoke_id node_id seq payload_json))
route_invocation_control w (invocation_cancelled invoke_id node_id) = some (cancel w invoke_id)
route_invocation_control w (invocation i) = none
