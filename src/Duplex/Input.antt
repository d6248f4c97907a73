-- ===== src/Duplex/Input.antt =====
-- `InputBuffer` and its receiver (duplex.rs). Each operation runs under the buffer's lock, so it is
-- one step. A sequence number and a size are numbers below 2 ^ 64.
pub mod Bounds
pub mod Order
use Prim.Native.String.{len}
use openclaw_rust_node.Base.{
  ℕ, ◌+◌, ◌-◌, ◌*◌, String, Bool, true, false, ◌||◌, ltb, if◌then◌else◌, Option, none, some, List,
  [], ◌∷◌, ◌++◌, checked_add, saturating_add,
}

pub record InputBuffer : Type 0 where
  pub next_seq : ℕ
  pub queue : List String
  pub buffered_bytes : ℕ
  pub closed : Bool
  pub maximum_bytes : ℕ

pub data InputDisposition : Type 0 where
  accepted ignored overflow : InputDisposition

abbrev pub default_pending_input_bytes : ℕ
default_pending_input_bytes = 64 * 1024

unfoldable pub new : ℕ → InputBuffer
new maximum_bytes = record {
  next_seq = 0;
  queue = [];
  buffered_bytes = 0;
  closed = false;
  maximum_bytes = maximum_bytes;
}

unfoldable pub close : InputBuffer → InputBuffer
close b = record b { closed = true; queue = []; buffered_bytes = 0 }

-- The end of `push`, the sum of the sizes at hand.
unfoldable pub enqueue : InputBuffer → String → Option ℕ → InputBuffer × InputDisposition
unfolding close
enqueue b payload none = (close b, overflow)
enqueue b payload (some buffered_bytes) =
    if ltb b.maximum_bytes buffered_bytes
    then (close b, overflow)
    else (record b { buffered_bytes = buffered_bytes; queue = b.queue ++ (payload ∷ []) }, accepted)

unfoldable pub push : InputBuffer → ℕ → String → InputBuffer × InputDisposition
unfolding enqueue
push b seq payload =
    if b.closed || ltb seq b.next_seq
    then (b, ignored)
    else enqueue (record b { next_seq = saturating_add seq 1 }) payload
        (checked_add b.buffered_bytes (len payload))

-- One round of the loop in `recv`: a payload, the end, or a wait for the next notification.
pub data Poll : Type 0 where
  ready : String → Poll
  ended pending : Poll

unfoldable pub take_next : InputBuffer → List String → InputBuffer × Poll
take_next b (payload ∷ rest) =
    (record b { queue = rest; buffered_bytes = b.buffered_bytes - len payload }, ready payload)
take_next b [] = (b, if b.closed then ended else pending)

unfoldable pub recv : InputBuffer → InputBuffer × Poll
unfolding take_next
recv b = take_next b b.queue
