-- ===== src/Tests/DuplexTests.antt =====
-- The duplex input and the progress chunks at concrete texts.
use Prim.Native.String.{len}
use openclaw_rust_node.Base.{
  ◌+◌, ◌≤◌, String, false, ◌≡◌, refl, ◌⊎◌, ◌↔◌, some, List, [], ◌∷◌, ◌++◌, All, u64_max, arith,
}
use openclaw_rust_node.Duplex.Input.{InputBuffer, accepted, overflow, new, push}
use openclaw_rust_node.Duplex.Input.Bounds.{push-accepted_iff}
use openclaw_rust_node.Duplex.Input.Order.{
  Op, pushes, receives, run, payloads, IsDrained, Ascending, run_fifo, run-Ascending,
  push_largest_twice,
}
use openclaw_rust_node.Duplex.Progress.{chunks}
use openclaw_rust_node.Duplex.Progress.Chunks.{concat, IsChunk, chunks_total}

abbrev small : InputBuffer
small = new 8

abbrev session : List Op
session = pushes 0 "one" ∷ pushes 0 "old" ∷ receives ∷ pushes 2 "two" ∷ receives ∷ []

too_large : (push small 3 "too-large").1 ≡ overflow
unfolding push new
too_large = refl

push-accepted_iff_example : ((push small 0 "one").1 ≡ accepted) ↔ (
    (small.closed ≡ false)
    × (small.next_seq ≤ 0)
    × (small.buffered_bytes + len "one" ≤ small.maximum_bytes))
unfolding new
push-accepted_iff_example = push-accepted_iff small 0 "one" (omega arith)

run_fifo_example :
    (rest : List String) × (small.queue ++ payloads (run small session).1
      ≡ (run small session).2 ++ rest)
    × ((rest ≡ (run small session).0.queue) ⊎ IsDrained (run small session).0)
run_fifo_example = run_fifo small session

run-Ascending_example : Ascending 0 (run small session).1
unfolding new
run-Ascending_example = run-Ascending small session (omega arith)

push_largest_twice_example : (push small u64_max "one").1 ≡ accepted
unfolding new
push_largest_twice_example =
    (push_largest_twice small "one" "two" refl (omega arith) (omega arith) (omega arith)).0

chunks_total_example :
    (cs : List String) × (chunks 5 "hello" ≡ some cs) × (concat cs ≡ "hello") × All IsChunk cs
chunks_total_example = chunks_total 5 "hello" (omega arith)
