-- ===== src/Duplex/Input/Bounds.antt =====
-- The bytes that an input buffer holds.
use Prim.Native.String.{len}
use openclaw_rust_node.Base.{
  ℕ, ◌+◌, ◌≤◌, String, true, false, ◌≡◌, refl, ◌↔◌, List, [], ◌∷◌, ◌++◌, u64_max, arith,
}
use openclaw_rust_node.Duplex.Input.{InputBuffer, accepted, new, close, push, take_next, recv}

unfoldable pub total_bytes : List String → ℕ
total_bytes [] = 0
total_bytes (s ∷ r) = len s + total_bytes r

pub total_bytes-append :
    (xs ys : List String) → total_bytes (xs ++ ys) ≡ total_bytes xs + total_bytes ys
unfolding total_bytes
total_bytes-append [] ys = omega arith
total_bytes-append (x ∷ xs) ys = omega (arith, total_bytes-append xs ys)

-- The counter is the size of the queue, and within the maximum; a closed buffer holds nothing.
pub record IsValid (b : InputBuffer) : Type 0 where
  pub counted : b.buffered_bytes ≡ total_bytes b.queue
  pub bounded : b.buffered_bytes ≤ b.maximum_bytes
  pub emptied : b.closed ≡ true → b.queue ≡ []

pub new-IsValid : (maximum : ℕ) → IsValid (new maximum)
unfolding new total_bytes
new-IsValid m = ground arith

pub close-IsValid : (b : InputBuffer) → IsValid (close b)
unfolding close total_bytes
close-IsValid b = ground arith

-- Every push keeps a valid buffer valid and its maximum, also one that overflows.
pub push-IsValid :
    (b : InputBuffer) (seq : ℕ) (payload : String)
    → IsValid b
    → IsValid (push b seq payload).0 × ((push b seq payload).0.maximum_bytes ≡ b.maximum_bytes)
unfolding push total_bytes
push-IsValid b seq payload v = ground (arith, total_bytes-append b.queue (payload ∷ []))

recv_lem :
    (b : InputBuffer) (q : List String)
    → b.queue ≡ q
    → IsValid b
    → IsValid (take_next b q).0 × ((take_next b q).0.maximum_bytes ≡ b.maximum_bytes)
unfolding take_next total_bytes
recv_lem b [] e v = ground arith
recv_lem b (x ∷ q) e v = ground arith

-- Every receive keeps a valid buffer valid and its maximum.
pub recv-IsValid :
    (b : InputBuffer)
    → IsValid b
    → IsValid (recv b).0 × ((recv b).0.maximum_bytes ≡ b.maximum_bytes)
unfolding recv
recv-IsValid b v = recv_lem b b.queue refl v

-- A push is accepted exactly if the buffer is open, the number is not one that is used up, and the
-- payload fits, for a maximum that a 64-bit size holds.
pub push-accepted_iff :
    (b : InputBuffer) (seq : ℕ) (payload : String)
    → b.maximum_bytes ≤ u64_max
    → ((push b seq payload).1 ≡ accepted) ↔ (
        (b.closed ≡ false)
        × (b.next_seq ≤ seq)
        × (b.buffered_bytes + len payload ≤ b.maximum_bytes))
unfolding push
push-accepted_iff b seq payload m = (λ h. ground arith, λ h. ground arith)
