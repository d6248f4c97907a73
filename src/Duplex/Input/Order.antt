-- ===== src/Duplex/Input/Order.antt =====
-- The order in which an input buffer hands payloads over, for every sequence of operations by its
-- two ends.
use mathlib.Core.List.{append-nil, append_assoc}
use Prim.Native.String.{len}
use openclaw_rust_node.Base.{
  ℕ, ◌+◌, ◌≤◌, ◌<◌, String, true, false, ◌≡◌, refl, sym, ap, ◌∙◌, ◌⊎◌, inl, inr, List, [], ◌∷◌,
  ◌++◌, All, u64_max, arith,
}
use openclaw_rust_node.Duplex.Input.{
  InputBuffer, InputDisposition, accepted, ignored, overflow, close, push, Poll, ready, ended,
  pending, take_next, recv,
}

pub data Op : Type 0 where
  pushes : ℕ → String → Op
  receives closes : Op

abbrev accepted_one : InputDisposition → ℕ → String → List (ℕ × String)
accepted_one accepted seq payload = (seq, payload) ∷ []
accepted_one ignored seq payload = []
accepted_one overflow seq payload = []

abbrev received_one : Poll → List String
received_one (ready s) = s ∷ []
received_one ended = []
received_one pending = []

-- The buffer after an operation, what it accepted and what it handed over.
unfoldable pub step : InputBuffer → Op → InputBuffer × List (ℕ × String) × List String
step b (pushes seq payload) = let r = push b seq payload in (r.0, accepted_one r.1 seq payload, [])
step b receives = let r = recv b in (r.0, [], received_one r.1)
step b closes = (close b, [], [])

unfoldable pub run : InputBuffer → List Op → InputBuffer × List (ℕ × String) × List String
unfolding step
run b [] = (b, [], [])
run b (op ∷ ops) = let s = step b op in let r = run s.0 ops in (r.0, s.1 ++ r.1, s.2 ++ r.2)

abbrev pub payloads : List (ℕ × String) → List String
payloads [] = []
payloads ((seq, s) ∷ r) = s ∷ payloads r

payloads-append : (xs ys : List (ℕ × String)) → payloads (xs ++ ys) ≡ payloads xs ++ payloads ys
payloads-append [] ys = refl
payloads-append ((seq, s) ∷ xs) ys = ap (◌∷◌ s) (payloads-append xs ys)

-- A closed buffer is empty.
abbrev pub IsDrained : InputBuffer → Type 0
IsDrained b = (b.closed ≡ true) × (b.queue ≡ [])

-- An operation keeps the order, or closes the buffer and hands nothing over.
step_order :
    (b : InputBuffer) (op : Op)
    → (b.queue ++ payloads (step b op).1 ≡ (step b op).2 ++ (step b op).0.queue)
      ⊎ (IsDrained (step b op).0 × ((step b op).1 ≡ []) × ((step b op).2 ≡ []))
unfolding step push recv take_next
step_order b (pushes seq payload) = ground (arith, append-nil b.queue)
step_order b receives = ground (arith, append-nil b.queue)
step_order b closes = ground arith

step-IsDrained :
    (b : InputBuffer) (op : Op)
    → IsDrained b
    → IsDrained (step b op).0 × ((step b op).1 ≡ []) × ((step b op).2 ≡ [])
unfolding step push recv take_next
step-IsDrained b (pushes seq payload) d = ground arith
step-IsDrained b receives d = ground arith
step-IsDrained b closes d = ground arith

run-IsDrained :
    (b : InputBuffer) (ops : List Op)
    → IsDrained b
    → IsDrained (run b ops).0 × ((run b ops).1 ≡ []) × ((run b ops).2 ≡ [])
unfolding run
run-IsDrained b [] d = ground arith
run-IsDrained b (op ∷ ops) d =
    ground (arith, step-IsDrained b op d, run-IsDrained (step b op).0 ops)

regroup {ℓ} :
    {A : Type ℓ} (q p1 p2 r1 q1 r2 rest : List A)
    → q ++ p1 ≡ r1 ++ q1
    → q1 ++ p2 ≡ r2 ++ rest
    → q ++ (p1 ++ p2) ≡ (r1 ++ r2) ++ rest
regroup q p1 p2 r1 q1 r2 rest e f =
    sym (append_assoc q p1 p2)
    ∙ ap (λ l. l ++ p2) e
    ∙ append_assoc r1 q1 p2
    ∙ ap (◌++◌ r1) f
    ∙ sym (append_assoc r1 r2 rest)

-- What is handed over is a beginning of what was queued and accepted, in that order. What is missing
-- is the queue at the end, or, if the buffer was closed meanwhile, what was dropped.
pub run_fifo :
    (b : InputBuffer) (ops : List Op)
    → (rest : List String) × (b.queue ++ payloads (run b ops).1 ≡ (run b ops).2 ++ rest)
      × ((rest ≡ (run b ops).0.queue) ⊎ IsDrained (run b ops).0)
unfolding run
run_fifo b [] = (b.queue, append-nil b.queue, inl refl)
run_fifo b (op ∷ ops) = elim (step_order b op) [
  | inl e ↦
      let ih = run_fifo (step b op).0 ops in
      (
        ih.0,
        ap (◌++◌ b.queue) (payloads-append (step b op).1 (run (step b op).0 ops).1)
            ∙ regroup b.queue _ _ _ (step b op).0.queue _ _ e ih.1,
        ih.2,
      )
  | inr (d, e, e') ↦
      let later = run-IsDrained (step b op).0 ops d in
      (b.queue, rw (e, e', later.1, later.2) (append-nil b.queue), inr later.0)
]

-- Sequence numbers of at least `n` that grow along the list.
abbrev pub Ascending : ℕ → List (ℕ × String) → Type 0
Ascending n [] = Unit
Ascending n ((seq, s) ∷ r) = (n ≤ seq) × Ascending (seq + 1) r

Ascending-mono : (m n : ℕ) (l : List (ℕ × String)) → m ≤ n → Ascending n l → Ascending m l
Ascending-mono m n [] h a = tt
Ascending-mono m n ((seq, s) ∷ r) h a = (omega arith, a.1)

abbrev pub BelowMax : Op → Type 0
BelowMax (pushes seq payload) = seq < u64_max
BelowMax receives = Unit
BelowMax closes = Unit

push_seq :
    (b : InputBuffer) (seq : ℕ) (payload : String)
    → seq < u64_max
    → let q = push b seq payload in
      ((accepted_one q.1 seq payload ≡ (seq, payload) ∷ [])
        × (q.0.next_seq ≡ seq + 1)
        × (b.next_seq ≤ seq))
      ⊎ ((accepted_one q.1 seq payload ≡ []) × (b.next_seq ≤ q.0.next_seq))
unfolding push
push_seq b seq payload h = ground arith

recv_seq : (b : InputBuffer) → (recv b).0.next_seq ≡ b.next_seq
unfolding recv take_next
recv_seq b = ground arith

step_seq :
    (b : InputBuffer) (op : Op) (l : List (ℕ × String))
    → BelowMax op
    → Ascending (step b op).0.next_seq l
    → Ascending b.next_seq ((step b op).1 ++ l)
unfolding step close
step_seq b (pushes seq payload) l h a = elim (push_seq b seq payload h) [
  | inl (e, n, le) ↦ rw e (le, Ascending-mono (seq + 1) _ l (omega arith) a)
  | inr (e, le) ↦ rw e (Ascending-mono b.next_seq _ l le a)
]
step_seq b receives l h a = Ascending-mono b.next_seq _ l (omega (arith, recv_seq b)) a
step_seq b closes l h a = a

-- The accepted numbers grow strictly, and none is below the next number that was expected, so a
-- payload that is sent twice is accepted once. (The largest number of all saturates the counter,
-- and is left out.)
pub run-Ascending :
    (b : InputBuffer) (ops : List Op) → All BelowMax ops → Ascending b.next_seq (run b ops).1
unfolding run
run-Ascending b [] h = tt
run-Ascending b (op ∷ ops) h =
    step_seq b op (run (step b op).0 ops).1 h.0 (run-Ascending (step b op).0 ops h.1)

-- An open buffer with room for two payloads accepts both under the largest number of all.
pub push_largest_twice :
    (b : InputBuffer) (s t : String)
    → b.closed ≡ false
    → b.next_seq ≤ u64_max
    → b.buffered_bytes + len s + len t ≤ b.maximum_bytes
    → b.maximum_bytes ≤ u64_max
    → ((push b u64_max s).1 ≡ accepted) × ((push (push b u64_max s).0 u64_max t).1 ≡ accepted)
unfolding push
push_largest_twice b s t c n h m = ground arith
