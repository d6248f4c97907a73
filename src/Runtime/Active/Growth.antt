-- ===== src/Runtime/Active/Growth.antt =====
-- No operation undoes a cancellation or reopens an input buffer.
use openclaw_rust_node.Base.{
  ℕ, ◌<◌, ◌≤◌, String, Bool, true, false, ◌==◌, ◌≡◌, refl, sym, inl, inr, Option, none, some, [],
  ◌∷◌, str_eq, Bool-cases, arith,
}
use openclaw_rust_node.Duplex.Input.{
  InputBuffer, InputDisposition, accepted, ignored, overflow, push, recv, close, take_next,
}
use openclaw_rust_node.Node.{NodeSessionEvent, invocation, invocation_input, invocation_cancelled}
use openclaw_rust_node.Runtime.Build.{get}
use openclaw_rust_node.Runtime.Active.{
  ActiveInvocationState, ActiveInvocations, ActiveInvocation, set, new_token, new_input,
  cancel_token, close_input, enter, track_vacant, track_entry, track, start, remove, close_removed,
  untrack, cancel_state, cancel_found, cancel, settle_push, push_input, input_found, input,
  cancel_states, drop, cancel_overflowed, route_invocation_control,
}
use openclaw_rust_node.Runtime.Active.Cells.{Entries}
use openclaw_rust_node.Runtime.Active.Runs.{routed}

-- More may be allocated, cancelled and closed, and nothing is undone.
pub record Grows (w w' : ActiveInvocations) : Type 0 where
  pub fresh : w.fresh ≤ w'.fresh
  pub cancelled : (t : ℕ) → t < w.fresh → w.cancelled t ≡ true → w'.cancelled t ≡ true
  pub closed : (b : ℕ) → b < w.fresh → (w.buffers b).closed ≡ true → (w'.buffers b).closed ≡ true

pub Grows-self : (w : ActiveInvocations) → Grows w w
Grows-self w = record { fresh = omega arith; cancelled = λ t l h. h; closed = λ b l h. h }

pub Grows-then : {w u t : ActiveInvocations} → Grows w u → Grows u t → Grows w t
Grows-then a b = record {
  fresh = omega (arith, a.fresh, b.fresh);
  cancelled = λ t l h. b.cancelled t (omega (arith, l, a.fresh)) (a.cancelled t l h);
  closed = λ i l h. b.closed i (omega (arith, l, a.fresh)) (a.closed i l h);
}

pub cancel_token-Grows : (w : ActiveInvocations) (t : ℕ) → Grows w (cancel_token w t)
unfolding cancel_token set
cancel_token-Grows w t = record {
  fresh = omega arith;
  cancelled = λ j l h. ground arith;
  closed = λ b l h. h;
}

pub set-Grows :
    (w : ActiveInvocations) (b : ℕ) (buffer : InputBuffer)
    → ((w.buffers b).closed ≡ true → buffer.closed ≡ true)
    → Grows w (record w { buffers = set w.buffers b buffer })
unfolding set
set-Grows w b buffer c = record {
  fresh = omega arith;
  cancelled = λ j l h. h;
  closed = λ j l h. elim (Bool-cases (j == b)) [
    | inl e ↦ let q : j ≡ b = ground arith in rw e (c (rw (sym q) h))
    | inr e ↦ rw e h
  ];
}

pub close_input-Grows : (w : ActiveInvocations) (i : Option ℕ) → Grows w (close_input w i)
unfolding close_input close
close_input-Grows w none = Grows-self w
close_input-Grows w (some b) = set-Grows w b _ (λ h. refl)

pub cancel_state-Grows :
    (w : ActiveInvocations) (s : ActiveInvocationState) → Grows w (cancel_state w s)
unfolding cancel_state
cancel_state-Grows w s =
    Grows-then (cancel_token-Grows w s.cancellation) (close_input-Grows _ s.input)

cancel_found-Grows :
    (w : ActiveInvocations) (s : Option ActiveInvocationState) → Grows w (cancel_found w s)
unfolding cancel_found
cancel_found-Grows w none = Grows-self w
cancel_found-Grows w (some s) = cancel_state-Grows w s

push_stays_closed :
    (b : InputBuffer) (seq : ℕ) (payload : String)
    → b.closed ≡ true
    → (push b seq payload).0.closed ≡ true
unfolding push
push_stays_closed b seq payload h = ground arith

pub recv_stays_closed : (b : InputBuffer) → b.closed ≡ true → (recv b).0.closed ≡ true
unfolding recv take_next
recv_stays_closed b h = ground arith

settle_push-Grows :
    (w : ActiveInvocations) (b t : ℕ) (r : InputBuffer × InputDisposition)
    → ((w.buffers b).closed ≡ true → r.0.closed ≡ true)
    → Grows w (settle_push w b t r).0
unfolding settle_push
settle_push-Grows w b t (buffer, overflow) c =
    Grows-then (set-Grows w b buffer c) (cancel_token-Grows _ t)
settle_push-Grows w b t (buffer, ignored) c = set-Grows w b buffer c
settle_push-Grows w b t (buffer, accepted) c = set-Grows w b buffer c

push_input-Grows :
    (w : ActiveInvocations) (i : Option ℕ) (t seq : ℕ) (payload : String)
    → Grows w (push_input w i t seq payload).0
unfolding push_input
push_input-Grows w none t seq payload = Grows-self w
push_input-Grows w (some b) t seq payload =
    settle_push-Grows w b t _ (push_stays_closed (w.buffers b) seq payload)

input_found-Grows :
    (w : ActiveInvocations) (s : Option ActiveInvocationState) (node_id : String) (seq : ℕ)
    (payload : String)
    → Grows w (input_found w s node_id seq payload).0
unfolding input_found
input_found-Grows w none node_id seq payload = Grows-self w
input_found-Grows w (some s) node_id seq payload = elim (Bool-cases (str_eq s.node_id node_id)) [
  | inl e ↦ rw e (push_input-Grows w s.input s.input_overflow seq payload)
  | inr e ↦ rw e (Grows-self w)
]

cancel_overflowed-Grows :
    (w : ActiveInvocations) (id : String) (r : ActiveInvocations × InputDisposition)
    → Grows w r.0
    → Grows w (cancel_overflowed id r)
unfolding cancel_overflowed cancel
cancel_overflowed-Grows w id (u, overflow) g =
    Grows-then g (cancel_found-Grows u (get u.entries id))
cancel_overflowed-Grows w id (u, ignored) g = g
cancel_overflowed-Grows w id (u, accepted) g = g

pub routed-Grows :
    {V : Type 0} (w : ActiveInvocations) (e : NodeSessionEvent V) → Grows w (routed w e)
unfolding routed route_invocation_control input cancel
routed-Grows w (invocation i) = Grows-self w
routed-Grows w (invocation_input id node_id seq payload) =
    cancel_overflowed-Grows w id _ (input_found-Grows w (get w.entries id) node_id seq payload)
routed-Grows w (invocation_cancelled id node_id) = cancel_found-Grows w (get w.entries id)

new_token-Grows : (w : ActiveInvocations) → Grows w (new_token w).0
unfolding new_token set
new_token-Grows w = record {
  fresh = omega arith;
  cancelled = λ t l h. ground arith;
  closed = λ b l h. h;
}

new_input-Grows : (w : ActiveInvocations) (duplex : Bool) → Grows w (new_input w duplex).0
unfolding new_input set
new_input-Grows w false = Grows-self w
new_input-Grows w true = record {
  fresh = omega arith;
  cancelled = λ t l h. h;
  closed =
      λ b l h. elim (Bool-cases (b == w.fresh)) [ inl e ↦ absurd (ground arith) | inr e ↦ rw e h ];
}

track_entry-Grows :
    (w : ActiveInvocations) (id node_id : String) (t : ℕ) (duplex : Bool)
    (s : Option ActiveInvocationState)
    → Grows w (track_entry w id node_id t duplex s).0
unfolding track_entry track_vacant enter
track_entry-Grows w id node_id t duplex (some s) = Grows-self w
track_entry-Grows w id node_id t duplex none =
    Grows-then (new_input-Grows w duplex) (relabel _ (new_token-Grows (new_input w duplex).0))
  where
    relabel :
        (entries : Entries) {u : ActiveInvocations}
        → Grows (new_input w duplex).0 u
        → Grows (new_input w duplex).0 (record u { entries = entries })
    relabel entries g = record { fresh = g.fresh; cancelled = g.cancelled; closed = g.closed }

pub start-Grows :
    (w : ActiveInvocations) (id node_id : String) (duplex : Bool)
    → Grows w (start w id node_id duplex).0
unfolding start track
start-Grows w id node_id duplex =
    Grows-then (new_token-Grows w) (track_entry-Grows _ id node_id _ duplex _)

untrack-Grows : (w : ActiveInvocations) (id : String) → Grows w (untrack w id)
unfolding untrack
untrack-Grows w id = closes (get w.entries id)
  where
    removed : ActiveInvocations
    removed = record w { entries = remove w.entries id }

    removed-Grows : Grows w removed
    removed-Grows = record { fresh = omega arith; cancelled = λ t l h. h; closed = λ b l h. h }

    closes : (s : Option ActiveInvocationState) → Grows w (close_removed removed s)
    closes none = removed-Grows
    closes (some s) = Grows-then removed-Grows (close_input-Grows removed s.input)

pub drop-Grows : (w : ActiveInvocations) (h : ActiveInvocation) → Grows w (drop w h)
unfolding drop
drop-Grows w h = elim (Bool-cases h.cancel_on_drop) [
  | inl e ↦ rw e (Grows-then (cancel_token-Grows w h.cancellation) (untrack-Grows _ h.id))
  | inr e ↦ rw e (untrack-Grows w h.id)
]

pub cancel_states-Grows :
    (w : ActiveInvocations) (entries : Entries) → Grows w (cancel_states w entries)
unfolding cancel_states
cancel_states-Grows w [] = Grows-self w
cancel_states-Grows w ((id, s) ∷ rest) =
    Grows-then (cancel_state-Grows w s) (cancel_states-Grows (cancel_state w s) rest)
