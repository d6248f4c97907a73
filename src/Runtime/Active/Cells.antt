-- ===== src/Runtime/Active/Cells.antt =====
-- The invariant of the active invocations: no identifier is active twice, no two invocations share a
-- token or a buffer, and every buffer is within its bounds.
use openclaw_rust_node.Base.{
  ℕ, ◌<◌, String, Bool, true, false, not, ◌==◌, ◌≡◌, refl, inl, inr, Option, none, some, List, [],
  ◌∷◌, All, str_eq, Bool-cases, Option-cases, arith,
}
use openclaw_rust_node.Duplex.Input.{
  InputBuffer, InputDisposition, accepted, ignored, overflow, push, close,
}
use openclaw_rust_node.Duplex.Input.Bounds
use openclaw_rust_node.Duplex.Input.Bounds.{push-IsValid, close-IsValid}
use openclaw_rust_node.Runtime.Build.{get}
use openclaw_rust_node.Runtime.Active.{
  ActiveInvocationState, ActiveInvocations, set, cancel_token, close_input, cancel_state,
  cancel_found, cancel, settle_push, push_input, input_found, input,
}

abbrev pub input_apart : Option ℕ → Option ℕ → Bool
input_apart none b = true
input_apart (some a) none = true
input_apart (some a) (some b) = not (a == b)

pub record IsApart (s t : ActiveInvocationState) : Type 0 where
  pub cancellations : (s.cancellation == t.cancellation) ≡ false
  pub first : (s.cancellation == t.input_overflow) ≡ false
  pub second : (s.input_overflow == t.cancellation) ≡ false
  pub overflows : (s.input_overflow == t.input_overflow) ≡ false
  pub inputs : input_apart s.input t.input ≡ true

abbrev pub InputBelow : ℕ → Option ℕ → Type 0
InputBelow n none = Unit
InputBelow n (some a) = a < n

pub record IsAllocated (n : ℕ) (s : ActiveInvocationState) : Type 0 where
  pub cancellation : s.cancellation < n
  pub overflow : s.input_overflow < n
  pub input : InputBelow n s.input
  pub own : (s.cancellation == s.input_overflow) ≡ false

abbrev pub Entries : Type 0
Entries = List (String × ActiveInvocationState)

abbrev pub AreApart : Entries → Type 0
AreApart [] = Unit
AreApart ((id, s) ∷ rest) = All (λ e. (str_eq id e.0 ≡ false) × IsApart e.1 s) rest × AreApart rest

pub record AreValid (entries : Entries) (fresh : ℕ) : Type 0 where
  pub apart : AreApart entries
  pub allocated : All (λ e. IsAllocated fresh e.1) entries

pub record IsValid (w : ActiveInvocations) : Type 0 where
  pub entries : AreValid w.entries w.fresh
  pub buffers : (b : ℕ) → Bounds.IsValid (w.buffers b)

pub set-IsValid :
    (f : ℕ → InputBuffer) (i : ℕ) (b : InputBuffer)
    → ((j : ℕ) → Bounds.IsValid (f j))
    → Bounds.IsValid b
    → (j : ℕ) → Bounds.IsValid (set f i b j)
unfolding set
set-IsValid f i b v u j = elim (Bool-cases (j == i)) [ inl e ↦ rw e u | inr e ↦ rw e (v j) ]

-- An operation on the cells of an invocation keeps the entries and what is allocated.
pub record Touches (w w' : ActiveInvocations) : Type 0 where
  pub entries : w'.entries ≡ w.entries
  pub fresh : w'.fresh ≡ w.fresh
  pub buffers : ((b : ℕ) → Bounds.IsValid (w.buffers b)) → (b : ℕ) → Bounds.IsValid (w'.buffers b)

pub Touches-self : (w : ActiveInvocations) → Touches w w
Touches-self w = record { entries = refl; fresh = refl; buffers = λ v. v }

pub Touches-then : {w u t : ActiveInvocations} → Touches w u → Touches u t → Touches w t
Touches-then a b = record {
  entries = ground arith;
  fresh = ground arith;
  buffers = λ v. b.buffers (a.buffers v);
}

pub Touches-IsValid : {w w' : ActiveInvocations} → Touches w w' → IsValid w → IsValid w'
Touches-IsValid t v = record {
  entries = rw (t.entries, t.fresh) v.entries;
  buffers = t.buffers v.buffers;
}

pub cancel_token-Touches : (w : ActiveInvocations) (t : ℕ) → Touches w (cancel_token w t)
unfolding cancel_token
cancel_token-Touches w t = record { entries = refl; fresh = refl; buffers = λ v. v }

pub close_input-Touches : (w : ActiveInvocations) (i : Option ℕ) → Touches w (close_input w i)
unfolding close_input
close_input-Touches w none = Touches-self w
close_input-Touches w (some b) = record {
  entries = refl;
  fresh = refl;
  buffers = λ v. set-IsValid w.buffers b (close (w.buffers b)) v (close-IsValid (w.buffers b));
}

pub cancel_state-Touches :
    (w : ActiveInvocations) (s : ActiveInvocationState) → Touches w (cancel_state w s)
unfolding cancel_state
cancel_state-Touches w s =
    Touches-then (cancel_token-Touches w s.cancellation) (close_input-Touches _ s.input)

pub cancel-Touches : (w : ActiveInvocations) (id : String) → Touches w (cancel w id)
unfolding cancel cancel_found
cancel-Touches w id = elim (Option-cases (get w.entries id)) [
  | inl e ↦ rw e (Touches-self w)
  | inr (s, e) ↦ rw e (cancel_state-Touches w s)
]

settle_push-Touches :
    (w : ActiveInvocations) (b t : ℕ) (r : InputBuffer × InputDisposition)
    → Bounds.IsValid r.0
    → Touches w (settle_push w b t r).0
unfolding settle_push cancel_token
settle_push-Touches w b t (buffer, overflow) u = record {
  entries = refl;
  fresh = refl;
  buffers = λ v. set-IsValid w.buffers b buffer v u;
}
settle_push-Touches w b t (buffer, ignored) u = record {
  entries = refl;
  fresh = refl;
  buffers = λ v. set-IsValid w.buffers b buffer v u;
}
settle_push-Touches w b t (buffer, accepted) u = record {
  entries = refl;
  fresh = refl;
  buffers = λ v. set-IsValid w.buffers b buffer v u;
}

push_input-Touches :
    (w : ActiveInvocations) (i : Option ℕ) (t seq : ℕ) (payload : String)
    → ((b : ℕ) → Bounds.IsValid (w.buffers b))
    → Touches w (push_input w i t seq payload).0
unfolding push_input
push_input-Touches w none t seq payload v = Touches-self w
push_input-Touches w (some b) t seq payload v =
    settle_push-Touches w b t (push (w.buffers b) seq payload)
      (push-IsValid (w.buffers b) seq payload (v b)).0

pub input-Touches :
    (w : ActiveInvocations) (id node_id : String) (seq : ℕ) (payload : String)
    → ((b : ℕ) → Bounds.IsValid (w.buffers b))
    → Touches w (input w id node_id seq payload).0
unfolding input input_found
input-Touches w id node_id seq payload v = elim (Option-cases (get w.entries id)) [
  | inl e ↦ rw e (Touches-self w)
  | inr (s, e) ↦ rw e (elim (Bool-cases (str_eq s.node_id node_id)) [
    | inl q ↦ rw q (push_input-Touches w s.input s.input_overflow seq payload v)
    | inr q ↦ rw q (Touches-self w)
  ])
]
