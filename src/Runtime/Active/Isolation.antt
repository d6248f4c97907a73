-- ===== src/Runtime/Active/Isolation.antt =====
-- An event for one invocation leaves the others alone.
use openclaw_rust_node.Base.{
  ℕ, String, true, false, ◌==◌, ◌≡◌, refl, sym, ap, inl, inr, Option, none, some, [], ◌∷◌, All,
  str_eq, eq_iff, Bool-cases, arith,
}
use openclaw_rust_node.Duplex.Input.{InputBuffer, InputDisposition, accepted, ignored, overflow}
use openclaw_rust_node.Node.{NodeSessionEvent, invocation, invocation_input, invocation_cancelled}
use openclaw_rust_node.Runtime.Build.{get}
use openclaw_rust_node.Runtime.Active.{
  ActiveInvocationState, ActiveInvocations, set, cancel_token, close_input, cancel_state,
  cancel_found, cancel, settle_push, push_input, input_found, input, cancel_overflowed,
  route_invocation_control,
}
use openclaw_rust_node.Runtime.Active.Cells.{
  IsApart, input_apart, Entries, AreApart, IsValid, Touches, cancel-Touches, input-Touches,
}
use openclaw_rust_node.Runtime.Active.Runs.{routed, routed-Touches}

-- The buffer of an input, where there is one, is the same.
abbrev SameInput : Option ℕ → (ℕ → InputBuffer) → (ℕ → InputBuffer) → Type 0
SameInput none f g = Unit
SameInput (some b) f g = g b ≡ f b

-- The invocation's tokens and its input buffer are what they were.
pub record Keeps (s : ActiveInvocationState) (w w' : ActiveInvocations) : Type 0 where
  pub cancellation : w'.cancelled s.cancellation ≡ w.cancelled s.cancellation
  pub overflow : w'.cancelled s.input_overflow ≡ w.cancelled s.input_overflow
  pub input : SameInput s.input w.buffers w'.buffers

SameInput-self : (i : Option ℕ) (f : ℕ → InputBuffer) → SameInput i f f
SameInput-self none f = tt
SameInput-self (some b) f = refl

SameInput-then :
    (i : Option ℕ) (f g h : ℕ → InputBuffer) → SameInput i f g → SameInput i g h → SameInput i f h
SameInput-then none f g h a b = tt
SameInput-then (some i) f g h a b = ground arith

SameInput-set :
    (i : Option ℕ) (f : ℕ → InputBuffer) (b : ℕ) (buffer : InputBuffer)
    → input_apart (some b) i ≡ true
    → SameInput i f (set f b buffer)
unfolding set
SameInput-set none f b buffer a = tt
SameInput-set (some i) f b buffer a = ground arith

Keeps-self : (s : ActiveInvocationState) (w : ActiveInvocations) → Keeps s w w
Keeps-self s w = record {
  cancellation = refl;
  overflow = refl;
  input = SameInput-self s.input w.buffers;
}

Keeps-then :
    (s : ActiveInvocationState) (w u t : ActiveInvocations)
    → Keeps s w u
    → Keeps s u t
    → Keeps s w t
Keeps-then s w u t a b = record {
  cancellation = ground (arith, a.cancellation, b.cancellation);
  overflow = ground (arith, a.overflow, b.overflow);
  input = SameInput-then s.input w.buffers u.buffers t.buffers a.input b.input;
}

-- A token or a buffer that is not the invocation's may change.
cancel_token-Keeps :
    (s : ActiveInvocationState) (w : ActiveInvocations) (t : ℕ)
    → (t == s.cancellation) ≡ false
    → (t == s.input_overflow) ≡ false
    → Keeps s w (cancel_token w t)
unfolding cancel_token set
cancel_token-Keeps s w t a b = record {
  cancellation = ground arith;
  overflow = ground arith;
  input = SameInput-self s.input w.buffers;
}

set-Keeps :
    (s : ActiveInvocationState) (w : ActiveInvocations) (b : ℕ) (buffer : InputBuffer)
    → input_apart (some b) s.input ≡ true
    → Keeps s w (record w { buffers = set w.buffers b buffer })
set-Keeps s w b buffer a = record {
  cancellation = refl;
  overflow = refl;
  input = SameInput-set s.input w.buffers b buffer a;
}

close_input-Keeps :
    (s : ActiveInvocationState) (w : ActiveInvocations) (i : Option ℕ)
    → input_apart i s.input ≡ true
    → Keeps s w (close_input w i)
unfolding close_input
close_input-Keeps s w none a = Keeps-self s w
close_input-Keeps s w (some b) a = set-Keeps s w b _ a

module _ (s t : ActiveInvocationState) (apart : IsApart t s) where
  cancel_state-Keeps : (w : ActiveInvocations) → Keeps s w (cancel_state w t)
  unfolding cancel_state
  cancel_state-Keeps w =
      Keeps-then s w (cancel_token w t.cancellation) _
        (cancel_token-Keeps s w t.cancellation apart.cancellations apart.first)
        (close_input-Keeps s (cancel_token w t.cancellation) t.input apart.inputs)

  settle_push-Keeps :
      (w : ActiveInvocations) (b : ℕ) (r : InputBuffer × InputDisposition)
      → input_apart (some b) s.input ≡ true
      → Keeps s w (settle_push w b t.input_overflow r).0
  unfolding settle_push
  settle_push-Keeps w b (buffer, overflow) a =
      Keeps-then s w (record w { buffers = set w.buffers b buffer }) _ (set-Keeps s w b buffer a)
        (cancel_token-Keeps s _ t.input_overflow apart.second apart.overflows)
  settle_push-Keeps w b (buffer, ignored) a = set-Keeps s w b buffer a
  settle_push-Keeps w b (buffer, accepted) a = set-Keeps s w b buffer a

  push_input-Keeps :
      (w : ActiveInvocations) (i : Option ℕ) (seq : ℕ) (payload : String)
      → input_apart i s.input ≡ true
      → Keeps s w (push_input w i t.input_overflow seq payload).0
  unfolding push_input
  push_input-Keeps w none seq payload a = Keeps-self s w
  push_input-Keeps w (some b) seq payload a = settle_push-Keeps w b _ a

IsApart-swap : (s t : ActiveInvocationState) → IsApart s t → IsApart t s
IsApart-swap s t a = record {
  cancellations = ground (arith, a.cancellations);
  first = ground (arith, a.second);
  second = ground (arith, a.first);
  overflows = ground (arith, a.overflows);
  inputs = swapped s.input t.input a.inputs;
}
  where
    swapped : (i j : Option ℕ) → input_apart i j ≡ true → input_apart j i ≡ true
    swapped none none h = refl
    swapped none (some j) h = refl
    swapped (some i) none h = refl
    swapped (some i) (some j) h = ground arith

-- What holds of all entries holds of the one that is found, under its name.
All-get {ℓ} :
    (P : String × ActiveInvocationState → Type ℓ) (entries : Entries) (id : String)
    (s : ActiveInvocationState)
    → All P entries
    → get entries id ≡ some s
    → P (id, s)
unfolding get
All-get P [] id s a h = absurd (ground arith)
All-get P ((n, t) ∷ rest) id s a h = elim (Bool-cases (str_eq id n)) [
  | inl e ↦ let q : s ≡ t = ground arith in rw ((eq_iff id n).0 e, q) a.0
  | inr e ↦ All-get P rest id s a.1 (ground arith)
]

get-IsApart :
    (entries : Entries) (i j : String) (s t : ActiveInvocationState)
    → AreApart entries
    → get entries i ≡ some s
    → get entries j ≡ some t
    → str_eq i j ≡ false
    → IsApart s t
unfolding get
get-IsApart [] i j s t a g h d = absurd (ground arith)
get-IsApart ((n, u) ∷ rest) i j s t a g h d = elim (Bool-cases (str_eq i n)) [
  | inl e ↦ elim (Bool-cases (str_eq j n)) [
    | inl f ↦ absurd (ground (arith, (eq_iff i n).0 e, (eq_iff j n).0 f, (eq_iff i j).1))
    | inr f ↦
        let q : s ≡ u = ground arith in
        rw q (IsApart-swap t u (All-get _ rest j t a.0 (ground arith)).1)
  ]
  | inr e ↦ elim (Bool-cases (str_eq j n)) [
    | inl f ↦ let q : t ≡ u = ground arith in rw q (All-get _ rest i s a.0 (ground arith)).1
    | inr f ↦ get-IsApart rest i j s t a.1 (ground arith) (ground arith) d
  ]
]

-- The invocation that an event is for.
abbrev pub addressee : {V : Type 0} → NodeSessionEvent V → String
addressee (invocation i) = i.id
addressee (invocation_input invoke_id node_id seq payload_json) = invoke_id
addressee (invocation_cancelled invoke_id node_id) = invoke_id

module _ (w : ActiveInvocations) (v : IsValid w) (id other : String) (s : ActiveInvocationState)
    (found : get w.entries id ≡ some s) (differs : str_eq other id ≡ false) where
  found-Keeps :
      (u : ActiveInvocations) (t : Option ActiveInvocationState)
      → get w.entries other ≡ t
      → Keeps s u (cancel_found u t)
  unfolding cancel_found
  found-Keeps u none e = Keeps-self s u
  found-Keeps u (some t) e =
      cancel_state-Keeps s t (get-IsApart w.entries other id t s v.entries.apart e found differs) u

  input_found-Keeps :
      (t : Option ActiveInvocationState) (node_id : String) (seq : ℕ) (payload : String)
      → get w.entries other ≡ t
      → Keeps s w (input_found w t node_id seq payload).0
  unfolding input_found
  input_found-Keeps none node_id seq payload e = Keeps-self s w
  input_found-Keeps (some t) node_id seq payload e = elim (Bool-cases (str_eq t.node_id node_id)) [
    | inl q ↦
        let apart = get-IsApart w.entries other id t s v.entries.apart e found differs in
        rw q (push_input-Keeps s t apart w t.input seq payload apart.inputs)
    | inr q ↦ rw q (Keeps-self s w)
  ]

  overflowed-Keeps :
      (r : ActiveInvocations × InputDisposition)
      → Touches w r.0
      → Keeps s w r.0
      → Keeps s w (cancel_overflowed other r)
  unfolding cancel_overflowed cancel
  overflowed-Keeps (u, overflow) t k =
      Keeps-then s w u _ k
        (found-Keeps u (get u.entries other) (ap (λ es. get es other) (sym t.entries)))
  overflowed-Keeps (u, ignored) t k = k
  overflowed-Keeps (u, accepted) t k = k

-- An input or a cancellation for one invocation leaves every other active one as it is: it stays
-- active, its tokens are cancelled only if they were, and its input buffer holds what it held, also
-- where the input overflows.
pub routed_isolates :
    {V : Type 0} (w : ActiveInvocations) (e : NodeSessionEvent V) (id : String)
    (s : ActiveInvocationState)
    → IsValid w
    → get w.entries id ≡ some s
    → str_eq (addressee e) id ≡ false
    → ((routed w e).entries ≡ w.entries) × Keeps s w (routed w e)
unfolding routed route_invocation_control input cancel
routed_isolates w (invocation i) id s v found d = (refl, Keeps-self s w)
routed_isolates {V = V} w (invocation_input other node_id seq payload) id s v found d = (
  (routed-Touches {V = V} w (invocation_input other node_id seq payload) v.buffers).entries,
  overflowed-Keeps w v id other s found d (input w other node_id seq payload)
      (input-Touches w other node_id seq payload v.buffers)
      (input_found-Keeps w v id other s found d (get w.entries other) node_id seq payload refl),
)
routed_isolates w (invocation_cancelled other node_id) id s v found d = (
  (cancel-Touches w other).entries,
  found-Keeps w v id other s found d w (get w.entries other) refl,
)
