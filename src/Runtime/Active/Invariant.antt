-- ===== src/Runtime/Active/Invariant.antt =====
-- Every operation of the active invocations keeps the invariant.
use openclaw_rust_node.Base.{
  ℕ, ◌<◌, ◌≤◌, ◌+◌, String, Bool, true, false, ◌≡◌, refl, inl, inr, Option, none, some, [], ◌∷◌,
  All, str_eq, Bool-cases, arith,
}
use openclaw_rust_node.Duplex.Input.{overflow, default_pending_input_bytes}
use openclaw_rust_node.Duplex.Input
use openclaw_rust_node.Duplex.Input.Bounds.{new-IsValid}
use openclaw_rust_node.Runtime.Build.{get}
use openclaw_rust_node.Runtime.Active.{
  ActiveInvocationState, ActiveInvocations, ActiveInvocation, new_token, new_input, enter,
  track_vacant, track_entry, track, start, remove, close_removed, untrack, cancel_state,
  cancel_states, cancel_all, drop,
}
use openclaw_rust_node.Runtime.Active.Cells.{
  IsApart, IsAllocated, InputBelow, input_apart, Entries, AreApart, IsValid, set-IsValid, Touches,
  Touches-self, Touches-then, Touches-IsValid, cancel_token-Touches, close_input-Touches,
  cancel_state-Touches,
}

-- Entries stay valid when more is allocated, and when some are removed.
IsAllocated-more : (n m : ℕ) (s : ActiveInvocationState) → n ≤ m → IsAllocated n s → IsAllocated m s
IsAllocated-more n m s l a = record {
  cancellation = omega (arith, a.cancellation);
  overflow = omega (arith, a.overflow);
  input = InputBelow-more s.input a.input;
  own = a.own;
}
  where
    InputBelow-more : (i : Option ℕ) → InputBelow n i → InputBelow m i
    InputBelow-more none b = tt
    InputBelow-more (some a) b = omega arith

All-IsAllocated-more :
    (n m : ℕ) (entries : Entries)
    → n ≤ m
    → All (λ e. IsAllocated n e.1) entries
    → All (λ e. IsAllocated m e.1) entries
All-IsAllocated-more n m [] l a = tt
All-IsAllocated-more n m ((id, s) ∷ rest) l a =
    (IsAllocated-more n m s l a.0, All-IsAllocated-more n m rest l a.1)

All-remove {ℓ} :
    (P : String × ActiveInvocationState → Type ℓ) (entries : Entries) (id : String)
    → All P entries
    → All P (remove entries id)
unfolding remove
All-remove P [] id a = tt
All-remove P ((n, s) ∷ rest) id a = elim (Bool-cases (str_eq id n)) [
  | inl e ↦ rw e (All-remove P rest id a.1)
  | inr e ↦ rw e (a.0, All-remove P rest id a.1)
]

AreApart-remove :
    (entries : Entries) (id : String) → AreApart entries → AreApart (remove entries id)
unfolding remove
AreApart-remove [] id a = tt
AreApart-remove ((n, s) ∷ rest) id a = elim (Bool-cases (str_eq id n)) [
  | inl e ↦ rw e (AreApart-remove rest id a.1)
  | inr e ↦ rw e (All-remove _ rest id a.0, AreApart-remove rest id a.1)
]

-- A new entry with cells from `n` on is apart from those allocated below.
InputAbove : ℕ → Option ℕ → Type 0
InputAbove n none = Unit
InputAbove n (some i) = n ≤ i

inputs-apart : (n : ℕ) (i j : Option ℕ) → InputBelow n i → InputAbove n j → input_apart i j ≡ true
unfolding InputAbove
inputs-apart n none j b a = refl
inputs-apart n (some i) none b a = refl
inputs-apart n (some i) (some j) b a = ground arith

All-IsApart :
    (n : ℕ) (id : String) (s : ActiveInvocationState) (entries : Entries)
    → get entries id ≡ none
    → n ≤ s.cancellation
    → n ≤ s.input_overflow
    → InputAbove n s.input
    → All (λ e. IsAllocated n e.1) entries
    → All (λ e. (str_eq id e.0 ≡ false) × IsApart e.1 s) entries
unfolding get
All-IsApart n id s [] g c o i a = tt
All-IsApart n id s ((m, t) ∷ rest) g c o i (a, more) = (
  (
    ground arith,
    record {
      cancellations = ground (arith, a.cancellation);
      first = ground (arith, a.cancellation);
      second = ground (arith, a.overflow);
      overflows = ground (arith, a.overflow);
      inputs = inputs-apart n t.input s.input a.input i;
    },
  ),
  All-IsApart n id s rest (ground arith) c o i more,
)

-- The cells of a tracked invocation are new.
vacant-IsValid :
    (w : ActiveInvocations) (id node_id : String) (t : ℕ) (duplex : Bool)
    → get w.entries id ≡ none
    → t < w.fresh
    → All (λ e. IsAllocated t e.1) w.entries
    → IsValid w
    → IsValid (track_vacant w id node_id t duplex).0
unfolding track_vacant new_input new_token enter InputAbove
vacant-IsValid w id node_id t false g l a v = record {
  entries = record {
    apart = (All-IsApart t id _ w.entries g (omega arith) (omega arith) tt a, v.entries.apart);
    allocated = (
      record { cancellation = omega arith; overflow = omega arith; input = tt; own = ground arith },
      All-IsAllocated-more w.fresh (w.fresh + 1) w.entries (omega arith) v.entries.allocated,
    );
  };
  buffers = v.buffers;
}
vacant-IsValid w id node_id t true g l a v = record {
  entries = record {
    apart = (
      All-IsApart t id _ w.entries g (omega arith) (omega arith) (omega arith) a,
      v.entries.apart,
    );
    allocated = (
      record {
        cancellation = omega arith;
        overflow = omega arith;
        input = omega arith;
        own = ground arith;
      },
      All-IsAllocated-more w.fresh (w.fresh + 1 + 1) w.entries (omega arith) v.entries.allocated,
    );
  };
  buffers =
      set-IsValid w.buffers w.fresh (Input.new default_pending_input_bytes) v.buffers
        (new-IsValid default_pending_input_bytes);
}

new_token-IsValid : (w : ActiveInvocations) → IsValid w → IsValid (new_token w).0
unfolding new_token
new_token-IsValid w v = record {
  entries = record {
    apart = v.entries.apart;
    allocated =
        All-IsAllocated-more w.fresh (w.fresh + 1) w.entries (omega arith) v.entries.allocated;
  };
  buffers = v.buffers;
}

start_entry-IsValid :
    (w : ActiveInvocations) (id node_id : String) (t : ℕ) (duplex : Bool)
    (found : Option ActiveInvocationState)
    → get w.entries id ≡ found
    → t < w.fresh
    → All (λ e. IsAllocated t e.1) w.entries
    → IsValid w
    → IsValid (track_entry w id node_id t duplex found).0
unfolding track_entry
start_entry-IsValid w id node_id t duplex none g l a v =
    vacant-IsValid w id node_id t duplex g l a v
start_entry-IsValid w id node_id t duplex (some s) g l a v = v

pub start-IsValid :
    (w : ActiveInvocations) (id node_id : String) (duplex : Bool)
    → IsValid w
    → IsValid (start w id node_id duplex).0
unfolding start track new_token
start-IsValid w id node_id duplex v =
    start_entry-IsValid (new_token w).0 id node_id w.fresh duplex _ refl (omega arith)
      v.entries.allocated (new_token-IsValid w v)

untrack-IsValid : (w : ActiveInvocations) (id : String) → IsValid w → IsValid (untrack w id)
unfolding untrack
untrack-IsValid w id v = closed (get w.entries id)
  where
    removed : ActiveInvocations
    removed = record w { entries = remove w.entries id }

    removed-IsValid : IsValid removed
    removed-IsValid = record {
      entries = record {
        apart = AreApart-remove w.entries id v.entries.apart;
        allocated = All-remove _ w.entries id v.entries.allocated;
      };
      buffers = v.buffers;
    }

    closed : (found : Option ActiveInvocationState) → IsValid (close_removed removed found)
    closed none = removed-IsValid
    closed (some s) = Touches-IsValid (close_input-Touches removed s.input) removed-IsValid

pub drop-IsValid : (w : ActiveInvocations) (h : ActiveInvocation) → IsValid w → IsValid (drop w h)
unfolding drop
drop-IsValid w h v = elim (Bool-cases h.cancel_on_drop) [
  | inl e ↦
      rw e (untrack-IsValid _ h.id (Touches-IsValid (cancel_token-Touches w h.cancellation) v))
  | inr e ↦ rw e (untrack-IsValid w h.id v)
]

cancel_states-Touches :
    (w : ActiveInvocations) (entries : Entries) → Touches w (cancel_states w entries)
unfolding cancel_states
cancel_states-Touches w [] = Touches-self w
cancel_states-Touches w ((id, s) ∷ rest) =
    Touches-then (cancel_state-Touches w s) (cancel_states-Touches (cancel_state w s) rest)

pub cancel_all-IsValid : (w : ActiveInvocations) → IsValid w → IsValid (cancel_all w)
unfolding cancel_all
cancel_all-IsValid w v =
    Touches-IsValid (cancel_states-Touches (record w { entries = [] }) w.entries)
      (record { entries = record { apart = tt; allocated = tt }; buffers = v.buffers })
