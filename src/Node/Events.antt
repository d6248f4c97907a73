-- ===== src/Node/Events.antt =====
-- The events of a node session (node.rs, `next_node_event`): Gateway events are a list of names and
-- payloads, and at its end the session fails with an error of its own.
use Prim.Native.String.{len}
use openclaw_rust_node.Base.{
  ℕ, ◌≤◌, String, Bool, true, false, ◌≡◌, refl, Option, none, some, List, [], ◌∷◌, str_eq,
  if◌then◌else◌, inl, inr, arith,
}
use openclaw_rust_node.Base.Results.{Result, ok, err, ◌>>=◌, Result-cases}
use openclaw_rust_node.Text.{is_empty}
use openclaw_rust_node.Client.{ClientError, not_activated}
use openclaw_rust_node.Node.{
  NodeInvocation, NodeSessionEvent, invocation, invocation_input, invocation_cancelled,
}
use openclaw_rust_node.Node.Results.{require_non_empty_result_field}
use openclaw_rust_node.Node.Invocations.{
  max_input_frame_bytes, Decoders, DecodedInvocation, require_non_empty_if_some, decode_invocation,
  parse_decoded, parse_invocation, parse_invocation_input, parse_invocation_cancel,
}

pub record Event (V : Type 0) : Type 0 where
  pub event : String
  pub payload : V

module _ {V : Type 0} (D : Decoders V) where
  -- What one Gateway event is to the node, at the time it is received. `none` goes on to the next.
  unfoldable pub node_event :
      Event V → (now : ℕ) → Option (Result (ClientError V) (NodeSessionEvent V))
  node_event e now =
      if str_eq e.event "node.invoke.request"
      then some (parse_invocation D e.payload now >>= λ i. ok (invocation i))
      else if str_eq e.event "node.invoke.input"
      then some (parse_invocation_input D e.payload)
      else if str_eq e.event "node.invoke.cancel"
      then some (parse_invocation_cancel D e.payload)
      else none

  unfoldable pub next_parsed :
      List (Event V × ℕ)
      → ClientError V
      → List (Event V × ℕ) × Result (ClientError V) (NodeSessionEvent V)
  next_parsed [] error = ([], err error)
  next_parsed ((e, now) ∷ rest) error = elim (node_event e now) [
    | some parsed ↦ (rest, parsed)
    | none ↦ next_parsed rest error
  ]

  -- The events that are left, and the outcome.
  unfoldable pub next_node_event :
      (activated : Bool)
      → List (Event V × ℕ)
      → ClientError V
      → List (Event V × ℕ) × Result (ClientError V) (NodeSessionEvent V)
  unfolding next_parsed
  next_node_event activated events error =
      if activated then next_parsed events error else (events, err not_activated)

-- Absent or not empty.
abbrev IsFilled : Option String → Type 0
IsFilled none = Unit
IsFilled (some s) = is_empty s ≡ false

-- What a command runtime can rely on: no identifier is empty, the parameters' size is known, and the
-- input fits a frame.
abbrev pub IsWellFormed : {V : Type 0} → NodeSessionEvent V → Type 0
IsWellFormed (invocation i) =
    (is_empty i.id ≡ false)
    × (is_empty i.node_id ≡ false)
    × (is_empty i.command ≡ false)
    × IsFilled i.idempotency_key
    × IsFilled i.session_key
IsWellFormed (invocation_input invoke_id node_id seq payload_json) =
    (is_empty invoke_id ≡ false)
    × (is_empty node_id ≡ false)
    × (len payload_json ≤ max_input_frame_bytes)
IsWellFormed (invocation_cancelled invoke_id node_id) =
    (is_empty invoke_id ≡ false) × (is_empty node_id ≡ false)

module _ {V : Type 0} (D : Decoders V) where
  parse_decoded-ok :
      (p : DecodedInvocation V) (now : ℕ) (i : NodeInvocation V)
      → parse_decoded D p now ≡ ok i
      → IsWellFormed (invocation i)
  unfolding parse_decoded require_non_empty_if_some require_non_empty_result_field
  parse_decoded-ok p now i h = ground arith

  parse_invocation-ok :
      (value : V) (now : ℕ) (e : NodeSessionEvent V)
      → (parse_invocation D value now >>= λ i. ok (invocation i)) ≡ ok e
      → IsWellFormed e
  unfolding parse_invocation
  parse_invocation-ok value now e h = elim (Result-cases (decode_invocation D value)) [
    | inl (p, q) ↦ elim (Result-cases (parse_decoded D p now)) [
      | inl (i, r) ↦ ground (arith, parse_decoded-ok p now i r)
      | inr (x, r) ↦ ground arith
    ]
    | inr (x, q) ↦ ground arith
  ]

  parse_invocation_input-ok :
      (value : V) (e : NodeSessionEvent V) → parse_invocation_input D value ≡ ok e → IsWellFormed e
  unfolding parse_invocation_input require_non_empty_result_field
  parse_invocation_input-ok value e h = ground arith

  parse_invocation_cancel-ok :
      (value : V) (e : NodeSessionEvent V) → parse_invocation_cancel D value ≡ ok e → IsWellFormed e
  unfolding parse_invocation_cancel require_non_empty_result_field
  parse_invocation_cancel-ok value e h = ground arith

  node_event-ok :
      (g : Event V) (now : ℕ) (e : NodeSessionEvent V)
      → node_event D g now ≡ some (ok e)
      → IsWellFormed e
  unfolding node_event
  node_event-ok g now e h = ground (
    arith,
    parse_invocation-ok g.payload now e,
    parse_invocation_input-ok g.payload e,
    parse_invocation_cancel-ok g.payload e,
  )

  next_parsed-ok :
      (events : List (Event V × ℕ)) (error : ClientError V) (e : NodeSessionEvent V)
      → (next_parsed D events error).1 ≡ ok e
      → IsWellFormed e
  unfolding next_parsed
  next_parsed-ok [] error e h = ground arith
  next_parsed-ok ((g, now) ∷ rest) error e h =
      ground (arith, node_event-ok g now e, next_parsed-ok rest error e)

  -- Whatever the Gateway sends, and however serde reads it, an event that the node takes from it has
  -- identifiers that are not empty, also the optional ones that are there, and input of at most 16 KiB.
  -- A session that is not activated takes none.
  pub next_node_event-IsWellFormed :
      (activated : Bool) (events : List (Event V × ℕ)) (error : ClientError V)
      (e : NodeSessionEvent V)
      → (next_node_event D activated events error).1 ≡ ok e
      → IsWellFormed e × (activated ≡ true)
  unfolding next_node_event
  next_node_event-IsWellFormed false events error e h = ground arith
  next_node_event-IsWellFormed true events error e h = (next_parsed-ok events error e h, refl)
