-- ===== src/Sidecar/Handshake/States.antt =====
-- The states of a handshake: what each one holds, which errors end it, and what authenticates it.
use openclaw_rust_node.Base.{
  ℕ, ◌≡◌, refl, sym, ap, ◌∙◌, ◌⊎◌, inl, inr, Bool, true, false, Option, none, some, List, arith,
}
use openclaw_rust_node.Base.Results.{Result, ok, err, Result-cases, is_ok}
use openclaw_rust_node.Sidecar.Protocol.{
  SidecarPeerRole, SidecarProtocolOffer, NegotiatedSidecarProtocol, SidecarProtocolSelection,
  supervisor, runtime, selection_of, negotiate_sidecar_protocol,
}
use openclaw_rust_node.Sidecar.Frame.{SidecarFrameError, Codec}
use openclaw_rust_node.Sidecar.Channel.{Channel, open_, apply_negotiated_protocol}
use openclaw_rust_node.Sidecar.Handshake.{
  HandshakeState, awaiting_acceptance, authenticated, failed, HandshakeMessage, accept,
  HandshakeError, is_acceptance_pending, Handshake, local_role, channel_instance_mismatch, new,
  bind_channel, commit, complete_acceptance, check_offer, confirmed, start, dispatch,
  receive_opened, settle, receive,
}

-- What an error leaves: the channel is retired, and the handshake has failed unless the channel was
-- not its own, in which case it is as it was.
abbrev pub EndsOnError :
    {A : Type 0} → Handshake → Handshake × Channel × Result HandshakeError A → Type 0
EndsOnError h (h', c', ok a) = Unit
EndsOnError h (h', c', err e) =
    (c'.retired ≡ true) × ((h'.state ≡ failed) ⊎ ((e ≡ channel_instance_mismatch) × (h' ≡ h)))

abbrev is_some : Option NegotiatedSidecarProtocol → Bool
is_some (some n) = true
is_some none = false

abbrev pub is_authenticated : HandshakeState → Bool
is_authenticated authenticated = true
is_authenticated _ = false

-- A handshake holds a negotiation exactly when it is authenticated, and a pending one exactly while
-- its acceptance is.
pub record IsValid (h : Handshake) : Type 0 where
  pub negotiated_held : is_some h.negotiated ≡ is_authenticated h.state
  pub pending_held : is_some h.pending_negotiated ≡ is_acceptance_pending h.state

pub new-IsValid :
    (local_offer : SidecarProtocolOffer) {h : Handshake} → new local_offer ≡ ok h → IsValid h
unfolding new
new-IsValid local_offer e = ground arith

bind_channel-IsValid :
    (h : Handshake) (c : Channel) {b : Handshake} → bind_channel h c ≡ ok b → IsValid h → IsValid b
unfolding bind_channel
bind_channel-IsValid h c e v = ground arith

commit-IsValid :
    (h : Handshake) (c : Channel) (pending : Option NegotiatedSidecarProtocol)
    → IsValid (commit (record h { pending_negotiated = none }) c pending).0
unfolding commit
commit-IsValid h c pending = ground arith

pub complete_acceptance-IsValid :
    (h : Handshake) (c : Channel) → IsValid h → IsValid (complete_acceptance h c).0
unfolding complete_acceptance
complete_acceptance-IsValid h c v = ground arith

-- The checks that a supervisor makes of the acceptance of an offer.
pub record Confirmed (h : Handshake) (o : SidecarProtocolOffer) (n : NegotiatedSidecarProtocol)
    : Type 0 where
  pub by_runtime : o.peer.role ≡ runtime
  pub computed : negotiate_sidecar_protocol h.local_offer o ≡ ok n

pub record RunsUnder (n : NegotiatedSidecarProtocol) (c : Channel) : Type 0 where
  pub limit : c.max_frame_bytes ≡ n.limits.max_frame_bytes
  pub minor : c.protocol_minor ≡ n.protocol_minor

confirmed-ok :
    (h : Handshake) (c : Channel) (o : SidecarProtocolOffer) (claimed : SidecarProtocolSelection)
    {n : NegotiatedSidecarProtocol} {applied : Channel}
    → confirmed h c o claimed ≡ ok (n, applied)
    → (claimed ≡ selection_of n) × Confirmed h o n × RunsUnder n applied
unfolding confirmed check_offer apply_negotiated_protocol
confirmed-ok h c o claimed e = ground arith

module _ (hmac : List ℕ → List ℕ → List ℕ) (codec : Codec HandshakeMessage) where
  pub start-IsValid : (h : Handshake) (c : Channel) → IsValid h → IsValid (start hmac codec h c).0
  unfolding start
  start-IsValid h c v = ground arith

  dispatch-IsValid :
      (h : Handshake) (c : Channel) (m : HandshakeMessage)
      → IsValid h
      → IsValid (settle (dispatch hmac codec h c (local_role h) h.state m)).0
  unfolding dispatch settle
  dispatch-IsValid h c m v = ground arith

  receive_opened-IsValid :
      (h : Handshake) (opened : Channel × Result SidecarFrameError HandshakeMessage)
      → IsValid h
      → IsValid (settle (receive_opened hmac codec h opened)).0
  unfolding settle receive_opened
  receive_opened-IsValid h opened v = ground arith

  pub receive-IsValid :
      (h : Handshake) (c : Channel) (bytes : List ℕ)
      → IsValid h
      → IsValid (receive hmac codec h c bytes).0
  unfolding receive
  receive-IsValid h c bytes v = ground arith

  receive_opened-ends :
      (h b : Handshake) (opened : Channel × Result SidecarFrameError HandshakeMessage)
      → EndsOnError h (settle (receive_opened hmac codec b opened))
  unfolding settle
  receive_opened-ends h b opened = ground arith

  -- Every error of every operation ends the handshake and its channel; only an operation with another
  -- channel retires that one alone.
  pub errors_end :
      (h : Handshake) (c : Channel) (bytes : List ℕ)
      → EndsOnError h (start hmac codec h c)
        × EndsOnError h (receive hmac codec h c bytes)
        × EndsOnError h (complete_acceptance h c)
  unfolding start receive complete_acceptance
  errors_end h c bytes = (
    ground arith,
    elim (Result-cases (bind_channel h c)) [
      | inl (b, e) ↦ ground (arith, receive_opened-ends h b (open_ hmac codec c bytes))
      | inr (x, e) ↦ ground arith
    ],
    ground arith,
  )

  -- A failed handshake stays failed, and every operation on it is an error.
  pub failed_absorbs :
      (h : Handshake) (c : Channel) (bytes : List ℕ)
      → h.state ≡ failed
      → ((start hmac codec h c).0.state ≡ failed)
        × (is_ok (start hmac codec h c).2 ≡ false)
        × ((receive hmac codec h c bytes).0.state ≡ failed)
        × (is_ok (receive hmac codec h c bytes).2 ≡ false)
        × ((complete_acceptance h c).0.state ≡ failed)
        × (is_ok (complete_acceptance h c).2 ≡ false)
  unfolding start receive complete_acceptance
  failed_absorbs h c bytes e = ground arith

  dispatch_authenticates :
      (h : Handshake) (c : Channel) (role : SidecarPeerRole) (state : HandshakeState)
      (m : HandshakeMessage)
      → is_authenticated h.state ≡ false
      → is_authenticated (settle (dispatch hmac codec h c role state m)).0.state ≡ true
      → (o : SidecarProtocolOffer) × (n : NegotiatedSidecarProtocol) × (m
          ≡ accept o (selection_of n))
        × (role ≡ supervisor)
        × Confirmed h o n
        × ((settle (dispatch hmac codec h c role state m)).0.negotiated ≡ some n)
        × RunsUnder n (settle (dispatch hmac codec h c role state m)).1
  unfolding dispatch settle
  dispatch_authenticates h c supervisor awaiting_acceptance (accept o claimed) u a =
      elim (Result-cases (confirmed h c o claimed)) [
        | inl ((n, applied), e) ↦
            let known = confirmed-ok h c o claimed e in
            (o, n, ground arith, refl, known.1, ground arith, ground arith)
        | inr (x, e) ↦ absurd (ground arith)
      ]
  dispatch_authenticates h c _ _ _ u a = absurd (ground arith)

  -- A frame that authenticates was opened, and is dispatched on the bound handshake.
  receive_path :
      (h : Handshake) (c : Channel) (bytes : List ℕ)
      → is_authenticated h.state ≡ false
      → is_authenticated (receive hmac codec h c bytes).0.state ≡ true
      → (b : Handshake) × (m : HandshakeMessage) × ((open_ hmac codec c bytes).1 ≡ ok m)
        × (receive hmac codec h c bytes
            ≡ settle (dispatch hmac codec b (open_ hmac codec c bytes).0 (local_role b) b.state m))
        × (b.local_offer ≡ h.local_offer)
        × (is_authenticated b.state ≡ false)
  unfolding receive bind_channel settle receive_opened
  receive_path h c bytes u a = elim (Result-cases (bind_channel h c)) [
    | inl (b, e) ↦ elim (Result-cases (open_ hmac codec c bytes).1) [
      | inl (m, e') ↦ (b, m, e', ground arith, ground arith, ground arith)
      | inr (x, e') ↦ absurd (ground arith)
    ]
    | inr (x, e) ↦ absurd (ground arith)
  ]

  -- The runtime's side of a handshake never becomes authenticated by a received frame, and the
  -- supervisor's only by an acceptance that it checked: the frame opens as the acceptance of an offer
  -- by a runtime, its own negotiation with that offer succeeds, the claimed selection is the one it
  -- computed, and the channel runs under it.
  pub receive_authenticates :
      (h : Handshake) (c : Channel) (bytes : List ℕ)
      → is_authenticated h.state ≡ false
      → is_authenticated (receive hmac codec h c bytes).0.state ≡ true
      → (o : SidecarProtocolOffer) × (n : NegotiatedSidecarProtocol) × ((open_ hmac codec c bytes).1
          ≡ ok (accept o (selection_of n)))
        × (local_role h ≡ supervisor)
        × Confirmed h o n
        × ((receive hmac codec h c bytes).0.negotiated ≡ some n)
        × RunsUnder n (receive hmac codec h c bytes).1
  unfolding receive
  receive_authenticates h c bytes u a =
      let (b, m, opened, path, same, before) = receive_path h c bytes u a in
      let (o, n, e, role, known, held, runs) =
        dispatch_authenticates b (open_ hmac codec c bytes).0 (local_role b) b.state m before
          (rw path at a) in
      (
        o,
        n,
        opened ∙ ap ok e,
        ap (λ k. k.peer.role) (sym same) ∙ role,
        record {
          by_runtime = known.by_runtime;
          computed = ap (λ k. negotiate_sidecar_protocol k o) (sym same) ∙ known.computed;
        },
        ap (λ r. r.0.negotiated) path ∙ held,
        record {
          limit = ap (λ r. r.1.max_frame_bytes) path ∙ runs.limit;
          minor = ap (λ r. r.1.protocol_minor) path ∙ runs.minor;
        },
      )

  -- Every operation keeps a valid handshake valid, whatever channel and bytes it is given.
  pub operations-IsValid :
      (h : Handshake) (c : Channel) (bytes : List ℕ)
      → IsValid h
      → IsValid (start hmac codec h c).0
        × IsValid (receive hmac codec h c bytes).0
        × IsValid (complete_acceptance h c).0
  operations-IsValid h c bytes v =
      (start-IsValid h c v, receive-IsValid h c bytes v, complete_acceptance-IsValid h c v)
