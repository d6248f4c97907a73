-- ===== src/Sidecar/Handshake/Delivery.antt =====
-- The messages of a handshake on their way, one step of one side at a time.
use openclaw_rust_node.Base.{
  ℕ, ◌≤◌, ◌≡◌, ap, inl, inr, false, none, some, List, length, arith, ◌+◌, min,
}
use openclaw_rust_node.Base.Results.{Result, ok, err, Result-cases}
use openclaw_rust_node.Sidecar.Protocol.{
  SidecarPeerRole, SidecarProtocolOffer, NegotiatedSidecarProtocol, SidecarProtocolSelection,
  supervisor, runtime, selection_of, negotiate_sidecar_protocol,
}
use openclaw_rust_node.Sidecar.Protocol.Negotiation.{negotiate-ok_iff}
use openclaw_rust_node.Sidecar.Frame.{SidecarFrameError, Codec}
use openclaw_rust_node.Sidecar.Channel.{
  Channel, open_, seal, seal_frame, apply_negotiated_protocol, lower_frame_limit,
  minimum_frame_bytes,
}
use openclaw_rust_node.Sidecar.Channel.RoundTrip.{seal_frame-ok}
use openclaw_rust_node.Sidecar.Handshake.{
  starting, awaiting_acceptance, acceptance_pending, authenticated, HandshakeMessage, offer, accept,
  Handshake, local_role, validate_peer_identity, bind_to, bind_channel, fail, check_offer,
  confirmed, confirm_runtime, commit, complete_acceptance, start_sealed, start, accept_sealed,
  accept_supervisor, dispatch, receive_opened, settle, receive,
}

pub confirmed-agreed :
    (x : Handshake) (c : Channel) (o : SidecarProtocolOffer) (n m : NegotiatedSidecarProtocol)
    {applied : Channel}
    → o.peer.role ≡ runtime
    → validate_peer_identity o ≡ ok tt
    → negotiate_sidecar_protocol x.local_offer o ≡ ok m
    → selection_of m ≡ selection_of n
    → apply_negotiated_protocol c m ≡ ok applied
    → confirmed x c o (selection_of n) ≡ ok (m, applied)
unfolding confirmed check_offer
confirmed-agreed x c o n m role identity negotiated same applied = ground arith

pub apply-ok :
    (c : Channel) (local remote : SidecarProtocolOffer) {m : NegotiatedSidecarProtocol}
    → negotiate_sidecar_protocol local remote ≡ ok m
    → c.frame_limit_locked ≡ false
    → minimum_frame_bytes (length c.session_id)
      ≤ min local.limits.max_frame_bytes remote.limits.max_frame_bytes
    → min local.limits.max_frame_bytes remote.limits.max_frame_bytes ≤ c.max_frame_bytes
    → apply_negotiated_protocol c m
      ≡ ok (record c {
        max_frame_bytes = m.limits.max_frame_bytes;
        protocol_minor = m.protocol_minor;
      })
unfolding apply_negotiated_protocol lower_frame_limit
apply-ok c local remote e unlocked least most =
    ground (arith, (negotiate-ok_iff local remote _).0 e)

pub check_offer-negotiates :
    (y : Handshake) (role : SidecarPeerRole) (o : SidecarProtocolOffer)
    {n : NegotiatedSidecarProtocol}
    → check_offer y role o ≡ ok n
    → negotiate_sidecar_protocol y.local_offer o ≡ ok n
unfolding check_offer
check_offer-negotiates y role o h = ground arith

-- The runtime commits what is pending on its own channel.
pub complete_acceptance-commits :
    (y : Handshake) (r applied : Channel) (n : NegotiatedSidecarProtocol)
    → y.channel_instance_id ≡ some r.instance_id
    → r.role ≡ runtime
    → r.retired ≡ false
    → y.state ≡ acceptance_pending
    → y.pending_negotiated ≡ some n
    → apply_negotiated_protocol r n ≡ ok applied
    → ((complete_acceptance y r).0.state ≡ authenticated)
      × ((complete_acceptance y r).0.negotiated ≡ some n)
      × ((complete_acceptance y r).1 ≡ applied)
unfolding complete_acceptance bind_channel bind_to commit
complete_acceptance-commits y r applied n i role live state pending e = ground arith

module _ (hmac : List ℕ → List ℕ → List ℕ) (codec : Codec HandshakeMessage) where
  pub start_sealed-ok :
      (x : Handshake) (sealed : Channel × Result SidecarFrameError (List ℕ)) {bytes : List ℕ}
      → (start_sealed hmac codec x sealed).2 ≡ ok bytes
      → (sealed.1 ≡ ok bytes)
        × (start_sealed hmac codec x sealed
            ≡ (record x { state = awaiting_acceptance }, sealed.0, ok bytes))
  unfolding start_sealed fail
  start_sealed-ok x (c, ok b) h = ground arith
  start_sealed-ok x (c, err e) h = absurd (ground arith)

  pub start_enters :
      (x : Handshake) (s : Channel)
      → x.channel_instance_id ≡ none
      → s.role ≡ supervisor
      → local_role x ≡ supervisor
      → x.state ≡ starting
      → start hmac codec x s
        ≡ start_sealed hmac codec
            (record x { channel_instance_id = some s.instance_id })
            (seal hmac codec s (offer x.local_offer))
  unfolding start bind_channel bind_to
  start_enters x s i j role state = ground arith

  accept_sealed-ok :
      (y : Handshake) (n : NegotiatedSidecarProtocol)
      (sealed : Channel × Result SidecarFrameError (List ℕ)) {bytes : List ℕ}
      → (accept_sealed hmac codec y n sealed).2 ≡ ok bytes
      → (sealed.1 ≡ ok bytes)
        × (accept_sealed hmac codec y n sealed ≡ (
          record y { pending_negotiated = some n; state = acceptance_pending },
          sealed.0,
          ok bytes,
        ))
  unfolding accept_sealed
  accept_sealed-ok y n (c, ok b) h = ground arith
  accept_sealed-ok y n (c, err e) h = absurd (ground arith)

  -- A runtime that opened an offer answers with the sealed acceptance, or not at all.
  pub receive_offer :
      (y : Handshake) (r r' : Channel) (o : SidecarProtocolOffer) (bytes : List ℕ) {reply : List ℕ}
      → y.channel_instance_id ≡ none
      → r.role ≡ runtime
      → local_role y ≡ runtime
      → y.state ≡ starting
      → open_ hmac codec r bytes ≡ (r', ok (offer o))
      → (receive hmac codec y r bytes).2 ≡ ok (some reply)
      → (n : NegotiatedSidecarProtocol) × (check_offer y supervisor o ≡ ok n)
        × ((seal hmac codec r' (accept y.local_offer (selection_of n))).1 ≡ ok reply)
        × ((receive hmac codec y r bytes).0 ≡ record y {
          channel_instance_id = some r.instance_id;
          pending_negotiated = some n;
          state = acceptance_pending;
        })
        × ((receive hmac codec y r bytes).1
            ≡ (seal hmac codec r' (accept y.local_offer (selection_of n))).0)
  unfolding receive bind_channel bind_to receive_opened dispatch accept_supervisor accept_sealed
      settle fail check_offer
  receive_offer y r r' o bytes i j role state opened h =
      elim (Result-cases (check_offer y supervisor o)) [
        | inr (e, f) ↦ absurd (ground arith)
        | inl (n, f) ↦
            elim (Result-cases (seal hmac codec r' (accept y.local_offer (selection_of n))).1) [
              | inr (e, g) ↦ absurd (ground arith)
              | inl (b, g) ↦ (n, f, ground arith, ground arith, ground arith)
            ]
      ]

  -- A supervisor that opened a confirmed acceptance is authenticated.
  pub receive_acceptance :
      (x : Handshake) (s s' applied : Channel) (o : SidecarProtocolOffer)
      (selection : SidecarProtocolSelection) (m : NegotiatedSidecarProtocol) (bytes : List ℕ)
      → x.channel_instance_id ≡ some s.instance_id
      → s.role ≡ supervisor
      → local_role x ≡ supervisor
      → x.state ≡ awaiting_acceptance
      → open_ hmac codec s bytes ≡ (s', ok (accept o selection))
      → confirmed x s' o selection ≡ ok (m, applied)
      → receive hmac codec x s bytes
        ≡ (record x { negotiated = some m; state = authenticated }, applied, ok none)
  unfolding receive bind_channel bind_to receive_opened dispatch confirm_runtime settle
  receive_acceptance x s s' applied o selection m bytes i j role state opened done = ground arith

  pub seal-advances :
      (c : Channel) (m : HandshakeMessage) {bytes : List ℕ}
      → (seal hmac codec c m).1 ≡ ok bytes
      → (seal hmac codec c m).0 ≡ record c { send_sequence = c.send_sequence + 1 }
  unfolding seal
  seal-advances c m h = elim (Result-cases (seal_frame hmac codec c m)) [
    | inl (a, e) ↦
        rw (e, seal) (ap (λ n. record c { send_sequence = n }) (seal_frame-ok hmac codec c m e).0)
    | inr (f, e) ↦ absurd (ground arith)
  ]
