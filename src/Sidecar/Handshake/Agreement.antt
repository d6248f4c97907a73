-- ===== src/Sidecar/Handshake/Agreement.antt =====
-- A whole handshake: the offer, the acceptance, and what both sides hold at the end.
use openclaw_rust_node.Base.{
  ℕ, ◌≤◌, ◌≡◌, refl, sym, ap, ◌∙◌, false, none, some, List, length, arith, ◌+◌, min,
}
use openclaw_rust_node.Base.Results.{Result, ok}
use openclaw_rust_node.Sidecar.Protocol.{
  NegotiatedSidecarProtocol, SidecarProtocolSelection, supervisor, runtime, selection_of,
  negotiate_sidecar_protocol, sidecar_protocol_minor,
}
use openclaw_rust_node.Sidecar.Protocol.Negotiation.{negotiate_symmetric}
use openclaw_rust_node.Sidecar.Frame.{Codec, encoded, auth_tag_bytes}
use openclaw_rust_node.Sidecar.Channel.{Channel, open_, minimum_frame_bytes}
use openclaw_rust_node.Sidecar.Channel.RoundTrip.{AreInStep, IsInRange, open-seal}
use openclaw_rust_node.Sidecar.Handshake.States.{RunsUnder}
use openclaw_rust_node.Sidecar.Handshake.Delivery.{
  confirmed-agreed, apply-ok, check_offer-negotiates, complete_acceptance-commits, start_sealed-ok,
  start_enters, receive_offer, receive_acceptance, seal-advances,
}
use openclaw_rust_node.Sidecar.Handshake.{
  HandshakeError, starting, awaiting_acceptance, acceptance_pending, authenticated,
  HandshakeMessage, offer, accept, Handshake, local_role, validate_peer_identity,
  complete_acceptance, start, receive,
}

-- The two sides of a new session: unbound handshakes of valid offers, and channels in step both ways
-- under a bootstrap limit that the negotiated one may still lower.
pub record ArePeers (x y : Handshake) (s r : Channel) : Type 0 where
  pub forth : AreInStep s r
  pub back : AreInStep r s
  pub range : IsInRange s
  pub back_range : IsInRange r
  pub unbound : x.channel_instance_id ≡ none
  pub channel_role : s.role ≡ supervisor
  pub role : local_role x ≡ supervisor
  pub state : x.state ≡ starting
  pub unlocked : s.frame_limit_locked ≡ false
  pub minor : x.local_offer.protocol_minor ≤ sidecar_protocol_minor
  pub runtime_unbound : y.channel_instance_id ≡ none
  pub runtime_channel : r.role ≡ runtime
  pub runtime_role : local_role y ≡ runtime
  pub runtime_state : y.state ≡ starting
  pub runtime_unlocked : r.frame_limit_locked ≡ false
  pub runtime_identity : validate_peer_identity y.local_offer ≡ ok tt
  pub least :
      minimum_frame_bytes (length s.session_id)
      ≤ min x.local_offer.limits.max_frame_bytes y.local_offer.limits.max_frame_bytes
  pub most :
      min x.local_offer.limits.max_frame_bytes y.local_offer.limits.max_frame_bytes
      ≤ s.max_frame_bytes

module _ (hmac : List ℕ → List ℕ → List ℕ) (codec : Codec HandshakeMessage) where
  back_in_step :
      (x y : Handshake) (s r : Channel)
      → ArePeers x y s r
      → s.retired ≡ false
      → IsInRange (record r { receive_sequence = s.send_sequence + 1 })
        × AreInStep
            (record r { receive_sequence = s.send_sequence + 1 })
            (record s { send_sequence = s.send_sequence + 1 })
  back_in_step x y s r p live = ground arith

  authenticates_supervisor :
      (x y : Handshake) (s r : Channel) {m : NegotiatedSidecarProtocol}
      (n : NegotiatedSidecarProtocol) {k : ℕ} (reply : List ℕ)
      → ArePeers x y s r
      → negotiate_sidecar_protocol x.local_offer y.local_offer ≡ ok m
      → selection_of m ≡ selection_of n
      → open_ hmac codec (record s { send_sequence = s.send_sequence + 1 }) reply ≡ (
        record s { send_sequence = s.send_sequence + 1; receive_sequence = k },
        ok (accept y.local_offer (selection_of n)),
      )
      → receive hmac codec
          (record x { state = awaiting_acceptance; channel_instance_id = some s.instance_id })
          (record s { send_sequence = s.send_sequence + 1 })
          reply
        ≡ (
          record x {
            state = authenticated;
            channel_instance_id = some s.instance_id;
            negotiated = some m;
          },
          record s {
            send_sequence = s.send_sequence + 1;
            receive_sequence = k;
            max_frame_bytes = m.limits.max_frame_bytes;
            protocol_minor = m.protocol_minor;
          },
          ok none,
        )
  authenticates_supervisor x y s r {m} n {k} reply p mirrored same opened =
      let x' = record x { state = awaiting_acceptance; channel_instance_id = some s.instance_id } in
      let s' = record s { send_sequence = s.send_sequence + 1; receive_sequence = k } in
      receive_acceptance hmac codec x' _ s' _ y.local_offer (selection_of n) m reply refl
        p.channel_role p.role refl opened
        (confirmed-agreed x' s' y.local_offer n m p.runtime_role p.runtime_identity mirrored same
          (apply-ok s' x.local_offer y.local_offer mirrored p.unlocked p.least p.most))

  authenticates_runtime :
      (x y : Handshake) (s r : Channel) {n : NegotiatedSidecarProtocol} (i j : ℕ)
      → ArePeers x y s r
      → negotiate_sidecar_protocol y.local_offer x.local_offer ≡ ok n
      → let (y'', r'', _) =
          complete_acceptance
            (record y {
              channel_instance_id = some r.instance_id;
              pending_negotiated = some n;
              state = acceptance_pending;
            })
            (record r { receive_sequence = i; send_sequence = j }) in
        (y''.state ≡ authenticated) × (y''.negotiated ≡ some n) × RunsUnder n r''
  authenticates_runtime x y s r {n} i j p negotiated =
      let r' = record r { receive_sequence = i; send_sequence = j } in
      let applied =
        apply-ok r' y.local_offer x.local_offer negotiated p.runtime_unlocked
          (ground (arith, p.least)) (ground arith) in
      let (state, holds, channel) =
        complete_acceptance-commits _ r' _ n refl p.runtime_channel p.forth.live refl refl
          applied in
      (
        state,
        holds,
        record {
          limit = ap (λ c. c.max_frame_bytes) channel;
          minor = ap (λ c. c.protocol_minor) channel;
        },
      )

  -- The handshake of two peers of a new session succeeds: where the start and the runtime's answer to
  -- it each give a frame, the supervisor that receives the answer and the runtime that completes it
  -- are authenticated, hold negotiations with the same selection, and run their channels under them.
  -- A tag has 32 bytes, and the JSON texts of the offer and of the acceptances are read back.
  pub handshake_agrees :
      (x y x' y' : Handshake) (s r s' r' : Channel) {bytes reply : List ℕ}
      → ((key message : List ℕ) → length (hmac key message) ≡ auth_tag_bytes)
      → codec.parse (encoded codec (offer x.local_offer)) ≡ some (offer x.local_offer)
      → ((selection : SidecarProtocolSelection)
          → codec.parse (encoded codec (accept y.local_offer selection))
            ≡ some (accept y.local_offer selection))
      → ArePeers x y s r
      → start hmac codec x s ≡ (x', s', ok bytes)
      → receive hmac codec y r bytes ≡ (y', r', ok (some reply))
      → let (x'', s'', _) = receive hmac codec x' s' reply in
        let (y'', r'', _) = complete_acceptance y' r' in
        (m : NegotiatedSidecarProtocol) × (n : NegotiatedSidecarProtocol) × (selection_of m
          ≡ selection_of n)
        × ((x''.state ≡ authenticated) × (x''.negotiated ≡ some m) × RunsUnder m s'')
        × ((y''.state ≡ authenticated) × (y''.negotiated ≡ some n) × RunsUnder n r'')
  handshake_agrees x y x' y' s r s' r' {bytes} {reply} tag offer_read acceptance_read p h g =
      let entered = start_enters hmac codec x s p.unbound p.channel_role p.role p.state in
      let (sealed, started) =
        start_sealed-ok hmac codec (record x { channel_instance_id = some s.instance_id }) _
          (ap (λ o. o.2) (sym entered ∙ h)) in
      let sent = sym h ∙ entered ∙ started in
      let (opened, _) =
        open-seal hmac codec s r (offer x.local_offer) tag offer_read p.range p.forth sealed in
      let (n, checked, answer, held, channel) =
        receive_offer hmac codec y r _ x.local_offer bytes p.runtime_unbound p.runtime_channel
          p.runtime_role p.runtime_state opened (ap (λ o. o.2) g) in
      let negotiated = check_offer-negotiates y supervisor x.local_offer checked in
      let (m, mirrored, same) =
        negotiate_symmetric y.local_offer x.local_offer negotiated p.minor in
      let (range, step) = back_in_step x y s r p p.back.live in
      let (confirmation, _) =
        open-seal hmac codec _ (record s { send_sequence = s.send_sequence + 1 })
          (accept y.local_offer (selection_of n)) tag (acceptance_read _) range step answer in
      let done = authenticates_supervisor x y s r n reply p mirrored same confirmation in
      let received =
        ap {A = Handshake × Channel × Result HandshakeError (List ℕ)}
          (λ o. receive hmac codec o.0 o.1 reply) sent
        ∙ ap
            (λ c.
              receive hmac codec
                (record x { state = awaiting_acceptance; channel_instance_id = some s.instance_id })
                c reply)
            (seal-advances hmac codec s (offer x.local_offer) sealed)
        ∙ done in
      (
        m,
        n,
        same,
        (
          ap (λ o. o.0.state) received,
          ap (λ o. o.0.negotiated) received,
          record {
            limit = ap (λ o. o.1.max_frame_bytes) received;
            minor = ap (λ o. o.1.protocol_minor) received;
          },
        ),
        rw
            (
              sym (ap (λ o. o.0) g) ∙ held,
              sym (ap (λ o. o.1) g) ∙ channel ∙ seal-advances hmac codec _ _ answer,
            )
            (authenticates_runtime x y s r _ _ p negotiated),
      )
