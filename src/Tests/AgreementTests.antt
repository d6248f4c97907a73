-- ===== src/Tests/AgreementTests.antt =====
-- A whole handshake, with a codec that carries the selection.
use openclaw_rust_node.Base.{
  ℕ, ◌≡◌, refl, true, Option, none, some, zero, suc, List, [], ◌∷◌, ◌+◌, length, arith,
}
use openclaw_rust_node.Base.Bytes.{to_be_bytes, from_be_bytes, bytes_eq, length-to_be_bytes}
use openclaw_rust_node.Base.Results.{Result, ok, err}
use openclaw_rust_node.Sidecar.Protocol.{
  SidecarPeerRole, supervisor, runtime, expected_remote, outgoing_direction, wire_value,
  SidecarProtocolSelection, NegotiatedSidecarProtocol, selection_of, negotiate_sidecar_protocol,
  validate_limits,
}
use openclaw_rust_node.Sidecar.Frame.{Codec, write, write_pieces, write_payload, take_slice}
use openclaw_rust_node.Sidecar.Channel.{
  Channel, seal, seal_frame, header, patch_length, open_, open_active, authenticated_part,
  read_frame, from_wire, minimum_frame_bytes,
}
use openclaw_rust_node.Sidecar.Channel.RoundTrip.{AreInStep}
use openclaw_rust_node.Sidecar.Handshake.{
  Handshake, HandshakeError, HandshakeMessage, offer, accept, starting, authenticated, start,
  start_sealed, receive, receive_opened, dispatch, accept_supervisor, accept_sealed, settle,
  bind_channel, bind_to, check_offer, validate_peer_identity, complete_acceptance,
}
use openclaw_rust_node.Sidecar.Handshake.States.{RunsUnder}
use openclaw_rust_node.Sidecar.Handshake.Agreement.{ArePeers, handshake_agrees}
use openclaw_rust_node.Text.{trim, trim_start, trim_end, is_whitespace}
use openclaw_rust_node.Tests.ChannelTests.{toy_tag, channel_of, offer_by, in_step}

abbrev local : SidecarPeerRole → Handshake
local role = record {
  local_offer = offer_by role 6;
  state = starting;
  negotiated = none;
  pending_negotiated = none;
  channel_instance_id = none;
}

-- The six numbers of a selection, one each.
abbrev numbers : SidecarProtocolSelection → List ℕ
numbers s =
    s.protocol_major ∷ s.protocol_minor ∷ s.feature_bits ∷ s.limits.max_frame_bytes
    ∷ s.limits.max_in_flight ∷ s.limits.bootstrap_timeout_ms ∷ []

abbrev read_selection : List ℕ → Option HandshakeMessage
read_selection (a ∷ b ∷ c ∷ d ∷ e ∷ f ∷ []) = some (
    accept (offer_by runtime 6) (record {
      protocol_major = a;
      protocol_minor = b;
      feature_bits = c;
      limits = record { max_frame_bytes = d; max_in_flight = e; bootstrap_timeout_ms = f };
    }))
read_selection _ = none

abbrev read_message : List ℕ → Option HandshakeMessage
read_message (zero ∷ rest) = some (offer (offer_by supervisor 6))
read_message (suc k ∷ rest) = read_selection rest
read_message [] = none

abbrev selection_codec : Codec HandshakeMessage
selection_codec = record {
  pieces = λ m. elim m [ offer o ↦ (0 ∷ []) ∷ [] | accept o s ↦ (1 ∷ []) ∷ numbers s ∷ [] ];
  complete = λ _. true;
  parse = read_message;
}

abbrev frame_bytes : Result HandshakeError (List ℕ) → List ℕ
frame_bytes (ok bytes) = bytes
frame_bytes (err e) = []

abbrev reply_bytes : Result HandshakeError (Option (List ℕ)) → List ℕ
reply_bytes (ok (some bytes)) = bytes
reply_bytes _ = []

abbrev offered : Handshake × Channel × Result HandshakeError (List ℕ)
offered = start toy_tag selection_codec (local supervisor) (channel_of supervisor)

abbrev answered : Handshake × Channel × Result HandshakeError (Option (List ℕ))
answered =
    receive toy_tag selection_codec (local runtime) (channel_of runtime) (frame_bytes offered.2)

offer_sent : offered ≡ (offered.0, offered.1, ok (frame_bytes offered.2))
unfolding seal seal_frame write_payload write_pieces write header patch_length to_be_bytes
    outgoing_direction wire_value start start_sealed bind_channel bind_to
offer_sent = refl

answer_sent : answered ≡ (answered.0, answered.1, ok (some (reply_bytes answered.2)))
unfolding seal seal_frame write_payload write_pieces write header patch_length to_be_bytes
    outgoing_direction wire_value start start_sealed bind_channel bind_to receive receive_opened
    dispatch accept_supervisor accept_sealed settle check_offer validate_peer_identity
    negotiate_sidecar_protocol validate_limits open_ open_active authenticated_part read_frame
    take_slice bytes_eq from_be_bytes from_wire expected_remote trim trim_start trim_end
    is_whitespace
answer_sent = refl

back_in_step : AreInStep (channel_of runtime) (channel_of supervisor)
unfolding expected_remote
back_in_step = record {
  roles = refl;
  minors = refl;
  sessions = refl;
  generations = refl;
  keys = refl;
  limits = omega arith;
  sequences = refl;
  live = refl;
}

peers : ArePeers (local supervisor) (local runtime) (channel_of supervisor) (channel_of runtime)
unfolding minimum_frame_bytes validate_peer_identity trim trim_start trim_end is_whitespace
peers = record {
  forth = in_step;
  back = back_in_step;
  range = omega arith;
  back_range = omega arith;
  unbound = refl;
  channel_role = refl;
  role = refl;
  state = refl;
  unlocked = refl;
  minor = omega arith;
  runtime_unbound = refl;
  runtime_channel = refl;
  runtime_role = refl;
  runtime_state = refl;
  runtime_unlocked = refl;
  runtime_identity = refl;
  least = omega arith;
  most = omega arith;
}

handshake_agrees_example :
    (m : NegotiatedSidecarProtocol) × (n : NegotiatedSidecarProtocol) × (selection_of m
      ≡ selection_of n)
    × (((receive toy_tag selection_codec offered.0 offered.1 (reply_bytes answered.2)).0.state
          ≡ authenticated)
        × ((receive toy_tag selection_codec offered.0 offered.1
              (reply_bytes answered.2)).0.negotiated
            ≡ some m)
        × RunsUnder m
            (receive toy_tag selection_codec offered.0 offered.1 (reply_bytes answered.2)).1)
    × (((complete_acceptance answered.0 answered.1).0.state ≡ authenticated)
        × ((complete_acceptance answered.0 answered.1).0.negotiated ≡ some n)
        × RunsUnder n (complete_acceptance answered.0 answered.1).1)
handshake_agrees_example =
    handshake_agrees toy_tag selection_codec (local supervisor) (local runtime) offered.0 answered.0
      (channel_of supervisor) (channel_of runtime) offered.1 answered.1
      (λ key message. length-to_be_bytes 32 (length key + length message)) refl (λ selection. refl)
      peers offer_sent answer_sent
