-- ===== src/Tests/HandshakeTests.antt =====
-- A supervisor that waits for the acceptance of its offer, and the runtime's acceptance.
use openclaw_rust_node.Base.{ℕ, true, ◌≡◌, refl, none, some, zero, suc, List, [], ◌∷◌}
use openclaw_rust_node.Base.Bytes.{to_be_bytes, from_be_bytes, bytes_eq}
use openclaw_rust_node.Base.Results.{ok}
use openclaw_rust_node.Sidecar.Protocol.{
  supervisor, runtime, expected_remote, outgoing_direction, wire_value, SidecarProtocolOffer,
  NegotiatedSidecarProtocol, agreed, selection_of, negotiate_sidecar_protocol,
}
use openclaw_rust_node.Sidecar.Frame.{Codec, write, write_pieces, write_payload, take_slice}
use openclaw_rust_node.Sidecar.Channel.{
  header, patch_length, seal, seal_frame, authenticated_part, read_frame, from_wire, open_active,
  open_, apply_negotiated_protocol,
}
use openclaw_rust_node.Sidecar.Handshake.{
  awaiting_acceptance, HandshakeMessage, offer, accept, Handshake, local_role, receive, check_offer,
  confirmed,
}
use openclaw_rust_node.Sidecar.Handshake.States.{
  IsValid, EndsOnError, Confirmed, RunsUnder, is_authenticated, operations-IsValid, errors_end,
  receive_authenticates,
}
use openclaw_rust_node.Text.{trim}
use openclaw_rust_node.Tests.ChannelTests.{toy_tag, channel_of, bytes_of, offer_by}

abbrev ours : SidecarProtocolOffer
ours = offer_by supervisor 6

abbrev theirs : SidecarProtocolOffer
theirs = offer_by runtime 3

abbrev message_codec : Codec HandshakeMessage
message_codec = record {
  pieces = λ m. elim m [ offer o ↦ (1 ∷ []) ∷ [] | accept o s ↦ (2 ∷ []) ∷ [] ];
  complete = λ _. true;
  parse = λ bytes. elim bytes [
    | [] ↦ none
    | b ∷ _ ↦ elim b [
      | zero ↦ none
      | suc k ↦ elim k [
        | zero ↦ some (offer ours)
        | suc _ ↦ some (accept theirs (selection_of (agreed ours theirs)))
      ]
    ]
  ];
}

abbrev waiting : Handshake
waiting = record {
  local_offer = ours;
  state = awaiting_acceptance;
  negotiated = none;
  pending_negotiated = none;
  channel_instance_id = some 1;
}

abbrev acceptance : List ℕ
acceptance =
    bytes_of
      (seal toy_tag message_codec (channel_of runtime)
        (accept theirs (selection_of (agreed ours theirs)))).1

accepted_frame :
    is_authenticated
      (receive toy_tag message_codec waiting (channel_of supervisor) acceptance).0.state
    ≡ true
unfolding seal seal_frame write_payload write_pieces write header patch_length to_be_bytes
    outgoing_direction wire_value receive open_ open_active authenticated_part read_frame take_slice
    bytes_eq from_be_bytes from_wire expected_remote check_offer negotiate_sidecar_protocol
    apply_negotiated_protocol trim confirmed
accepted_frame = refl

receive_authenticates_example :
    (o : SidecarProtocolOffer) × (n : NegotiatedSidecarProtocol) × ((open_ toy_tag message_codec
        (channel_of supervisor)
        acceptance).1
      ≡ ok (accept o (selection_of n)))
    × (local_role waiting ≡ supervisor)
    × Confirmed waiting o n
    × ((receive toy_tag message_codec waiting (channel_of supervisor) acceptance).0.negotiated
        ≡ some n)
    × RunsUnder n (receive toy_tag message_codec waiting (channel_of supervisor) acceptance).1
receive_authenticates_example =
    receive_authenticates toy_tag message_codec waiting (channel_of supervisor) acceptance refl
      accepted_frame

operations-IsValid_example :
    IsValid (receive toy_tag message_codec waiting (channel_of supervisor) acceptance).0
operations-IsValid_example =
    (operations-IsValid toy_tag message_codec waiting (channel_of supervisor) acceptance
      (record { negotiated_held = refl; pending_held = refl })).1

errors_end_example :
    EndsOnError waiting (receive toy_tag message_codec waiting (channel_of supervisor) [])
errors_end_example = (errors_end toy_tag message_codec waiting (channel_of supervisor) []).1
