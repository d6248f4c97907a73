-- ===== src/Tests/ChannelTests.antt =====
-- Two channels of one session, with a toy tag of 32 bytes and bytes as payload.
use openclaw_rust_node.Base.{
  ℕ, ◌+◌, ◌≤◌, true, false, ◌≡◌, refl, ap, some, List, [], ◌∷◌, length, arith,
}
use openclaw_rust_node.Base.Bytes.{length-to_be_bytes, to_be_bytes}
use openclaw_rust_node.Base.Results.{Result, ok, err}
use openclaw_rust_node.Sidecar.Protocol.{
  SidecarPeerRole, supervisor, runtime, expected_remote, outgoing_direction, wire_value,
  SidecarProtocolOffer, NegotiatedSidecarProtocol, negotiate_sidecar_protocol, selection_of, agreed,
}
use openclaw_rust_node.Sidecar.Protocol.Negotiation.{
  IsAgreed, negotiate_agrees, negotiate_symmetric,
}
use openclaw_rust_node.Sidecar.Frame.{Codec, SidecarFrameError, write_payload, write_pieces, write}
use openclaw_rust_node.Sidecar.Channel.{
  Channel, retire, header, patch_length, seal, open_, seal_frame,
}
use openclaw_rust_node.Sidecar.Channel.Opening.{open-ok}
use openclaw_rust_node.Sidecar.Channel.Replay.{replay_refused}
use openclaw_rust_node.Sidecar.Channel.RoundTrip.{AreInStep, IsInRange, open-seal}

abbrev pub toy_tag : List ℕ → List ℕ → List ℕ
toy_tag key message = to_be_bytes 32 (length key + length message)

abbrev bytes_codec : Codec (List ℕ)
bytes_codec = record { pieces = λ v. v ∷ []; complete = λ _. true; parse = some }

abbrev pub channel_of : SidecarPeerRole → Channel
channel_of role = record {
  instance_id = 1;
  role = role;
  protocol_minor = 0;
  session_id = 7 ∷ 8 ∷ [];
  generation = 3;
  key = 1 ∷ 2 ∷ 3 ∷ [];
  max_frame_bytes = 128;
  frame_limit_locked = false;
  send_sequence = 0;
  receive_sequence = 0;
  retired = false;
}

abbrev sent : Channel × Result SidecarFrameError (List ℕ)
sent = seal toy_tag bytes_codec (channel_of supervisor) (42 ∷ [])

abbrev pub bytes_of : Result SidecarFrameError (List ℕ) → List ℕ
bytes_of (ok f) = f
bytes_of (err e) = []

abbrev wire : List ℕ
wire = bytes_of sent.1

sealing : sent.1 ≡ ok wire
unfolding seal seal_frame write_payload write_pieces write header patch_length to_be_bytes
    outgoing_direction wire_value
sealing = refl

pub in_step : AreInStep (channel_of supervisor) (channel_of runtime)
unfolding expected_remote
in_step = record {
  roles = refl;
  minors = refl;
  sessions = refl;
  generations = refl;
  keys = refl;
  limits = omega arith;
  sequences = refl;
  live = refl;
}

in_range : IsInRange (channel_of supervisor)
in_range = omega arith

open-seal_example :
    open_ toy_tag bytes_codec (channel_of runtime) wire
    ≡ (record (channel_of runtime) { receive_sequence = 1 }, ok (42 ∷ []))
open-seal_example =
    (open-seal toy_tag bytes_codec (channel_of supervisor) (channel_of runtime) (42 ∷ [])
      (λ key message. length-to_be_bytes 32 (length key + length message)) refl in_range in_step
      sealing).0

opened : (open_ toy_tag bytes_codec (channel_of runtime) wire).1 ≡ ok (42 ∷ [])
opened = ap (λ r. r.1) open-seal_example

open-ok_example : length wire ≤ 128
open-ok_example = (open-ok toy_tag bytes_codec (channel_of runtime) wire opened).2

replay_refused_example :
    let d = (open_ toy_tag bytes_codec (channel_of runtime) wire).0 in
    (e : SidecarFrameError) × (open_ toy_tag bytes_codec d wire ≡ (retire d, err e))
replay_refused_example = replay_refused toy_tag bytes_codec (channel_of runtime) wire opened

abbrev pub offer_by : SidecarPeerRole → ℕ → SidecarProtocolOffer
offer_by role features = record {
  protocol_major = 1;
  protocol_minor = 0;
  peer = record { role = role; name = "peer"; version = "1.0"; artifact_identity = "sha" };
  feature_bits = features;
  limits = record { max_frame_bytes = 128; max_in_flight = 4; bootstrap_timeout_ms = 500 };
}

negotiated :
    negotiate_sidecar_protocol (offer_by supervisor 6) (offer_by runtime 3)
    ≡ ok (agreed (offer_by supervisor 6) (offer_by runtime 3))
unfolding negotiate_sidecar_protocol
negotiated = refl

negotiate_agrees_example :
    IsAgreed
      (offer_by supervisor 6)
      (offer_by runtime 3)
      (agreed (offer_by supervisor 6) (offer_by runtime 3))
negotiate_agrees_example =
    ((negotiate_agrees (offer_by supervisor 6) (offer_by runtime 3)
        (agreed (offer_by supervisor 6) (offer_by runtime 3))).0
      negotiated).1

negotiate_symmetric_example :
    (m : NegotiatedSidecarProtocol) × (negotiate_sidecar_protocol
        (offer_by runtime 3)
        (offer_by supervisor 6)
      ≡ ok m)
    × (selection_of m ≡ selection_of (agreed (offer_by supervisor 6) (offer_by runtime 3)))
negotiate_symmetric_example =
    negotiate_symmetric (offer_by supervisor 6) (offer_by runtime 3) negotiated (omega arith)
