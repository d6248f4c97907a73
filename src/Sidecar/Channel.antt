-- ===== src/Sidecar/Channel.antt =====
-- `AuthenticatedSidecarChannel` (sidecar_protocol.rs): the state, the frames that it seals and
-- opens. A method that mutates the channel returns the new one.
pub mod Opening
pub mod Replay
pub mod RoundTrip
use openclaw_rust_node.Base.{
  ℕ, ◌+◌, ◌-◌, Bool, true, false, not, ◌||◌, ◌==◌, ltb, leb, if◌then◌else◌, List, ◌∷◌, ◌++◌, map,
  length, take, drop, checked_add, saturating_add, u16_max, u32_max, u64_max, ◌>>=◌ as and_then,
}
use openclaw_rust_node.Base.Bytes.{to_be_bytes, from_be_bytes, bytes_eq}
use openclaw_rust_node.Base.Results.{Result, ok, err, ◌>>=◌, ◌>>◌, fail_if, ok_or}
use openclaw_rust_node.Sidecar.Protocol.{
  SidecarPeerRole, SidecarDirection, supervisor_to_runtime, runtime_to_supervisor,
  outgoing_direction, expected_remote, wire_value, SidecarProtocolError,
  channel_instance_id_exhausted, invalid_limit, invalid_generation, limit_increase,
  frame_limit_locked, unsupported_major, unsupported_local_minor, sidecar_protocol_major,
  sidecar_protocol_minor, NegotiatedSidecarProtocol,
}
use openclaw_rust_node.Sidecar.Protocol
use openclaw_rust_node.Sidecar.Frame.{
  SidecarFrameError, authentication, channel_retired, frame_too_large, invalid_direction,
  invalid_magic, invalid_session_id, wrong_generation, wrong_session, wrong_direction,
  sequence_exhausted, unexpected_sequence, truncated, trailing_bytes, unsupported_version,
  deserialize, frame_magic, auth_tag_bytes, fixed_header_bytes, payload_length_offset, Codec,
  write_payload, take_slice,
}

-- `retired` is the value of the liveness watch, which every clone of it reads.
pub record Channel : Type 0 where
  pub instance_id : ℕ
  pub role : SidecarPeerRole
  pub protocol_minor : ℕ
  pub session_id : List ℕ
  pub generation : ℕ
  pub key : List ℕ
  pub max_frame_bytes : ℕ
  pub frame_limit_locked : Bool
  pub send_sequence : ℕ
  pub receive_sequence : ℕ
  pub retired : Bool

unfoldable pub minimum_frame_bytes : ℕ → ℕ
minimum_frame_bytes session_id_bytes = fixed_header_bytes + session_id_bytes + auth_tag_bytes + 1

-- `new`, at a value of the process-wide counter of instances; the new value is returned too.
unfoldable pub new :
    ℕ → SidecarPeerRole → List ℕ → ℕ → List ℕ → ℕ → Result SidecarProtocolError (Channel × ℕ)
unfolding minimum_frame_bytes
new next_instance_id role session_id generation key max_frame_bytes = do
  fail_if (length session_id == 0 || ltb u16_max (length session_id)) Protocol.invalid_session_id
  fail_if (generation == 0) invalid_generation
  fail_if (ltb max_frame_bytes (minimum_frame_bytes (length session_id)))
      (invalid_limit "maxFrameBytes")
  next ← ok_or (checked_add next_instance_id 1) channel_instance_id_exhausted
  ok (
    record {
      instance_id = next_instance_id;
      role = role;
      protocol_minor = 0;
      session_id = session_id;
      generation = generation;
      key = key;
      max_frame_bytes = max_frame_bytes;
      frame_limit_locked = false;
      send_sequence = 0;
      receive_sequence = 0;
      retired = false;
    },
    next,
  )

-- The key is overwritten by zeros.
unfoldable pub retire : Channel → Channel
retire c = record c { key = map (λ _. 0) c.key; retired = true }

unfoldable pub max_payload_bytes : Channel → ℕ
max_payload_bytes c = c.max_frame_bytes - fixed_header_bytes - length c.session_id - auth_tag_bytes

unfoldable pub lock_frame_limit : Channel → Channel
lock_frame_limit c = record c { frame_limit_locked = true }

unfoldable pub lower_frame_limit : Channel → ℕ → Result SidecarProtocolError Channel
unfolding minimum_frame_bytes
lower_frame_limit c negotiated_max_frame_bytes = do
  fail_if c.frame_limit_locked frame_limit_locked
  fail_if (ltb negotiated_max_frame_bytes (minimum_frame_bytes (length c.session_id)))
      (invalid_limit "maxFrameBytes")
  fail_if (ltb c.max_frame_bytes negotiated_max_frame_bytes)
      (limit_increase c.max_frame_bytes negotiated_max_frame_bytes)
  ok (record c { max_frame_bytes = negotiated_max_frame_bytes })

unfoldable pub apply_negotiated_protocol :
    Channel → NegotiatedSidecarProtocol → Result SidecarProtocolError Channel
unfolding lower_frame_limit
apply_negotiated_protocol c negotiated = do
  fail_if (not (negotiated.protocol_major == sidecar_protocol_major))
      (unsupported_major sidecar_protocol_major negotiated.protocol_major)
  fail_if (ltb sidecar_protocol_minor negotiated.protocol_minor)
      (unsupported_local_minor negotiated.protocol_minor)
  lowered ← lower_frame_limit c negotiated.limits.max_frame_bytes
  ok (record lowered { protocol_minor = negotiated.protocol_minor })

unfoldable pub from_wire : ℕ → Result SidecarFrameError SidecarDirection
from_wire value =
    if value == 1
    then ok supervisor_to_runtime
    else if value == 2
    then ok runtime_to_supervisor
    else err (invalid_direction value)

abbrev pub same_direction : SidecarDirection → SidecarDirection → Bool
same_direction supervisor_to_runtime supervisor_to_runtime = true
same_direction runtime_to_supervisor runtime_to_supervisor = true
same_direction supervisor_to_runtime runtime_to_supervisor = false
same_direction runtime_to_supervisor supervisor_to_runtime = false

-- The frame up to the payload, its payload length still zero.
unfoldable pub header : Channel → ℕ → List ℕ
unfolding outgoing_direction wire_value
header c sequence =
    frame_magic
    ++ (to_be_bytes 2 sidecar_protocol_major
        ++ (to_be_bytes 2 c.protocol_minor
            ++ (wire_value (outgoing_direction c.role)
                ∷ (to_be_bytes 8 c.generation
                    ++ (to_be_bytes 8 sequence
                        ++ (to_be_bytes 2 (length c.session_id)
                            ++ (to_be_bytes 4 0 ++ c.session_id)))))))

-- The payload length, written over the zeros.
unfoldable pub patch_length : List ℕ → ℕ → List ℕ
patch_length frame payload_len =
    take payload_length_offset frame
    ++ (to_be_bytes 4 payload_len ++ drop (payload_length_offset + 4) frame)

-- The part of a frame that its tag authenticates. `hmac` is HMAC-SHA-256: the tag of a message under
-- a key.
unfoldable pub authenticated_part :
    (List ℕ → List ℕ → List ℕ) → Channel → List ℕ → Result SidecarFrameError (List ℕ)
authenticated_part hmac c frame = do
  fail_if (ltb c.max_frame_bytes (length frame)) (frame_too_large (length frame) c.max_frame_bytes)
  fail_if (ltb (length frame) (fixed_header_bytes + auth_tag_bytes)) truncated
  let authenticated = take (length frame - auth_tag_bytes) frame
  let supplied_tag = drop (length frame - auth_tag_bytes) frame
  fail_if (not (bytes_eq supplied_tag (hmac c.key authenticated))) authentication
  ok authenticated

-- The fields of the header in their order, each checked as it is read, and the payload.
unfoldable pub read_frame : Channel → List ℕ → Result SidecarFrameError (ℕ × List ℕ)
read_frame c authenticated = do
  (magic, rest) ← take_slice 4 authenticated
  fail_if (not (bytes_eq magic frame_magic)) invalid_magic
  (major, rest) ← take_slice 2 rest
  (minor, rest) ← take_slice 2 rest
  fail_if
      (not (from_be_bytes major == sidecar_protocol_major)
        || not (from_be_bytes minor == c.protocol_minor))
      (unsupported_version (from_be_bytes major) (from_be_bytes minor))
  (wire, rest) ← take_slice 1 rest
  direction ← from_wire (from_be_bytes wire)
  fail_if (not (same_direction direction (outgoing_direction (expected_remote c.role))))
      wrong_direction
  (generation, rest) ← take_slice 8 rest
  fail_if (not (from_be_bytes generation == c.generation))
      (wrong_generation c.generation (from_be_bytes generation))
  (sequence, rest) ← take_slice 8 rest
  expected_sequence ← ok_or (checked_add c.receive_sequence 1) sequence_exhausted
  fail_if (not (from_be_bytes sequence == expected_sequence))
      (unexpected_sequence expected_sequence (from_be_bytes sequence))
  (session_len, rest) ← take_slice 2 rest
  (payload_len, rest) ← take_slice 4 rest
  (session, rest) ← take_slice (from_be_bytes session_len) rest
  fail_if (not (bytes_eq session c.session_id)) wrong_session
  (payload, rest) ← take_slice (from_be_bytes payload_len) rest
  fail_if (not (length rest == 0)) trailing_bytes
  ok (from_be_bytes sequence, payload)

module _ (hmac : List ℕ → List ℕ → List ℕ) {T : Type 0} (codec : Codec T) where
  -- The next sequence number and the frame under it.
  unfoldable pub seal_frame : Channel → T → Result SidecarFrameError (ℕ × List ℕ)
  seal_frame c payload = do
    fail_if c.retired channel_retired
    sequence ← ok_or (checked_add c.send_sequence 1) sequence_exhausted
    minimum_capacity ←
        ok_or
          (and_then (checked_add fixed_header_bytes (length c.session_id))
            (λ size. checked_add size auth_tag_bytes))
          (frame_too_large u64_max c.max_frame_bytes)
    fail_if (leb c.max_frame_bytes minimum_capacity)
        (frame_too_large (saturating_add minimum_capacity 1) c.max_frame_bytes)
    fail_if (ltb u16_max (length c.session_id)) invalid_session_id
    let start = header c sequence
    written ← write_payload codec c.max_frame_bytes start payload
    let payload_len = length written - length start
    fail_if (ltb u32_max payload_len) (frame_too_large u64_max c.max_frame_bytes)
    let frame = patch_length written payload_len
    ok (sequence, frame ++ hmac c.key frame)

  unfoldable pub seal : Channel → T → Channel × Result SidecarFrameError (List ℕ)
  seal c payload = elim (seal_frame c payload) [
    | ok (sequence, frame) ↦ (record c { send_sequence = sequence }, ok frame)
    | err e ↦ (c, err e)
  ]

  unfoldable pub open_active : Channel → List ℕ → Result SidecarFrameError (ℕ × T)
  open_active c frame = do
    authenticated ← authenticated_part hmac c frame
    (sequence, payload) ← read_frame c authenticated
    decoded ← ok_or (codec.parse payload) deserialize
    ok (sequence, decoded)

  unfoldable pub open_ : Channel → List ℕ → Channel × Result SidecarFrameError T
  unfolding retire
  open_ c frame = if c.retired then (c, err channel_retired) else elim (open_active c frame) [
    | ok (sequence, decoded) ↦ (record c { receive_sequence = sequence }, ok decoded)
    | err e ↦ (retire c, err e)
  ]
