-- ===== src/Sidecar/Channel/RoundTrip.antt =====
-- A frame that one peer seals is opened by the other.
use mathlib.Core.List.{append-nil}
use openclaw_rust_node.Base.{
  ℕ, ◌+◌, ◌-◌, ◌≤◌, ◌<◌, ◌^◌, ◌≡◌, refl, sym, ap, ◌∙◌, true, false, inl, inr, some, List, [], ◌∷◌,
  ◌++◌, length, length-append, arith, u64_max, u32_max, drop, take, take-append, drop-append,
}
use openclaw_rust_node.Base.Bytes.{
  bytes_eq_refl, to_be_bytes, from_be_bytes, length-to_be_bytes, from_be_bytes-to_be_bytes,
}
use openclaw_rust_node.Base.Results.{ok, err, Result-cases}
use openclaw_rust_node.Sidecar.Protocol.{
  sidecar_protocol_major, outgoing_direction, expected_remote, wire_value, SidecarPeerRole,
  supervisor, runtime,
}
use openclaw_rust_node.Sidecar.Frame.{
  SidecarFrameError, frame_magic, auth_tag_bytes, fixed_header_bytes, Codec, encoded, write_payload,
  take_slice,
}
use openclaw_rust_node.Sidecar.Frame.Writer.{take_slice-append, write_payload-ok}
use openclaw_rust_node.Sidecar.Channel.{
  Channel, from_wire, same_direction, header, patch_length, seal_frame, seal, authenticated_part,
  read_frame, open_active, open_,
}

-- The authenticated bytes of a frame.
abbrev layout : Channel → ℕ → ℕ → List ℕ → List ℕ
layout c sequence payload_len payload =
    frame_magic
    ++ (to_be_bytes 2 sidecar_protocol_major
        ++ (to_be_bytes 2 c.protocol_minor
            ++ ((wire_value (outgoing_direction c.role) ∷ [])
                ++ (to_be_bytes 8 c.generation
                    ++ (to_be_bytes 8 sequence
                        ++ (to_be_bytes 2 (length c.session_id)
                            ++ (to_be_bytes 4 payload_len
                                ++ (c.session_id ++ (payload ++ [])))))))))

patch_layout :
    (c : Channel) (sequence n : ℕ) (payload : List ℕ)
    → patch_length (header c sequence ++ payload) n ≡ layout c sequence n payload
unfolding patch_length header to_be_bytes
patch_layout c sequence n payload = rw (append-nil payload) refl

take_be :
    (w n : ℕ) (rest : List ℕ) → take_slice w (to_be_bytes w n ++ rest) ≡ ok (to_be_bytes w n, rest)
take_be w n rest =
    ap (λ k. take_slice k (to_be_bytes w n ++ rest)) (sym (length-to_be_bytes w n))
    ∙ take_slice-append (to_be_bytes w n) rest

-- The peers of one session generation, the sender's next frame due at the receiver.
pub record AreInStep (sender receiver : Channel) : Type 0 where
  pub roles : sender.role ≡ expected_remote receiver.role
  pub minors : sender.protocol_minor ≡ receiver.protocol_minor
  pub sessions : sender.session_id ≡ receiver.session_id
  pub generations : sender.generation ≡ receiver.generation
  pub keys : sender.key ≡ receiver.key
  pub limits : sender.max_frame_bytes ≤ receiver.max_frame_bytes
  pub sequences : sender.send_sequence ≡ receiver.receive_sequence
  pub live : receiver.retired ≡ false

-- The fields of a channel fit their widths.
pub record IsInRange (c : Channel) : Type 0 where
  pub minor_range : c.protocol_minor < 2 ^ 16
  pub generation_range : c.generation < 2 ^ 64
  pub session_range : length c.session_id < 2 ^ 16

read_direction :
    (role : SidecarPeerRole)
    → from_wire (from_be_bytes (wire_value (outgoing_direction role) ∷ []))
      ≡ ok (outgoing_direction role)
unfolding from_wire from_be_bytes wire_value outgoing_direction
read_direction supervisor = refl
read_direction runtime = refl

expected_direction :
    (role : SidecarPeerRole)
    → same_direction
        (outgoing_direction (expected_remote role))
        (outgoing_direction (expected_remote role))
      ≡ true
unfolding outgoing_direction expected_remote
expected_direction supervisor = refl
expected_direction runtime = refl

read_layout :
    (s r : Channel) (n : ℕ) (payload : List ℕ)
    → AreInStep s r
    → IsInRange s
    → s.send_sequence + 1 < 2 ^ 64
    → n ≡ length payload
    → n < 2 ^ 32
    → read_frame r (layout s (s.send_sequence + 1) n payload) ≡ ok (s.send_sequence + 1, payload)
unfolding read_frame
read_layout s r n payload v g hs e hn =
    let p0 = payload ++ [] in
    let p1 = s.session_id ++ p0 in
    let p2 = to_be_bytes 4 n ++ p1 in
    let p3 = to_be_bytes 2 (length s.session_id) ++ p2 in
    let p4 = to_be_bytes 8 (s.send_sequence + 1) ++ p3 in
    let p5 = to_be_bytes 8 s.generation ++ p4 in
    let p6 = (wire_value (outgoing_direction s.role) ∷ []) ++ p5 in
    let p7 = to_be_bytes 2 s.protocol_minor ++ p6 in
    let p8 = to_be_bytes 2 sidecar_protocol_major ++ p7 in
    ground (
      arith,
      take_slice-append frame_magic p8,
      take_be 2 sidecar_protocol_major p7,
      take_be 2 s.protocol_minor p6,
      take_slice-append (wire_value (outgoing_direction s.role) ∷ []) p5,
      take_be 8 s.generation p4,
      take_be 8 (s.send_sequence + 1) p3,
      take_be 2 (length s.session_id) p2,
      take_be 4 n p1,
      take_slice-append s.session_id p0,
      take_slice-append payload [],
      from_be_bytes-to_be_bytes 2 sidecar_protocol_major,
      from_be_bytes-to_be_bytes 2 s.protocol_minor,
      from_be_bytes-to_be_bytes 8 s.generation,
      from_be_bytes-to_be_bytes 8 (s.send_sequence + 1),
      from_be_bytes-to_be_bytes 2 (length s.session_id),
      from_be_bytes-to_be_bytes 4 n,
      bytes_eq_refl frame_magic,
      bytes_eq_refl s.session_id,
      read_direction s.role,
      expected_direction r.role,
    )

length-header :
    (c : Channel) (sequence : ℕ)
    → length (header c sequence) ≡ fixed_header_bytes + length c.session_id
unfolding header to_be_bytes
length-header c sequence = omega arith

length-layout :
    (c : Channel) (sequence n : ℕ) (payload : List ℕ)
    → length (layout c sequence n payload)
      ≡ fixed_header_bytes + length c.session_id + length payload
unfolding to_be_bytes
length-layout c sequence n payload =
    omega (arith, length-append c.session_id (payload ++ []), length-append payload [])

authenticated_part-append :
    (hmac : List ℕ → List ℕ → List ℕ) (c : Channel) (a : List ℕ)
    → length (hmac c.key a) ≡ auth_tag_bytes
    → fixed_header_bytes ≤ length a
    → length a + auth_tag_bytes ≤ c.max_frame_bytes
    → authenticated_part hmac c (a ++ hmac c.key a) ≡ ok a
unfolding authenticated_part
authenticated_part-append hmac c a t l m =
    let tag = hmac c.key a in
    let n : length (a ++ tag) - auth_tag_bytes ≡ length a = omega (arith, t, length-append a tag) in
    ground (
      arith,
      length-append a tag,
      ap (λ k. take k (a ++ tag)) n ∙ take-append a tag,
      ap (λ k. drop k (a ++ tag)) n ∙ drop-append a tag,
      bytes_eq_refl tag,
    )

module _ (hmac : List ℕ → List ℕ → List ℕ) {T : Type 0} (codec : Codec T) where
  -- A sealed frame is the layout of the next sequence number with its tag.
  pub record IsSealed (c : Channel) (payload : T) (frame : List ℕ) : Type 0 where
    pub bytes :
        frame
        ≡ layout c (c.send_sequence + 1) (length (encoded codec payload)) (encoded codec payload)
          ++ hmac c.key (
              layout c
                (c.send_sequence + 1)
                (length (encoded codec payload))
                (encoded codec payload))
    pub fresh : c.send_sequence + 1 ≤ u64_max
    pub payload_range : length (encoded codec payload) ≤ u32_max
    pub size :
        fixed_header_bytes + length c.session_id + length (encoded codec payload) + auth_tag_bytes
        ≤ c.max_frame_bytes

  -- What the guards of `seal_frame` leave, once the payload is written.
  seal_frame_parts :
      (c : Channel) (payload : T) {s : ℕ} {frame w : List ℕ}
      → write_payload codec c.max_frame_bytes (header c (c.send_sequence + 1)) payload ≡ ok w
      → seal_frame hmac codec c payload ≡ ok (s, frame)
      → let n = length w - length (header c (c.send_sequence + 1)) in
        (s ≡ c.send_sequence + 1)
        × (frame ≡ patch_length w n ++ hmac c.key (patch_length w n))
        × (c.send_sequence + 1 ≤ u64_max)
        × (n ≤ u32_max)
        × (fixed_header_bytes + length c.session_id + auth_tag_bytes < c.max_frame_bytes)
        × (c.retired ≡ false)
  unfolding seal_frame
  seal_frame_parts c payload e h = ground arith

  seal_frame-unwritten :
      (c : Channel) (payload : T) {x : SidecarFrameError} {s : ℕ} {frame : List ℕ} {A : Type 0}
      → write_payload codec c.max_frame_bytes (header c (c.send_sequence + 1)) payload ≡ err x
      → seal_frame hmac codec c payload ≡ ok (s, frame)
      → A
  unfolding seal_frame
  seal_frame-unwritten c payload e h = absurd (ground arith)

  IsSealed-from :
      (c : Channel) (payload : T) {s : ℕ} {frame w : List ℕ}
      → write_payload codec c.max_frame_bytes (header c (c.send_sequence + 1)) payload ≡ ok w
      → seal_frame hmac codec c payload ≡ ok (s, frame)
      → (s ≡ c.send_sequence + 1) × IsSealed c payload frame × (c.retired ≡ false)
  IsSealed-from c payload {w = w} e h =
      let start = header c (c.send_sequence + 1) in
      let p = seal_frame_parts c payload e h in
      let body = encoded codec payload in
      let (we, wl) =
        write_payload-ok codec c.max_frame_bytes start payload
          (omega (arith, p.4, length-header c (c.send_sequence + 1))) e in
      let n : length w - length start ≡ length body =
        omega (arith, ap length we, length-append start body) in
      let patched =
        ap (patch_length w) n
        ∙ ap (λ l. patch_length l (length body)) we
        ∙ patch_layout c (c.send_sequence + 1) (length body) body in
      (
        p.0,
        record {
          bytes = p.1 ∙ ap (λ a. a ++ hmac c.key a) patched;
          fresh = p.2;
          payload_range = omega (arith, p.3, n);
          size = omega (
            arith,
            wl,
            ap length we,
            length-append start body,
            length-header c (c.send_sequence + 1),
          );
        },
        p.5,
      )

  pub seal_frame-ok :
      (c : Channel) (payload : T) {s : ℕ} {frame : List ℕ}
      → seal_frame hmac codec c payload ≡ ok (s, frame)
      → (s ≡ c.send_sequence + 1) × IsSealed c payload frame × (c.retired ≡ false)
  seal_frame-ok c payload h =
      elim (Result-cases
        (write_payload codec c.max_frame_bytes (header c (c.send_sequence + 1)) payload)) [
          | inl (w, e) ↦ IsSealed-from c payload e h
          | inr (x, e) ↦ seal_frame-unwritten c payload e h
        ]

  opened :
      (s r : Channel) (payload : T) (frame : List ℕ)
      → ((key message : List ℕ) → length (hmac key message) ≡ auth_tag_bytes)
      → codec.parse (encoded codec payload) ≡ some payload
      → IsInRange s
      → AreInStep s r
      → IsSealed s payload frame
      → open_ hmac codec r frame ≡ (record r { receive_sequence = s.send_sequence + 1 }, ok payload)
  unfolding open_ open_active
  opened s r payload frame tags back g v q =
      let body = encoded codec payload in
      let a = layout s (s.send_sequence + 1) (length body) body in
      let size = length-layout s (s.send_sequence + 1) (length body) body in
      let part : authenticated_part hmac r frame ≡ ok a =
        ap (authenticated_part hmac r) (q.bytes ∙ ap (λ k. a ++ hmac k a) v.keys)
        ∙ authenticated_part-append hmac r a (tags r.key a) (omega (arith, size))
            (omega (arith, size, q.size, v.limits)) in
      let read =
        read_layout s r (length body) body v g (omega (arith, q.fresh)) refl
          (omega (arith, q.payload_range)) in
      ground (arith, part, read)

  -- A frame that a peer in range seals is opened by the other, at the value that was sealed, provided
  -- that a tag has 32 bytes and the JSON text of the value is read back. The two stay in step.
  pub open-seal :
      (s r : Channel) (payload : T) {frame : List ℕ}
      → ((key message : List ℕ) → length (hmac key message) ≡ auth_tag_bytes)
      → codec.parse (encoded codec payload) ≡ some payload
      → IsInRange s
      → AreInStep s r
      → (seal hmac codec s payload).1 ≡ ok frame
      → (open_ hmac codec r frame
          ≡ (record r { receive_sequence = s.send_sequence + 1 }, ok payload))
        × AreInStep (seal hmac codec s payload).0 (open_ hmac codec r frame).0
  unfolding seal
  open-seal s r payload tags back g v h = elim (Result-cases (seal_frame hmac codec s payload)) [
    | inl ((n, f), e) ↦
        let sealed = seal_frame-ok s payload e in
        let done = opened s r payload f tags back g v sealed.1 in
        let next = sealed.0 in ground (arith, done, next)
    | inr (x, e) ↦ absurd (ground arith)
  ]
