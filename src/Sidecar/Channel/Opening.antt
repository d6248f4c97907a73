-- ===== src/Sidecar/Channel/Opening.antt =====
-- What opening a frame does to a channel, accepted or refused.
use openclaw_rust_node.Base.{
  ℕ, ◌+◌, ◌-◌, ◌≤◌, ◌≡◌, true, false, inl, inr, List, length, arith, drop, take,
}
use openclaw_rust_node.Base.Bytes.{bytes_eq_sound}
use openclaw_rust_node.Base.Results.{ok, err, Result-cases}
use openclaw_rust_node.Sidecar.Frame.{SidecarFrameError, channel_retired, auth_tag_bytes, Codec}
use openclaw_rust_node.Sidecar.Channel.{
  Channel, retire, seal_frame, seal, authenticated_part, read_frame, open_active, open_,
}

-- The sequence number that is read is the one that was due.
read_frame_sequence :
    (c : Channel) (bytes : List ℕ) {s : ℕ} {payload : List ℕ}
    → read_frame c bytes ≡ ok (s, payload)
    → s ≡ c.receive_sequence + 1
unfolding read_frame
read_frame_sequence c bytes h = ground arith

authenticated_part-ok :
    (hmac : List ℕ → List ℕ → List ℕ) (c : Channel) (frame : List ℕ) {a : List ℕ}
    → authenticated_part hmac c frame ≡ ok a
    → (a ≡ take (length frame - auth_tag_bytes) frame)
      × (drop (length frame - auth_tag_bytes) frame ≡ hmac c.key a)
      × (length frame ≤ c.max_frame_bytes)
unfolding authenticated_part
authenticated_part-ok hmac c frame h = ground (
  arith,
  bytes_eq_sound (drop (length frame - auth_tag_bytes) frame)
      (hmac c.key (take (length frame - auth_tag_bytes) frame)),
)

module _ (hmac : List ℕ → List ℕ → List ℕ) {T : Type 0} (codec : Codec T) where
  pub open_active-ok :
      (c : Channel) (frame : List ℕ) {s : ℕ} {v : T}
      → open_active hmac codec c frame ≡ ok (s, v)
      → (s ≡ c.receive_sequence + 1)
        × (length frame ≤ c.max_frame_bytes)
        × (drop (length frame - auth_tag_bytes) frame
            ≡ hmac c.key (take (length frame - auth_tag_bytes) frame))
  unfolding open_active
  open_active-ok c frame h = elim (Result-cases (authenticated_part hmac c frame)) [
    | inl (a, e) ↦ elim (Result-cases (read_frame c a)) [
      | inl ((s', p), e') ↦
          ground (arith, read_frame_sequence c a e', authenticated_part-ok hmac c frame e)
      | inr (x, e') ↦ ground arith
    ]
    | inr (x, e) ↦ ground arith
  ]

  pub open_active-read :
      (c : Channel) (frame : List ℕ) {s : ℕ} {v : T}
      → open_active hmac codec c frame ≡ ok (s, v)
      → (a : List ℕ) × (p : List ℕ) × (authenticated_part hmac c frame ≡ ok a)
        × (read_frame c a ≡ ok (s, p))
  unfolding open_active
  open_active-read c frame {s} {v} h = elim (Result-cases (authenticated_part hmac c frame)) [
    | inl (a, e) ↦ elim (Result-cases (read_frame c a)) [
      | inl ((s', p), e') ↦ (a, p, e, ground arith)
      | inr (x, e') ↦ absurd (ground arith)
    ]
    | inr (x, e) ↦ absurd (ground arith)
  ]

  -- A frame that is opened carries the tag of its bytes under the key, is within the limit, and moves
  -- the receive sequence on by one; nothing else of the channel changes.
  pub open-ok :
      (c : Channel) (frame : List ℕ) {v : T}
      → (open_ hmac codec c frame).1 ≡ ok v
      → ((open_ hmac codec c frame).0 ≡ record c { receive_sequence = c.receive_sequence + 1 })
        × (c.retired ≡ false)
        × (length frame ≤ c.max_frame_bytes)
        × (drop (length frame - auth_tag_bytes) frame
            ≡ hmac c.key (take (length frame - auth_tag_bytes) frame))
  unfolding open_
  open-ok c frame h = elim (Result-cases (open_active hmac codec c frame)) [
    | inl ((s, v), e) ↦ ground (arith, open_active-ok c frame e)
    | inr (x, e) ↦ ground arith
  ]

  -- A frame that an open channel refuses retires the channel and wipes its key; the sequences stay.
  pub open-err :
      (c : Channel) (frame : List ℕ) {e : SidecarFrameError}
      → c.retired ≡ false
      → (open_ hmac codec c frame).1 ≡ err e
      → (open_ hmac codec c frame).0 ≡ retire c
  unfolding open_
  open-err c frame r h = ground arith

  -- A retired channel neither seals nor opens, and stays as it is.
  pub retired_absorbs :
      (c : Channel) (frame : List ℕ) (payload : T)
      → c.retired ≡ true
      → (open_ hmac codec c frame ≡ (c, err channel_retired))
        × (seal hmac codec c payload ≡ (c, err channel_retired))
  unfolding open_ seal seal_frame
  retired_absorbs c frame payload h = ground arith
