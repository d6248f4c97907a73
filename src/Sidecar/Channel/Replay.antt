-- ===== src/Sidecar/Channel/Replay.antt =====
-- A frame is good for one opening.
use openclaw_rust_node.Base.{ℕ, ◌+◌, ◌≡◌, refl, ap, ◌∙◌, false, inl, inr, List, arith}
use openclaw_rust_node.Base.Results.{ok, err, Result-cases}
use openclaw_rust_node.Sidecar.Frame.{SidecarFrameError, Codec}
use openclaw_rust_node.Sidecar.Channel.{
  Channel, retire, authenticated_part, read_frame, open_active, open_,
}
use openclaw_rust_node.Sidecar.Channel.Opening.{open-ok, open_active-ok, open_active-read}

-- Two channels that read the same bytes read the same sequence number.
read_frame_same :
    (c d : Channel) (bytes : List ℕ) {s t : ℕ} {p q : List ℕ}
    → read_frame c bytes ≡ ok (s, p)
    → read_frame d bytes ≡ ok (t, q)
    → s ≡ t
unfolding read_frame
read_frame_same c d bytes h k = ground arith

module _ (hmac : List ℕ → List ℕ → List ℕ) {T : Type 0} (codec : Codec T) where
  -- Two channels that open the same frame were due the same sequence number, if their keys and limits
  -- agree.
  same_frame_same_sequence :
      (c d : Channel) (frame : List ℕ) {s t : ℕ} {v w : T}
      → authenticated_part hmac d frame ≡ authenticated_part hmac c frame
      → open_active hmac codec c frame ≡ ok (s, v)
      → open_active hmac codec d frame ≡ ok (t, w)
      → c.receive_sequence ≡ d.receive_sequence
  same_frame_same_sequence c d frame {s} {t} same h k =
      let (a, p, e, r) = open_active-read hmac codec c frame h in
      let (b, q, e', r') = open_active-read hmac codec d frame k in
      let ab : a ≡ b = ground (arith, e, e', same) in
      let st : s ≡ t = read_frame_same c d a {q = q} r (ap (read_frame d) ab ∙ r') in
      omega (arith, st, open_active-ok hmac codec c frame h, open_active-ok hmac codec d frame k)

  authenticated_later :
      (c : Channel) (frame : List ℕ) (n : ℕ)
      → authenticated_part hmac (record c { receive_sequence = n }) frame
        ≡ authenticated_part hmac c frame
  unfolding authenticated_part
  authenticated_later c frame n = refl

  open-active :
      (c : Channel) (frame : List ℕ) {v : T}
      → (open_ hmac codec c frame).1 ≡ ok v
      → (s : ℕ) × (open_active hmac codec c frame ≡ ok (s, v))
  unfolding open_
  open-active c frame h = elim (Result-cases (open_active hmac codec c frame)) [
    | inl ((s, w), e) ↦ (s, ground arith)
    | inr (x, e) ↦ absurd (ground arith)
  ]

  refused_later :
      (c d : Channel) (frame : List ℕ) {v : T}
      → d ≡ record c { receive_sequence = c.receive_sequence + 1 }
      → c.retired ≡ false
      → (open_ hmac codec c frame).1 ≡ ok v
      → (e : SidecarFrameError) × (open_ hmac codec d frame ≡ (retire d, err e))
  unfolding open_
  refused_later c d frame at live h = elim (Result-cases (open_active hmac codec d frame)) [
    | inl ((t, w), e) ↦
        let first = open-active c frame h in
        let same =
          ap (λ k. authenticated_part hmac k frame) at
          ∙ authenticated_later c frame (c.receive_sequence + 1) in
        absurd (
          omega (
            arith,
            same_frame_same_sequence c d frame same first.1 e,
            ap (λ k. k.receive_sequence) at,
          ))
    | inr (x, e) ↦ (x, ground arith)
  ]

  -- The channel after it opened a frame refuses the same frame, by any error, and is retired by it.
  pub replay_refused :
      (c : Channel) (frame : List ℕ) {v : T}
      → (open_ hmac codec c frame).1 ≡ ok v
      → let d = (open_ hmac codec c frame).0 in
        (e : SidecarFrameError) × (open_ hmac codec d frame ≡ (retire d, err e))
  replay_refused c frame h =
      let done = open-ok hmac codec c frame h in
      refused_later c (open_ hmac codec c frame).0 frame done.0 done.1 h
