-- ===== src/Sidecar/Exchange/Acknowledgement.antt =====
-- The acknowledgement on its way from the runtime to the supervisor, and what configures a side.
use openclaw_rust_node.Base.{
  ℕ, String, ◌≡◌, refl, sym, ap, ◌∙◌, inl, inr, Bool, true, false, none, some, List, length, arith,
  Option-cases,
}
use openclaw_rust_node.Base.Results.{Result, ok, err, Result-cases}
use openclaw_rust_node.Sidecar.Protocol.{supervisor, runtime}
use openclaw_rust_node.Sidecar.Frame.{SidecarFrameError, Codec, encoded, auth_tag_bytes}
use openclaw_rust_node.Sidecar.Channel.{Channel, open_, seal, seal_frame, lock_frame_limit}
use openclaw_rust_node.Sidecar.Channel.RoundTrip.{AreInStep, IsInRange, open-seal}
use openclaw_rust_node.Sidecar.Messages.{
  SidecarRuntimeManifest, SidecarRuntimeMessage, configured_message,
}
use openclaw_rust_node.Sidecar.Exchange.Manifests.{manifest_eq_iff}
use openclaw_rust_node.Sidecar.Exchange.{
  ConfigurationState, awaiting_acknowledgement, acknowledgement_pending, configured, Exchange, fail,
  hold, on_channel, receive_configuration, dispatch, receive_opened, receive, acknowledge_sealed,
  acknowledge, complete_acknowledgement,
}

abbrev pub is_configured : ConfigurationState → Bool
is_configured configured = true
is_configured _ = false

-- The peers of an exchange whose runtime is to acknowledge the manifest that both expect.
pub record AreAgreed (m : SidecarRuntimeManifest) (x y : Exchange) (s r : Channel) : Type 0 where
  pub in_step : AreInStep r s
  pub in_range : IsInRange r
  pub live : r.retired ≡ false
  pub instance : s.instance_id ≡ x.channel_instance_id
  pub channel_role : s.role ≡ x.role
  pub role : x.role ≡ supervisor
  pub state : x.state ≡ awaiting_acknowledgement
  pub expects : x.expected_manifest ≡ some m
  pub runtime_instance : r.instance_id ≡ y.channel_instance_id
  pub runtime_channel : r.role ≡ y.role
  pub runtime_role : y.role ≡ runtime
  pub runtime_state : y.state ≡ awaiting_acknowledgement
  pub runtime_expects : y.expected_manifest ≡ some m

AreInStep-lock : (r s : Channel) → AreInStep r s → AreInStep r (lock_frame_limit s)
unfolding lock_frame_limit
AreInStep-lock r s p = ground arith

completes :
    (y : Exchange) (r : Channel)
    → r.instance_id ≡ y.channel_instance_id
    → y.role ≡ runtime
    → r.retired ≡ false
    → y.state ≡ acknowledgement_pending
    → ((complete_acknowledgement y r).0.state ≡ configured)
      × ((complete_acknowledgement y r).2 ≡ ok tt)
unfolding complete_acknowledgement on_channel
completes y r i role live state = ground arith

module _ (hmac : List ℕ → List ℕ → List ℕ) {V : Type 0} (codec : Codec (SidecarRuntimeMessage V))
    (failure_bytes : String → String → ℕ) where
  receive_opened_configures :
      (x : Exchange) (opened : Channel × Result SidecarFrameError (SidecarRuntimeMessage V))
      → is_configured x.state ≡ false
      → is_configured (receive_opened hmac codec failure_bytes x opened).0.state ≡ true
      → (m : SidecarRuntimeManifest) × (opened.1 ≡ ok (configured_message m))
        × (x.expected_manifest ≡ some m)
        × (x.role ≡ supervisor)
        × (x.state ≡ awaiting_acknowledgement)
  unfolding receive_opened dispatch receive_configuration hold fail
  receive_opened_configures x (c, ok (configured_message m)) h e =
      elim (Option-cases x.expected_manifest) [
        | inl f ↦ absurd (ground arith)
        | inr (n, f) ↦
            (m, refl, ground (arith, (manifest_eq_iff n m).0), ground arith, ground arith)
      ]
  receive_opened_configures x (c, ok message) h e = absurd (ground arith)
  receive_opened_configures x (c, err f) h e = absurd (ground arith)

  seal-keeps :
      (r : Channel) (message : SidecarRuntimeMessage V)
      → ((seal hmac codec r message).0.retired ≡ r.retired)
        × ((seal hmac codec r message).0.instance_id ≡ r.instance_id)
  unfolding seal
  seal-keeps r message = elim (Result-cases (seal_frame hmac codec r message)) [
    | inl (a, e) ↦ rw (e, seal) (refl, refl)
    | inr (f, e) ↦ rw (e, seal) (refl, refl)
  ]

  acknowledge_sealed-ok :
      (y : Exchange) (sealed : Channel × Result SidecarFrameError (List ℕ)) {bytes : List ℕ}
      → (acknowledge_sealed hmac codec failure_bytes y sealed).2 ≡ ok bytes
      → (sealed.1 ≡ ok bytes)
        × (acknowledge_sealed hmac codec failure_bytes y sealed
            ≡ (record y { state = acknowledgement_pending }, sealed.0, ok bytes))
  unfolding acknowledge_sealed fail
  acknowledge_sealed-ok y (c, ok b) h = ground arith
  acknowledge_sealed-ok y (c, err e) h = absurd (ground arith)

  -- An acknowledgement of the expected manifest is sealed.
  acknowledge_enters :
      (y : Exchange) (r : Channel) (m : SidecarRuntimeManifest)
      → r.instance_id ≡ y.channel_instance_id
      → r.role ≡ y.role
      → y.role ≡ runtime
      → y.state ≡ awaiting_acknowledgement
      → y.expected_manifest ≡ some m
      → acknowledge hmac codec failure_bytes y r m
        ≡ acknowledge_sealed hmac codec failure_bytes y (seal hmac codec r (configured_message m))
  unfolding acknowledge on_channel
  acknowledge_enters y r m i j role state expected = ground (arith, (manifest_eq_iff m m).1 refl)

  acknowledgement_enters :
      (x : Exchange) (s d : Channel) (m : SidecarRuntimeManifest) (bytes : List ℕ)
      → s.instance_id ≡ x.channel_instance_id
      → s.role ≡ x.role
      → x.role ≡ supervisor
      → x.state ≡ awaiting_acknowledgement
      → x.expected_manifest ≡ some m
      → open_ hmac codec (lock_frame_limit s) bytes ≡ (d, ok (configured_message m))
      → receive hmac codec failure_bytes x s bytes ≡ (record x { state = configured }, d, ok none)
  unfolding receive on_channel receive_opened dispatch
  acknowledgement_enters x s d m bytes i j role state expected opened =
      ground (arith, (manifest_eq_iff m m).1 refl)

  -- The runtime's acknowledgement of the manifest that both sides expect arrives: the supervisor's
  -- exchange, given the sealed frame, is configured, and so is the runtime's once the frame is
  -- written. A tag has 32 bytes, and the JSON text of the message is read back.
  pub acknowledgement_delivered :
      (x y : Exchange) (s r : Channel) (m : SidecarRuntimeManifest) {bytes : List ℕ}
      → ((key message : List ℕ) → length (hmac key message) ≡ auth_tag_bytes)
      → codec.parse (encoded codec (configured_message m)) ≡ some (configured_message m)
      → AreAgreed m x y s r
      → (acknowledge hmac codec failure_bytes y r m).2 ≡ ok bytes
      → let (y', r', _) = acknowledge hmac codec failure_bytes y r m in
        ((receive hmac codec failure_bytes x s bytes).2 ≡ ok none)
        × ((receive hmac codec failure_bytes x s bytes).0.state ≡ configured)
        × ((complete_acknowledgement y' r').0.state ≡ configured)
        × ((complete_acknowledgement y' r').2 ≡ ok tt)
  acknowledgement_delivered x y s r m {bytes} tag parse p h =
      let entered =
        acknowledge_enters y r m p.runtime_instance p.runtime_channel p.runtime_role p.runtime_state
          p.runtime_expects in
      let (sealed, done) =
        acknowledge_sealed-ok y (seal hmac codec r (configured_message m))
          (sym (ap (λ o. o.2) entered) ∙ h) in
      let opened =
        open-seal hmac codec r (lock_frame_limit s) (configured_message m) tag parse p.in_range
          (AreInStep-lock r s p.in_step) sealed in
      let received =
        acknowledgement_enters x s _ m bytes p.instance p.channel_role p.role p.state p.expects
          opened.0 in
      let (live, same) = seal-keeps r (configured_message m) in
      let completed =
        completes (record y { state = acknowledgement_pending })
          (seal hmac codec r (configured_message m)).0 (same ∙ p.runtime_instance) p.runtime_role
          (live ∙ p.live) refl in
      (
        ap (λ o. o.2) received,
        ap (λ o. o.0.state) received,
        ap (λ o. (complete_acknowledgement o.0 o.1).0.state) (entered ∙ done) ∙ completed.0,
        ap (λ o. (complete_acknowledgement o.0 o.1).2) (entered ∙ done) ∙ completed.1,
      )

  -- By a received frame only a supervisor becomes configured, one that awaits the acknowledgement, and
  -- only by a frame that opens as the manifest that it expects.
  pub receive_configures :
      (x : Exchange) (c : Channel) (bytes : List ℕ)
      → is_configured x.state ≡ false
      → is_configured (receive hmac codec failure_bytes x c bytes).0.state ≡ true
      → (m : SidecarRuntimeManifest) × ((open_ hmac codec (lock_frame_limit c) bytes).1
          ≡ ok (configured_message m))
        × (x.expected_manifest ≡ some m)
        × (x.role ≡ supervisor)
        × (x.state ≡ awaiting_acknowledgement)
  unfolding receive on_channel fail
  receive_configures x c bytes h e =
      receive_opened_configures x (open_ hmac codec (lock_frame_limit c) bytes) h (ground arith)
