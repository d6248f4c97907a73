-- ===== src/Sidecar/Exchange/Delivery.antt =====
-- The configuration and its acknowledgement on their way over the channel.
use openclaw_rust_node.Base.{ℕ, String, ◌≡◌, refl, sym, ap, ◌∙◌, some, List, length, arith}
use openclaw_rust_node.Base.Results.{ok}
use openclaw_rust_node.Sidecar.Protocol.{runtime}
use openclaw_rust_node.Sidecar.Frame.{Codec, encoded, auth_tag_bytes}
use openclaw_rust_node.Sidecar.Channel.{Channel, open_, seal, lock_frame_limit, max_payload_bytes}
use openclaw_rust_node.Sidecar.Channel.RoundTrip.{AreInStep, IsInRange, open-seal}
use openclaw_rust_node.Sidecar.Messages.{
  SidecarRuntimeConfiguration, SidecarRuntimeMessage, configure_message,
}
use openclaw_rust_node.Sidecar.Configuration.{manifest_from_configuration}
use openclaw_rust_node.Sidecar.Exchange.{
  awaiting_configuration, awaiting_acknowledgement, Exchange, fail, hold, on_channel,
  check_configuration, start_sealed, start_checked, start, receive_configuration, dispatch,
  receive_opened, receive,
}

-- The channels and the exchanges of the two sides before the configuration.
pub record ArePaired (x y : Exchange) (s r : Channel) : Type 0 where
  pub selections : x.selection ≡ y.selection
  pub versions : x.runtime_version ≡ y.runtime_version
  pub limits : s.max_frame_bytes ≡ r.max_frame_bytes
  pub in_step : AreInStep s r
  pub in_range : IsInRange s
  pub instance : r.instance_id ≡ y.channel_instance_id
  pub channel_role : r.role ≡ y.role
  pub role : y.role ≡ runtime
  pub state : y.state ≡ awaiting_configuration

module _ (hmac : List ℕ → List ℕ → List ℕ) {V : Type 0} (codec : Codec (SidecarRuntimeMessage V))
    (failure_bytes : String → String → ℕ) where
  -- What a start has done if it gave a frame.
  start-ok :
      (x : Exchange) (c : Channel) (configuration : SidecarRuntimeConfiguration) {bytes : List ℕ}
      → (start hmac codec failure_bytes x c configuration).2 ≡ ok bytes
      → (check_configuration hmac codec failure_bytes x (lock_frame_limit c) configuration ≡ ok tt)
        × ((seal hmac codec (lock_frame_limit c) (configure_message configuration)).1 ≡ ok bytes)
        × ((start hmac codec failure_bytes x c configuration).1
            ≡ (seal hmac codec (lock_frame_limit c) (configure_message configuration)).0)
        × ((start hmac codec failure_bytes x c configuration).0.expected_manifest
            ≡ some (manifest_from_configuration configuration))
        × ((start hmac codec failure_bytes x c configuration).0.state ≡ awaiting_acknowledgement)
  unfolding start start_checked start_sealed on_channel hold fail
  start-ok x c configuration h = ground arith

  locked :
      (x y : Exchange) (s r : Channel)
      → ArePaired x y s r
      → IsInRange (lock_frame_limit s) × AreInStep (lock_frame_limit s) (lock_frame_limit r)
  unfolding lock_frame_limit
  locked x y s r p = ground arith

  same_check :
      (x y : Exchange) (s r : Channel) (n : ℕ) (configuration : SidecarRuntimeConfiguration)
      → ArePaired x y s r
      → check_configuration hmac codec failure_bytes y
          (record (lock_frame_limit r) { receive_sequence = n })
          configuration
        ≡ check_configuration hmac codec failure_bytes x (lock_frame_limit s) configuration
  unfolding check_configuration max_payload_bytes lock_frame_limit
  same_check x y s r n configuration p =
      rw (p.selections, p.versions, p.limits, p.in_step.sessions) refl

  receive_opened_hands_over :
      (y : Exchange) (r : Channel) (configuration : SidecarRuntimeConfiguration)
      → y.role ≡ runtime
      → y.state ≡ awaiting_configuration
      → check_configuration hmac codec failure_bytes y r configuration ≡ ok tt
      → receive_opened hmac codec failure_bytes y (r, ok (configure_message configuration))
        ≡ (hold y r configuration, r, ok (some configuration))
  unfolding receive_opened dispatch receive_configuration
  receive_opened_hands_over y r configuration role state check = ground arith

  hold-manifest :
      (y : Exchange) (r : Channel) (configuration : SidecarRuntimeConfiguration)
      → (hold y r configuration).expected_manifest
        ≡ some (manifest_from_configuration configuration)
  unfolding hold
  hold-manifest y r configuration = refl

  hold-state :
      (y : Exchange) (r : Channel) (configuration : SidecarRuntimeConfiguration)
      → (hold y r configuration).state ≡ awaiting_acknowledgement
  unfolding hold
  hold-state y r configuration = refl

  receive_enters :
      (x y : Exchange) (s r : Channel) (bytes : List ℕ)
      → ArePaired x y s r
      → receive hmac codec failure_bytes y r bytes
        ≡ receive_opened hmac codec failure_bytes y (open_ hmac codec (lock_frame_limit r) bytes)
  unfolding receive on_channel
  receive_enters x y s r bytes p = ground arith

  -- The configuration that a supervisor starts with arrives: the runtime's exchange is given the sealed
  -- frame, hands over the same configuration, and expects the manifest that the supervisor expects;
  -- the channels stay in step. The peers are paired, a tag has 32 bytes, and the JSON text of the
  -- message is read back.
  pub configuration_delivered :
      (x y : Exchange) (s r : Channel) (configuration : SidecarRuntimeConfiguration)
      {bytes : List ℕ}
      → ((key message : List ℕ) → length (hmac key message) ≡ auth_tag_bytes)
      → codec.parse (encoded codec (configure_message configuration))
        ≡ some (configure_message configuration)
      → ArePaired x y s r
      → (start hmac codec failure_bytes x s configuration).2 ≡ ok bytes
      → ((receive hmac codec failure_bytes y r bytes).2 ≡ ok (some configuration))
        × ((receive hmac codec failure_bytes y r bytes).0.expected_manifest
            ≡ (start hmac codec failure_bytes x s configuration).0.expected_manifest)
        × ((receive hmac codec failure_bytes y r bytes).0.state ≡ awaiting_acknowledgement)
        × AreInStep
            (start hmac codec failure_bytes x s configuration).1
            (receive hmac codec failure_bytes y r bytes).1
  configuration_delivered x y s r configuration {bytes} tag parse p h =
      let (check, sealed, sender, manifest, _) = start-ok x s configuration h in
      let (range, step) = locked x y s r p in
      let (opened, step') =
        open-seal hmac codec (lock_frame_limit s) (lock_frame_limit r)
          (configure_message configuration) tag parse range step sealed in
      let received =
        receive_enters x y s r bytes p
        ∙ ap (receive_opened hmac codec failure_bytes y) opened
        ∙ receive_opened_hands_over y _ configuration p.role p.state
            (same_check x y s r _ configuration p ∙ check) in
      (
        ap (λ o. o.2) received,
        ap (λ o. o.0.expected_manifest) received ∙ hold-manifest y _ configuration ∙ sym manifest,
        ap (λ o. o.0.state) received ∙ hold-state y _ configuration,
        rw (sender, ap (λ o. o.1) received ∙ sym (ap (λ o. o.0) opened)) step',
      )
