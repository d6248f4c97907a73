-- ===== src/Sidecar/Exchange.antt =====
-- `SidecarConfigurationExchange` (sidecar_runtime.rs): the one configuration that follows the
-- handshake. An operation takes the exchange and the channel, and returns both with its result.
pub mod States
pub mod Manifests
pub mod Delivery
pub mod Acknowledgement
use openclaw_rust_node.Base.{
  ℕ, String, Bool, true, false, not, ◌&&◌, ◌==◌, if◌then◌else◌, Option, none, some, List, [], ◌∷◌,
  str_eq, is_some_and,
}
use openclaw_rust_node.Base.Results.{Result, ok, err, ◌>>=◌, ◌>>◌, fail_if, ok_or}
use openclaw_rust_node.Sidecar.Protocol.{
  SidecarPeerRole, supervisor, runtime, same_role, SidecarProtocolSelection, selection_of,
  NegotiatedSidecarProtocol,
}
use openclaw_rust_node.Sidecar.Frame.{SidecarFrameError, channel_retired, Codec}
use openclaw_rust_node.Sidecar.Channel.{
  Channel, retire, lock_frame_limit, max_payload_bytes, seal, open_,
}
use openclaw_rust_node.Sidecar.Handshake.{Handshake, HandshakeState, authenticated, local_role}
use openclaw_rust_node.Sidecar.Messages.{
  SidecarRuntimeConfiguration, SidecarRuntimeManifest, SidecarRuntimeMessage, configure_message,
  configured_message,
}
use openclaw_rust_node.Sidecar.Configuration.{
  BridgeError, manifest_from_configuration, validate_configuration, validate_status_budget,
}

pub data ConfigurationState : Type 0 where
  starting awaiting_configuration awaiting_acknowledgement : ConfigurationState
  acknowledgement_pending configured activated failed : ConfigurationState

pub data ConfigurationError : Type 0 where
  handshake_not_authenticated : ConfigurationError
  frame : SidecarFrameError → ConfigurationError
  configuration_error : BridgeError → ConfigurationError
  supervisor_must_initiate runtime_must_acknowledge channel_role_mismatch : ConfigurationError
  channel_instance_mismatch manifest_mismatch unexpected_message : ConfigurationError

pub record Exchange : Type 0 where
  pub role : SidecarPeerRole
  pub channel_instance_id : ℕ
  pub selection : SidecarProtocolSelection
  pub runtime_version : String
  pub state : ConfigurationState
  pub configuration : Option SidecarRuntimeConfiguration
  pub expected_manifest : Option SidecarRuntimeManifest
  pub payload_limit : Option ℕ

-- The exchange, the channel and the result after an operation.
abbrev pub Outcome : Type 0 → Type 0
Outcome A = Exchange × Channel × Result ConfigurationError A

abbrev is_authenticated_state : HandshakeState → Bool
is_authenticated_state authenticated = true
is_authenticated_state _ = false

abbrev is_starting : ConfigurationState → Bool
is_starting starting = true
is_starting _ = false

abbrev is_awaiting_acknowledgement : ConfigurationState → Bool
is_awaiting_acknowledgement awaiting_acknowledgement = true
is_awaiting_acknowledgement _ = false

abbrev is_acknowledgement_pending : ConfigurationState → Bool
is_acknowledgement_pending acknowledgement_pending = true
is_acknowledgement_pending _ = false

abbrev version_of : Handshake → NegotiatedSidecarProtocol → SidecarPeerRole → String
version_of h negotiated runtime = h.local_offer.peer.version
version_of h negotiated supervisor = negotiated.remote_peer.version

abbrev first_state : SidecarPeerRole → ConfigurationState
first_state supervisor = starting
first_state runtime = awaiting_configuration

unfoldable pub new : Handshake → Result ConfigurationError Exchange
new h = do
  fail_if (not (is_authenticated_state h.state)) handshake_not_authenticated
  negotiated ← ok_or h.negotiated handshake_not_authenticated
  instance_id ← ok_or h.channel_instance_id handshake_not_authenticated
  ok (record {
    role = local_role h;
    channel_instance_id = instance_id;
    selection = selection_of negotiated;
    runtime_version = version_of h negotiated (local_role h);
    state = first_state (local_role h);
    configuration = none;
    expected_manifest = none;
    payload_limit = none;
  })

-- `fail`: the channel is retired with the exchange.
unfoldable pub fail : {A : Type 0} → Exchange → Channel → ConfigurationError → Outcome A
unfolding retire
fail x c e = (
  record x { state = failed; configuration = none; expected_manifest = none; payload_limit = none },
  retire c,
  err e,
)

-- `ensure_channel`: another channel is retired, and the exchange left alone.
unfoldable pub on_channel : {A : Type 0} → Exchange → Channel → Outcome A → Outcome A
unfolding retire
on_channel x c k =
    if c.instance_id == x.channel_instance_id
    then k
    else (x, retire c, err channel_instance_mismatch)

-- The configuration that both sides hold once it is validated.
unfoldable pub hold : Exchange → Channel → SidecarRuntimeConfiguration → Exchange
unfolding max_payload_bytes
hold x c configuration = record x {
  state = awaiting_acknowledgement;
  configuration = some configuration;
  expected_manifest = some (manifest_from_configuration configuration);
  payload_limit = some (max_payload_bytes c);
}

unfoldable pub texts_eq : List String → List String → Bool
texts_eq [] [] = true
texts_eq (s ∷ ss) (t ∷ ts) = str_eq s t && texts_eq ss ts
texts_eq _ _ = false

unfoldable pub manifest_eq : SidecarRuntimeManifest → SidecarRuntimeManifest → Bool
unfolding texts_eq
manifest_eq a b =
    a.manifest_generation == b.manifest_generation
    && texts_eq a.capabilities b.capabilities
    && texts_eq a.commands b.commands

-- `self.expected_manifest.as_ref() == Some(manifest)`.
abbrev pub is_expected : Exchange → SidecarRuntimeManifest → Bool
is_expected x manifest = is_some_and x.expected_manifest λ expected. manifest_eq expected manifest

unfoldable pub complete_acknowledgement : Exchange → Channel → Outcome (Unit {0})
unfolding on_channel fail
complete_acknowledgement x c = on_channel x c (
    if not (same_role x.role runtime)
    then fail x c runtime_must_acknowledge
    else if c.retired
    then fail x c (frame channel_retired)
    else if not (is_acknowledgement_pending x.state)
    then fail x c unexpected_message
    else (record x { state = configured }, c, ok tt))

-- `hmac` and `codec` are as for the channel, `failure_bytes` as for the validation.
module _ (hmac : List ℕ → List ℕ → List ℕ) {V : Type 0} (codec : Codec (SidecarRuntimeMessage V))
    (failure_bytes : String → String → ℕ) where
  -- The two validations of a configuration, on both sides of the channel.
  unfoldable pub check_configuration :
      Exchange → Channel → SidecarRuntimeConfiguration → Result BridgeError (Unit {0})
  unfolding max_payload_bytes
  check_configuration x c configuration = do
    validate_configuration failure_bytes configuration x.selection
    validate_status_budget codec x.runtime_version configuration.manifest_generation
        (max_payload_bytes c)

  -- The end of `start`, on the channel with its limit locked and the sealed frame.
  unfoldable pub start_sealed :
      Exchange
      → SidecarRuntimeConfiguration
      → Channel × Result SidecarFrameError (List ℕ)
      → Outcome (List ℕ)
  unfolding fail hold
  start_sealed x configuration (c, err e) = fail x c (frame e)
  start_sealed x configuration (c, ok bytes) = (hold x c configuration, c, ok bytes)

  unfoldable pub start_checked :
      Exchange
      → Channel
      → SidecarRuntimeConfiguration
      → Result BridgeError (Unit {0})
      → Outcome (List ℕ)
  unfolding fail start_sealed
  start_checked x c configuration (err e) = fail x c (configuration_error e)
  start_checked x c configuration (ok _) =
      start_sealed x configuration (seal hmac codec c (configure_message configuration))

  unfoldable pub start : Exchange → Channel → SidecarRuntimeConfiguration → Outcome (List ℕ)
  unfolding on_channel fail lock_frame_limit start_checked
  start x c configuration = on_channel x c (
      if not (same_role x.role supervisor)
      then fail x c supervisor_must_initiate
      else if not (same_role c.role x.role)
      then fail x c channel_role_mismatch
      else if not (is_starting x.state)
      then fail x c unexpected_message
      else start_checked x (lock_frame_limit c) configuration
          (check_configuration x (lock_frame_limit c) configuration))

  unfoldable pub receive_configuration :
      Exchange
      → Channel
      → SidecarRuntimeConfiguration
      → Result BridgeError (Unit {0})
      → Outcome (Option SidecarRuntimeConfiguration)
  unfolding fail hold
  receive_configuration x c configuration (err e) = fail x c (configuration_error e)
  receive_configuration x c configuration (ok _) =
      (hold x c configuration, c, ok (some configuration))

  -- The message by role, state and kind.
  unfoldable pub dispatch :
      Exchange
      → Channel
      → SidecarPeerRole
      → ConfigurationState
      → SidecarRuntimeMessage V
      → Outcome (Option SidecarRuntimeConfiguration)
  unfolding fail receive_configuration
  dispatch x c runtime awaiting_configuration (configure_message configuration) =
      receive_configuration x c configuration (check_configuration x c configuration)
  dispatch x c supervisor awaiting_acknowledgement (configured_message manifest) =
      if not (is_expected x manifest)
      then fail x c manifest_mismatch
      else (record x { state = configured }, c, ok none)
  dispatch x c _ _ _ = fail x c unexpected_message

  unfoldable pub receive_opened :
      Exchange
      → Channel × Result SidecarFrameError (SidecarRuntimeMessage V)
      → Outcome (Option SidecarRuntimeConfiguration)
  unfolding fail dispatch
  receive_opened x (c, err e) = fail x c (frame e)
  receive_opened x (c, ok message) = dispatch x c x.role x.state message

  unfoldable pub receive :
      Exchange → Channel → List ℕ → Outcome (Option SidecarRuntimeConfiguration)
  unfolding on_channel fail lock_frame_limit receive_opened
  receive x c bytes = on_channel x c (
      if not (same_role c.role x.role)
      then fail x c channel_role_mismatch
      else receive_opened x (open_ hmac codec (lock_frame_limit c) bytes))

  unfoldable pub acknowledge_sealed :
      Exchange → Channel × Result SidecarFrameError (List ℕ) → Outcome (List ℕ)
  unfolding fail
  acknowledge_sealed x (c, err e) = fail x c (frame e)
  acknowledge_sealed x (c, ok bytes) = (record x { state = acknowledgement_pending }, c, ok bytes)

  unfoldable pub acknowledge : Exchange → Channel → SidecarRuntimeManifest → Outcome (List ℕ)
  unfolding on_channel fail acknowledge_sealed
  acknowledge x c manifest = on_channel x c (
      if not (same_role x.role runtime)
      then fail x c runtime_must_acknowledge
      else if not (same_role c.role x.role)
      then fail x c channel_role_mismatch
      else if not (is_awaiting_acknowledgement x.state)
      then fail x c unexpected_message
      else if not (is_expected x manifest)
      then fail x c manifest_mismatch
      else acknowledge_sealed x (seal hmac codec c (configured_message manifest)))
