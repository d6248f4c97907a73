-- ===== src/Tests/ExchangeTests.antt =====
-- One configuration exchange, from the start of the supervisor to the acknowledgement.
use openclaw_rust_node.Base.{
  ℕ, String, ◌≡◌, refl, ap, true, Option, none, some, zero, suc, List, [], ◌∷◌, ◌+◌, length, arith,
}
use openclaw_rust_node.Base.Bytes.{to_be_bytes, length-to_be_bytes}
use openclaw_rust_node.Base.Results.{Result, ok, err}
use openclaw_rust_node.Sidecar.Protocol.{
  SidecarPeerRole, supervisor, runtime, expected_remote, outgoing_direction, wire_value,
  SidecarProtocolSelection,
}
use openclaw_rust_node.Sidecar.Frame.{Codec, write, write_pieces, write_payload}
use openclaw_rust_node.Sidecar.Channel.{
  seal, seal_frame, header, patch_length, open_, lock_frame_limit, max_payload_bytes,
}
use openclaw_rust_node.Sidecar.Channel.RoundTrip.{AreInStep}
use openclaw_rust_node.Sidecar.Messages.{
  SidecarRuntimeConfiguration, SidecarRuntimeManifest, SidecarRuntimeMessage, configure_message,
  configured_message,
}
use openclaw_rust_node.Sidecar.Configuration.{
  is_name, is_reserved, validate_names, validate_names_after, manifest_from_configuration,
  minimum_bridge_failure_bytes, validate_configuration, validate_status_budget, count_pieces,
  runtime_message_within_limit,
}
use openclaw_rust_node.Text.Names.{is_in, str_leb, insert, sorted}
use openclaw_rust_node.Sidecar.Configuration.Limits.{IsWithin, validate_configuration-ok_iff}
use openclaw_rust_node.Sidecar.Exchange.{
  ConfigurationState, ConfigurationError, starting, awaiting_configuration,
  awaiting_acknowledgement, configured, Exchange, check_configuration, start, start_checked,
  start_sealed, hold, on_channel, receive, acknowledge, acknowledge_sealed, manifest_eq, texts_eq,
}
use openclaw_rust_node.Sidecar.Exchange.States.{
  EndsOnError, IsValid, exchange_errors_end, exchange-IsValid,
}
use openclaw_rust_node.Sidecar.Exchange.Delivery.{ArePaired, configuration_delivered}
use openclaw_rust_node.Sidecar.Exchange.Acknowledgement.{
  AreAgreed, is_configured, acknowledgement_delivered, receive_configures,
}
use openclaw_rust_node.Text.{is_ascii_alphanumeric, all_chars}
use openclaw_rust_node.Tests.ChannelTests.{toy_tag, channel_of, in_step}

abbrev pub product : SidecarRuntimeConfiguration
product = record {
  manifest_generation = 7;
  capabilities = "camera" ∷ [];
  commands = record { name = "camera.snap" } ∷ record { name = "audio.play" } ∷ [];
  max_concurrency = 2;
  max_input_bytes = 512;
  max_output_bytes = 512;
  default_timeout_ms = 1000;
  max_timeout_ms = 5000;
  result_grace_ms = 100;
}

abbrev pub manifest : SidecarRuntimeManifest
manifest = record {
  manifest_generation = 7;
  capabilities = "camera" ∷ [];
  commands = "audio.play" ∷ "camera.snap" ∷ [];
}

computed : manifest_from_configuration product ≡ manifest
unfolding manifest_from_configuration sorted insert str_leb
computed = refl

abbrev pub toy_bytes : String → String → ℕ
toy_bytes code message = 100

abbrev pub selection : SidecarProtocolSelection
selection = record {
  protocol_major = 1;
  protocol_minor = 0;
  feature_bits = 2;
  limits = record { max_frame_bytes = 1024; max_in_flight = 4; bootstrap_timeout_ms = 500 };
}

abbrev side : SidecarPeerRole → ConfigurationState → Option SidecarRuntimeManifest → Exchange
side role state expected = record {
  role = role;
  channel_instance_id = 1;
  selection = selection;
  runtime_version = "1";
  state = state;
  configuration = none;
  expected_manifest = expected;
  payload_limit = none;
}

abbrev message_codec : Codec (SidecarRuntimeMessage (Unit {0}))
message_codec = record {
  pieces = λ m. elim m [
    | configure_message c ↦ (1 ∷ []) ∷ []
    | configured_message n ↦ (2 ∷ []) ∷ []
    | _ ↦ (3 ∷ []) ∷ []
  ];
  complete = λ _. true;
  parse = λ bytes. elim bytes [
    | [] ↦ none
    | b ∷ _ ↦ elim b [
      | zero ↦ none
      | suc k ↦ elim k [
        | zero ↦ some (configure_message product)
        | suc _ ↦ some (configured_message manifest)
      ]
    ]
  ];
}

abbrev sender : Exchange
sender = side supervisor starting none

abbrev receiver : Exchange
receiver = side runtime awaiting_configuration none

-- The frame of an operation.
abbrev sealed_bytes : Result ConfigurationError (List ℕ) → List ℕ
sealed_bytes (ok bytes) = bytes
sealed_bytes (err e) = []

pub product_valid : validate_configuration toy_bytes product selection ≡ ok tt
unfolding validate_configuration validate_names validate_names_after is_name is_reserved is_in
    minimum_bridge_failure_bytes is_ascii_alphanumeric all_chars
product_valid = refl

validate_configuration-ok_iff_example : IsWithin toy_bytes product selection
validate_configuration-ok_iff_example =
    (validate_configuration-ok_iff toy_bytes product selection).0 product_valid

exchange_errors_end_example :
    EndsOnError sender (receive toy_tag message_codec toy_bytes sender (channel_of supervisor) [])
exchange_errors_end_example =
    (exchange_errors_end toy_tag message_codec toy_bytes sender (channel_of supervisor) product
      manifest []).1

exchange-IsValid_example :
    IsValid toy_bytes
      (start toy_tag message_codec toy_bytes sender (channel_of supervisor) product).0
exchange-IsValid_example =
    (exchange-IsValid toy_tag message_codec toy_bytes sender (channel_of supervisor) product
      manifest [] refl).0

abbrev outbound : List ℕ
outbound =
    sealed_bytes (start toy_tag message_codec toy_bytes sender (channel_of supervisor) product).2

started :
    (start toy_tag message_codec toy_bytes sender (channel_of supervisor) product).2 ≡ ok outbound
unfolding start start_checked start_sealed on_channel hold check_configuration
    validate_configuration validate_names validate_names_after is_name is_reserved is_in
    minimum_bridge_failure_bytes is_ascii_alphanumeric all_chars validate_status_budget count_pieces
    runtime_message_within_limit max_payload_bytes lock_frame_limit seal seal_frame write_payload
    write_pieces write header patch_length to_be_bytes outgoing_direction wire_value
started = refl

paired : ArePaired sender receiver (channel_of supervisor) (channel_of runtime)
paired = record {
  selections = refl;
  versions = refl;
  limits = refl;
  in_step = in_step;
  in_range = omega arith;
  instance = refl;
  channel_role = refl;
  role = refl;
  state = refl;
}

configuration_delivered_example :
    (receive toy_tag message_codec toy_bytes receiver (channel_of runtime) outbound).2
    ≡ ok (some product)
configuration_delivered_example =
    (configuration_delivered toy_tag message_codec toy_bytes sender receiver (channel_of supervisor)
      (channel_of runtime) product
      (λ key message. length-to_be_bytes 32 (length key + length message)) refl paired started).0

abbrev expecting : Exchange
expecting = side supervisor awaiting_acknowledgement (some manifest)

abbrev acknowledging : Exchange
acknowledging = side runtime awaiting_acknowledgement (some manifest)

abbrev inbound : List ℕ
inbound =
    sealed_bytes
      (acknowledge toy_tag message_codec toy_bytes acknowledging (channel_of runtime) manifest).2

acknowledged :
    (acknowledge toy_tag message_codec toy_bytes acknowledging (channel_of runtime) manifest).2
    ≡ ok inbound
unfolding acknowledge acknowledge_sealed on_channel manifest_eq texts_eq seal seal_frame
    write_payload write_pieces write header patch_length to_be_bytes outgoing_direction wire_value
acknowledged = refl

back_in_step : AreInStep (channel_of runtime) (channel_of supervisor)
unfolding expected_remote
back_in_step = record {
  roles = refl;
  minors = refl;
  sessions = refl;
  generations = refl;
  keys = refl;
  limits = omega arith;
  sequences = refl;
  live = refl;
}

agreed_sides :
    AreAgreed manifest expecting acknowledging (channel_of supervisor) (channel_of runtime)
agreed_sides = record {
  in_step = back_in_step;
  in_range = omega arith;
  live = refl;
  instance = refl;
  channel_role = refl;
  role = refl;
  state = refl;
  expects = refl;
  runtime_instance = refl;
  runtime_channel = refl;
  runtime_role = refl;
  runtime_state = refl;
  runtime_expects = refl;
}

acknowledgement_delivered_example :
    (receive toy_tag message_codec toy_bytes expecting (channel_of supervisor) inbound).2 ≡ ok none
acknowledgement_delivered_example =
    (acknowledgement_delivered toy_tag message_codec toy_bytes expecting acknowledging
      (channel_of supervisor) (channel_of runtime) manifest
      (λ key message. length-to_be_bytes 32 (length key + length message)) refl agreed_sides
      acknowledged).0

supervisor_configured :
    (receive toy_tag message_codec toy_bytes expecting (channel_of supervisor) inbound).0.state
    ≡ configured
supervisor_configured =
    (acknowledgement_delivered toy_tag message_codec toy_bytes expecting acknowledging
      (channel_of supervisor) (channel_of runtime) manifest
      (λ key message. length-to_be_bytes 32 (length key + length message)) refl agreed_sides
      acknowledged).1

receive_configures_example :
    (m : SidecarRuntimeManifest) × ((open_ toy_tag message_codec
        (lock_frame_limit (channel_of supervisor))
        inbound).1
      ≡ ok (configured_message m))
    × (expecting.expected_manifest ≡ some m)
    × (expecting.role ≡ supervisor)
    × (expecting.state ≡ awaiting_acknowledgement)
receive_configures_example =
    receive_configures toy_tag message_codec toy_bytes expecting (channel_of supervisor) inbound
      refl (ap is_configured supervisor_configured)
