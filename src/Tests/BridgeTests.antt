-- ===== src/Tests/BridgeTests.antt =====
-- The activation of the product's runtime after its acknowledgement, and the status that follows a
-- lifecycle.
use openclaw_rust_node.Base.{String, true, false, ◌≡◌, refl, none, some, [], ◌∷◌}
use openclaw_rust_node.Base.Results.{ok}
use openclaw_rust_node.Json.Plain.{plain_json}
use openclaw_rust_node.Lifecycle.{run}
use openclaw_rust_node.Runtime.Build.{CommandRuntime}
use openclaw_rust_node.Sidecar.Protocol.{runtime}
use openclaw_rust_node.Sidecar.Channel.{Channel}
use openclaw_rust_node.Sidecar.Messages.{SidecarRuntimeStatus}
use openclaw_rust_node.Sidecar.Messages
use openclaw_rust_node.Sidecar.Configuration.{manifest_from_configuration}
use openclaw_rust_node.Text.Names.{str_leb, insert, sorted}
use openclaw_rust_node.Sidecar.Exchange.{
  Exchange, configured, activated, is_expected, manifest_eq, texts_eq,
}
use openclaw_rust_node.Sidecar.Status.{observe_all, Tells, status-Tells}
use openclaw_rust_node.Sidecar.Bridge.{activate, bridge_of}
use openclaw_rust_node.Sidecar.Bridge.Activation.{Serves, activate-Serves}
use openclaw_rust_node.Tests.ExchangeTests.{product, manifest, toy_bytes, selection, product_valid}
use openclaw_rust_node.Tests.LifecycleTests.{lifecycle, attempts}

abbrev acknowledged : Exchange
acknowledged = record {
  role = runtime;
  channel_instance_id = 1;
  selection = selection;
  runtime_version = "1";
  state = configured;
  configuration = some product;
  expected_manifest = some manifest;
  payload_limit = some 900;
}

abbrev channel : Channel
channel = record {
  instance_id = 1;
  role = runtime;
  protocol_minor = 0;
  session_id = 1 ∷ [];
  generation = 1;
  key = 1 ∷ [];
  max_frame_bytes = 1024;
  frame_limit_locked = true;
  send_sequence = 2;
  receive_sequence = 2;
  retired = false;
}

abbrev handler : String → String
handler name = name

manifest_is_expected : is_expected acknowledged (manifest_from_configuration product) ≡ true
unfolding manifest_from_configuration sorted insert str_leb manifest_eq texts_eq
manifest_is_expected = refl

activate-Serves_example :
    (r : CommandRuntime String String) × (activate "policy" handler acknowledged channel ≡ (
      record acknowledged { state = activated },
      channel,
      ok (bridge_of acknowledged (manifest_from_configuration product) r),
    ))
    × Serves product "policy" handler r
activate-Serves_example =
    activate-Serves product "policy" handler toy_bytes acknowledged channel 900 product_valid refl
      refl refl refl refl manifest_is_expected refl

abbrev first_status : SidecarRuntimeStatus
first_status = record {
  state = Messages.configured;
  manifest_generation = 7;
  runtime_version = "1";
  attempt = 0;
  reason = none;
}

status-Tells_example :
    Tells manifest
      (run plain_json lifecycle 0 attempts).3
      (observe_all manifest first_status (run plain_json lifecycle 0 attempts).1)
status-Tells_example = status-Tells manifest plain_json lifecycle attempts first_status refl
