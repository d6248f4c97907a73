-- ===== src/Sidecar/Bridge.antt =====
-- `SidecarRuntimeBridge` (sidecar_runtime.rs): the command runtime of a validated configuration. What
-- the bridge makes of the product's adapter is a parameter, a policy and a handler of each command.
pub mod Names
pub mod Activation
use Prim.Native.String.{◌++◌}
use openclaw_rust_node.Base.{
  ℕ, String, Bool, true, false, not, ◌&&◌, ◌==◌, if◌then◌else◌, Option, none, some, List, [], ◌∷◌,
  from_millis,
}
use openclaw_rust_node.Base.Results.{Result, ok, err}
use openclaw_rust_node.Runtime.Build.{
  CommandRuntimeBuilder, CommandRuntime, default, max_concurrency, max_input_bytes,
  max_output_bytes, default_timeout, max_timeout, result_grace, capability, admission_policy,
  command, build,
}
use openclaw_rust_node.Runtime.Build
use openclaw_rust_node.Sidecar.Channel.{Channel, retire}
use openclaw_rust_node.Sidecar.Protocol.{SidecarPeerRole, supervisor, runtime}
use openclaw_rust_node.Sidecar.Messages.{
  SidecarRuntimeConfiguration, SidecarRuntimeManifest, SidecarRuntimeStatus,
}
use openclaw_rust_node.Sidecar.Messages
use openclaw_rust_node.Sidecar.Configuration.{
  BridgeError, configuration_not_validated, channel_instance_mismatch, channel_retired,
  runtime_role_required, runtime_build, manifest_from_configuration,
}
use openclaw_rust_node.Sidecar.Exchange.{
  Exchange, ConfigurationState, configured, activated, failed, is_expected,
}

pub record SidecarRuntimeBridge (H P : Type 0) : Type 0 where
  pub runtime : CommandRuntime H P
  pub manifest : SidecarRuntimeManifest
  pub status : SidecarRuntimeStatus

module _ {H P : Type 0} where
  unfoldable pub with_limits : SidecarRuntimeConfiguration → CommandRuntimeBuilder H P
  with_limits c =
      result_grace
        (max_timeout
          (default_timeout
            (max_output_bytes
              (max_input_bytes (max_concurrency default c.max_concurrency) c.max_input_bytes)
              c.max_output_bytes)
            (from_millis c.default_timeout_ms))
          (from_millis c.max_timeout_ms))
        (from_millis c.result_grace_ms)

  unfoldable pub with_capabilities :
      CommandRuntimeBuilder H P → List String → CommandRuntimeBuilder H P
  with_capabilities b [] = b
  with_capabilities b (name ∷ names) = with_capabilities (capability b name) names

  unfoldable pub with_commands :
      CommandRuntimeBuilder H P → (String → H) → List String → CommandRuntimeBuilder H P
  with_commands b handler [] = b
  with_commands b handler (name ∷ names) =
      with_commands (command b name (handler name)) handler names

  unfoldable pub builder_of :
      SidecarRuntimeConfiguration
      → SidecarRuntimeManifest
      → P
      → (String → H)
      → CommandRuntimeBuilder H P
  unfolding with_limits with_capabilities with_commands
  builder_of c manifest policy handler =
      with_commands
        (admission_policy (with_capabilities (with_limits c) manifest.capabilities) policy) handler
        manifest.commands

  unfoldable pub build_command_runtime :
      SidecarRuntimeConfiguration
      → SidecarRuntimeManifest
      → P
      → (String → H)
      → Result Build.RuntimeBuildError (CommandRuntime H P)
  unfolding builder_of
  build_command_runtime c manifest policy handler = build (builder_of c manifest policy handler)

-- The text of a build error.
unfoldable pub build_error : Build.RuntimeBuildError → BridgeError
build_error Build.empty_capability = runtime_build "capability name must not be empty"
build_error Build.empty_command = runtime_build "command name must not be empty"
build_error (Build.reserved_command name) =
    runtime_build ("OpenClaw-owned system command namespace is reserved: " ++ name)
build_error (Build.duplicate_command name) =
    runtime_build ("duplicate command registration: " ++ name)

unfoldable pub bridge_of :
    {H P : Type 0}
    → Exchange
    → SidecarRuntimeManifest
    → CommandRuntime H P
    → SidecarRuntimeBridge H P
bridge_of x manifest r = record {
  runtime = r;
  manifest = manifest;
  status = record {
    state = Messages.configured;
    manifest_generation = manifest.manifest_generation;
    runtime_version = x.runtime_version;
    attempt = 0;
    reason = none;
  };
}

abbrev pub is_runtime : SidecarPeerRole → Bool
is_runtime runtime = true
is_runtime supervisor = false

abbrev pub is_configured : ConfigurationState → Bool
is_configured configured = true
is_configured _ = false

abbrev Activated : Type 0 → Type 0 → Type 0
Activated H P = Exchange × Channel × Result BridgeError (SidecarRuntimeBridge H P)

module _ {H P : Type 0} (policy : P) (handler : String → H) where
  unfoldable pub activate_built :
      Exchange
      → Channel
      → SidecarRuntimeManifest
      → Result Build.RuntimeBuildError (CommandRuntime H P)
      → Activated H P
  unfolding build_error bridge_of
  activate_built x c manifest (err e) = (x, c, err (build_error e))
  activate_built x c manifest (ok r) =
      (record x { state = activated }, c, ok (bridge_of x manifest r))

  unfoldable pub activate_validated :
      Exchange → Channel → SidecarRuntimeConfiguration → Option ℕ → Activated H P
  unfolding activate_built
  activate_validated x c configuration limit =
      let manifest = manifest_from_configuration configuration in
      if not (is_configured x.state && is_expected x manifest)
      then (x, c, err configuration_not_validated)
      else elim limit [
        | none ↦ (x, c, err configuration_not_validated)
        | some max_payload_bytes ↦
            activate_built x c manifest
              (build_command_runtime configuration manifest policy handler)
      ]

  unfoldable pub activate_configured :
      Exchange → Channel → Option SidecarRuntimeConfiguration → Activated H P
  unfolding activate_validated
  activate_configured x c none = (x, c, err configuration_not_validated)
  activate_configured x c (some configuration) =
      activate_validated x c configuration x.payload_limit

  unfoldable pub activate : Exchange → Channel → Activated H P
  unfolding activate_configured
  activate x c =
      if not (c.instance_id == x.channel_instance_id)
      then (x, retire c, err channel_instance_mismatch)
      else if c.retired
      then (
        record x {
          configuration = none;
          expected_manifest = none;
          payload_limit = none;
          state = failed;
        },
        c,
        err channel_retired,
      )
      else if not (is_runtime x.role)
      then (x, c, err runtime_role_required)
      else activate_configured x c x.configuration
