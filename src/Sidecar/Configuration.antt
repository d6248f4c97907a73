-- ===== src/Sidecar/Configuration.antt =====
-- The validation of a runtime configuration and the manifest of it (sidecar_runtime.rs).
pub mod Names
pub mod Limits
use Prim.Native.Char.{Char, code}
use Prim.Native.String.{len}
use text.Mathlib.Text.{starts_with}
use openclaw_rust_node.Base.{
  ℕ, ◌+◌, ◌-◌, max, String, Bool, true, false, not, ◌||◌, ◌&&◌, ◌==◌, ltb, leb, some, List, [], ◌∷◌,
  map, length, str_eq,
}
use openclaw_rust_node.Base.Results.{Result, ok, ◌>>=◌, ◌>>◌, fail_if}
use openclaw_rust_node.Text.{is_empty, is_ascii_alphanumeric, all_chars}
use openclaw_rust_node.Text.Names.{is_in, sorted}
use openclaw_rust_node.Sidecar.Protocol.{SidecarProtocolSelection, sidecar_max_feature_bits}
use openclaw_rust_node.Sidecar.Frame.{Codec}
use openclaw_rust_node.Sidecar.Messages.{
  SidecarRuntimeConfiguration, SidecarRuntimeManifest, SidecarRuntimeMessage, status, backing_off,
  delivery_saturated,
}

pub data BridgeError : Type 0 where
  configuration_not_validated channel_instance_mismatch channel_retired : BridgeError
  status_message_too_large runtime_role_required invalid_manifest_generation : BridgeError
  invalid_limit invalid_name duplicate_name reserved_command runtime_build : String → BridgeError

abbrev pub max_portable_json_integer : ℕ
max_portable_json_integer = sidecar_max_feature_bits

abbrev pub is_name_char : Char → Bool
is_name_char c = is_ascii_alphanumeric c || code c == b'.' || code c == b'_' || code c == b'-'

-- The shape of a name. The source tests bytes, and every byte of a character beyond ASCII fails.
unfoldable pub is_name : String → Bool
is_name name = not (is_empty name) && leb (len name) 128 && all_chars is_name_char name

-- The namespace of commands that is not the product's to register.
unfoldable pub is_reserved : String → Bool
is_reserved name = str_eq name "system" || starts_with name "system."

-- The loop of `validate_names`, with the set of the names before.
unfoldable pub validate_names_after :
    List String → List String → Bool → Result BridgeError (Unit {0})
validate_names_after unique [] commands = ok tt
validate_names_after unique (name ∷ names) commands = do
  fail_if (not (is_name name)) (invalid_name name)
  fail_if (commands && is_reserved name) (reserved_command name)
  fail_if (is_in name unique) (duplicate_name name)
  validate_names_after (name ∷ unique) names commands

unfoldable pub validate_names : List String → Bool → Result BridgeError (Unit {0})
unfolding validate_names_after
validate_names names commands = validate_names_after [] names commands

abbrev pub command_names : SidecarRuntimeConfiguration → List String
command_names c = map (λ command. command.name) c.commands

unfoldable pub manifest_from_configuration : SidecarRuntimeConfiguration → SidecarRuntimeManifest
manifest_from_configuration c = record {
  manifest_generation = c.manifest_generation;
  capabilities = sorted c.capabilities;
  commands = sorted (command_names c);
}

-- `failure_bytes code message` is the length of the JSON text of the object with these two fields,
-- which serde_json prints.
module _ (failure_bytes : String → String → ℕ) where
  unfoldable pub minimum_bridge_failure_bytes : ℕ
  minimum_bridge_failure_bytes =
      max
        (failure_bytes "SIDECAR_MESSAGE_TOO_LARGE"
          "complete sidecar message exceeds the authenticated payload limit")
        (max
          (failure_bytes "SIDECAR_NON_PORTABLE_JSON"
            "sidecar message contains an integer outside the exact JSON range")
          (failure_bytes "SIDECAR_CHANNEL_RETIRED"
            "authenticated sidecar channel is no longer live"))

  unfoldable pub validate_configuration :
      SidecarRuntimeConfiguration → SidecarProtocolSelection → Result BridgeError (Unit {0})
  validate_configuration c negotiated = do
    fail_if (c.manifest_generation == 0 || ltb max_portable_json_integer c.manifest_generation)
        invalid_manifest_generation
    fail_if (c.max_concurrency == 0 || ltb negotiated.limits.max_in_flight c.max_concurrency)
        (invalid_limit "maxConcurrency")
    fail_if (c.max_input_bytes == 0 || ltb negotiated.limits.max_frame_bytes c.max_input_bytes)
        (invalid_limit "maxInputBytes")
    fail_if
        (c.max_output_bytes == 0
          || ltb c.max_output_bytes minimum_bridge_failure_bytes
          || ltb negotiated.limits.max_frame_bytes c.max_output_bytes)
        (invalid_limit "maxOutputBytes")
    fail_if
        (c.default_timeout_ms == 0
          || c.max_timeout_ms == 0
          || ltb c.max_timeout_ms c.default_timeout_ms
          || leb c.default_timeout_ms c.result_grace_ms)
        (invalid_limit "timeouts")
    validate_names c.capabilities false
    validate_names (command_names c) true

-- `PayloadSizeLimiter`: the writes of a serializer that only counts, up to the first that fails.
unfoldable pub count_pieces : ℕ → ℕ → List (List ℕ) → Bool
count_pieces limit written [] = true
count_pieces limit written (p ∷ ps) =
    not (ltb (limit - written) (length p)) && count_pieces limit (written + length p) ps

unfoldable pub runtime_message_within_limit : {T : Type 0} → Codec T → T → ℕ → Bool
unfolding count_pieces
runtime_message_within_limit codec message limit =
    count_pieces limit 0 (codec.pieces message) && codec.complete message

-- The largest status that a runtime ever reports has to fit a frame.
unfoldable pub validate_status_budget :
    {V : Type 0} → Codec (SidecarRuntimeMessage V) → String → ℕ → ℕ → Result BridgeError (Unit {0})
unfolding runtime_message_within_limit
validate_status_budget codec runtime_version manifest_generation max_payload_bytes =
    let worst_case = status (record {
      state = backing_off;
      manifest_generation = manifest_generation;
      runtime_version = runtime_version;
      attempt = max_portable_json_integer;
      reason = some delivery_saturated;
    }) in
    fail_if (not (runtime_message_within_limit codec worst_case max_payload_bytes))
      status_message_too_large
