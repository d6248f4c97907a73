-- ===== src/Sidecar/Configuration/Limits.antt =====
-- The bounds that a validated configuration keeps.
use openclaw_rust_node.Base.{ℕ, String, ◌≤◌, ◌<◌, ◌≡◌, All, ◌↔◌, true, false, List, [], ◌∷◌, arith}
use openclaw_rust_node.Base.Results.{ok}
use openclaw_rust_node.Sidecar.Protocol.{SidecarProtocolSelection}
use openclaw_rust_node.Sidecar.Messages.{SidecarRuntimeConfiguration}
use openclaw_rust_node.Sidecar.Configuration.{
  max_portable_json_integer, minimum_bridge_failure_bytes, command_names, validate_configuration,
}
use openclaw_rust_node.Sidecar.Configuration.Names.{IsAllowed, validate_names-ok_iff}
use openclaw_rust_node.Text.Names.{AreDistinct}

-- The failures that the bridge reports by itself: a message that is too large, a number that is not
-- portable, and a channel that is retired.
abbrev pub bridge_failures : List (String × String)
bridge_failures =
    (
      "SIDECAR_MESSAGE_TOO_LARGE",
      "complete sidecar message exceeds the authenticated payload limit",
    )
    ∷ (
      "SIDECAR_NON_PORTABLE_JSON",
      "sidecar message contains an integer outside the exact JSON range",
    )
    ∷ ("SIDECAR_CHANNEL_RETIRED", "authenticated sidecar channel is no longer live")
    ∷ []

-- What a configuration keeps under a selection, with room in the output for every failure that the
-- bridge reports by itself.
pub record IsWithin (failure_bytes : String → String → ℕ) (c : SidecarRuntimeConfiguration)
    (s : SidecarProtocolSelection) : Type 0 where
  pub generation : 0 < c.manifest_generation
  pub portable : c.manifest_generation ≤ max_portable_json_integer
  pub concurrency : 0 < c.max_concurrency
  pub in_flight : c.max_concurrency ≤ s.limits.max_in_flight
  pub input : 0 < c.max_input_bytes
  pub input_fits : c.max_input_bytes ≤ s.limits.max_frame_bytes
  pub output : 0 < c.max_output_bytes
  pub failures_fit : All (λ f. failure_bytes f.0 f.1 ≤ c.max_output_bytes) bridge_failures
  pub output_fits : c.max_output_bytes ≤ s.limits.max_frame_bytes
  pub grace : c.result_grace_ms < c.default_timeout_ms
  pub timeouts : c.default_timeout_ms ≤ c.max_timeout_ms
  pub capabilities_allowed : All (IsAllowed false) c.capabilities
  pub capabilities_distinct : AreDistinct c.capabilities
  pub commands_allowed : All (IsAllowed true) (command_names c)
  pub commands_distinct : AreDistinct (command_names c)

module _ (failure_bytes : String → String → ℕ) where
  -- The validation accepts exactly the configurations with a positive generation that JSON's integers
  -- hold; a positive concurrency and positive input and output sizes within the negotiated limits; an
  -- output size that holds each of the failures that the bridge reports by itself; a grace below the
  -- default timeout, which is at most the maximum; and allowed and distinct names of capabilities
  -- and of commands.
  pub validate_configuration-ok_iff :
      (c : SidecarRuntimeConfiguration) (s : SidecarProtocolSelection)
      → (validate_configuration failure_bytes c s ≡ ok tt) ↔ IsWithin failure_bytes c s
  unfolding validate_configuration minimum_bridge_failure_bytes
  validate_configuration-ok_iff c s =
      let capabilities = validate_names-ok_iff c.capabilities false in
      let commands = validate_names-ok_iff (command_names c) true in
      (
        λ h. ground (arith, capabilities.0, commands.0),
        λ w. ground (
          arith,
          w.failures_fit,
          capabilities.1 (w.capabilities_allowed, w.capabilities_distinct),
          commands.1 (w.commands_allowed, w.commands_distinct),
        ),
      )
