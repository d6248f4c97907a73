-- ===== src/Tests/NodeTests.antt =====
-- The options of a node that activates the camera runtime, in the legacy dialect.
use openclaw_rust_node.Base.{String, false, ◌≡◌, ◌++◌}
use openclaw_rust_node.Base.Results.{ok, err}
use openclaw_rust_node.Client.{invalid_signature}
use openclaw_rust_node.Node.Options.{NodeConnectOptions, v3, Signer, new, with_permission}
use openclaw_rust_node.Node.Surface.{
  Advertises, activate_options, connect_options, attempts-Advertises,
}
use openclaw_rust_node.Runtime.Build.{capability_names, command_names}
use openclaw_rust_node.Tests.RuntimeTests.{runtime}

abbrev options : NodeConnectOptions String
options = with_permission (new "1.0" "macos") "camera" false

abbrev signer : Signer String
signer identity nonce platform device_family token issued_at_ms = err invalid_signature

attempts-Advertises_example :
    ((o : NodeConnectOptions String)
      → connect_options signer (activate_options runtime options) v3 "nonce" 1 ≡ ok o
      → Advertises
          (options.declared_caps ++ capability_names runtime)
          (options.declared_commands ++ command_names runtime)
          options.declared_permissions
          v3
          o)
    × ((o : NodeConnectOptions String)
        → options.activated ≡ false
        → connect_options signer options v3 "nonce" 1 ≡ ok o
        → Advertises options.advertised_caps options.advertised_commands
            options.advertised_permissions v3 o)
attempts-Advertises_example = attempts-Advertises runtime signer options v3 "nonce" 1
