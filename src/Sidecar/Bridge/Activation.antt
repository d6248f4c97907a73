-- ===== src/Sidecar/Bridge/Activation.antt =====
-- A runtime that has validated and acknowledged its configuration can be activated.
use mathlib.Core.Path.{subst}
use mathlib.Core.List.{append_assoc, append-nil}
use openclaw_rust_node.Base.{
  ℕ, max, String, true, false, ◌==◌, if◌then◌else◌, ◌≡◌, refl, sym, ap, ◌∙◌, inl, inr, none, some,
  List, [], ◌∷◌, ◌++◌, map, All, Bool-cases, str_eq, eq_iff, from_millis, arith,
}
use openclaw_rust_node.Base.Results.{ok}
use openclaw_rust_node.Text.Names.{AreDistinct, is_in, sorted}
use openclaw_rust_node.Runtime.Build.{
  CommandRuntimeBuilder, CommandRuntime, Registration, default, max_concurrency, max_input_bytes,
  max_output_bytes, default_timeout, max_timeout, result_grace, capability, admission_policy,
  command, register, registered, build, assemble, get,
}
use openclaw_rust_node.Runtime.Build.Accepted.{
  IsNamed, IsRegistrable, names, build-IsOk_iff, build-ok, build_routes, find_registration,
}
use openclaw_rust_node.Sidecar.Channel.{Channel}
use openclaw_rust_node.Sidecar.Protocol.{SidecarProtocolSelection, runtime}
use openclaw_rust_node.Sidecar.Messages.{SidecarRuntimeConfiguration, SidecarRuntimeManifest}
use openclaw_rust_node.Sidecar.Configuration.{
  command_names, is_name, manifest_from_configuration, validate_configuration,
}
use openclaw_rust_node.Sidecar.Configuration.Names.{IsAllowed}
use openclaw_rust_node.Sidecar.Configuration.Limits.{IsWithin, validate_configuration-ok_iff}
use openclaw_rust_node.Sidecar.Exchange.{Exchange, configured, activated, is_expected}
use openclaw_rust_node.Sidecar.Bridge.{
  with_limits, with_capabilities, with_commands, builder_of, build_command_runtime, bridge_of,
  activate_built, activate_validated, activate_configured, activate, is_configured, is_runtime,
}
use openclaw_rust_node.Sidecar.Bridge.Names.{
  trim-name, All-sorted, AreDistinct-sorted, is_system_command-is_reserved,
}

abbrev registration : {H : Type 0} → (String → H) → String → Registration H
registration handler n = record { command = n; handler = handler n; duplex = false }

module _ {H P : Type 0} where
  with_capabilities_lem :
      (b : CommandRuntimeBuilder H P) (ns : List String)
      → with_capabilities b ns ≡ record b { capabilities = b.capabilities ++ ns }
  unfolding with_capabilities capability
  with_capabilities_lem b [] = rw (append-nil b.capabilities) refl
  with_capabilities_lem b (n ∷ ns) =
      with_capabilities_lem (capability b n) ns
      ∙ ap (λ cs. record b { capabilities = cs }) (append_assoc b.capabilities (n ∷ []) ns)

  with_commands_lem :
      (b : CommandRuntimeBuilder H P) (handler : String → H) (ns : List String)
      → with_commands b handler ns
        ≡ record b { registrations = b.registrations ++ map (registration handler) ns }
  unfolding with_commands command register
  with_commands_lem b handler [] = rw (append-nil b.registrations) refl
  with_commands_lem b handler (n ∷ ns) =
      with_commands_lem (command b n (handler n)) handler ns
      ∙ ap (λ rs. record b { registrations = rs })
          (append_assoc b.registrations (registration handler n ∷ [])
            (map (registration handler) ns))

  -- The builder, with everything that it was given.
  given :
      SidecarRuntimeConfiguration
      → SidecarRuntimeManifest
      → P
      → (String → H)
      → CommandRuntimeBuilder H P
  given c manifest policy handler = record {
    registrations = map (registration handler) manifest.commands;
    capabilities = manifest.capabilities;
    admission_policy = some policy;
    max_concurrency = max c.max_concurrency 1;
    max_input_bytes = max c.max_input_bytes 1;
    max_output_bytes = max c.max_output_bytes 1;
    default_timeout = max (from_millis c.default_timeout_ms) (from_millis 1);
    max_timeout = max (from_millis c.max_timeout_ms) (from_millis 1);
    result_grace = from_millis c.result_grace_ms;
  }

  builder_of_lem :
      (c : SidecarRuntimeConfiguration) (manifest : SidecarRuntimeManifest) (policy : P)
      (handler : String → H)
      → builder_of c manifest policy handler ≡ given c manifest policy handler
  unfolding builder_of given with_limits admission_policy default max_concurrency max_input_bytes
      max_output_bytes default_timeout max_timeout result_grace
  builder_of_lem c manifest policy handler =
      with_commands_lem _ handler manifest.commands
      ∙ ap
          (λ b. record (admission_policy b policy) {
            registrations = b.registrations ++ map (registration handler) manifest.commands;
          })
          (with_capabilities_lem (with_limits c) manifest.capabilities)

named : (n : String) → is_name n ≡ true → IsNamed n
unfolding is_name
named n h = rw (trim-name n h) (ground arith)

allowed-IsNamed : (ns : List String) → All (IsAllowed false) ns → All IsNamed ns
allowed-IsNamed [] a = tt
allowed-IsNamed (n ∷ ns) (a, more) = (named n a.0, allowed-IsNamed ns more)

module _ {H : Type 0} (handler : String → H) where
  allowed-IsRegistrable :
      (ns : List String)
      → All (IsAllowed true) ns
      → All IsRegistrable (map (registration handler) ns)
  allowed-IsRegistrable [] a = tt
  allowed-IsRegistrable (n ∷ ns) (a, more) = (
    (named n a.0, rw (trim-name n a.0) (is_system_command-is_reserved n ∙ a.1)),
    allowed-IsRegistrable ns more,
  )

  names-registration :
      (ns : List String) → All (IsAllowed true) ns → names (map (registration handler) ns) ≡ ns
  names-registration [] a = refl
  names-registration (n ∷ ns) (a, more) =
      rw (trim-name n a.0) (ap (◌∷◌ n) (names-registration ns more))

  find-registration :
      (name : String) (ns : List String)
      → All (IsAllowed true) ns
      → find_registration (map (registration handler) ns) name
        ≡ (if is_in name ns then some (record { handler = handler name; duplex = false }) else none)
  unfolding is_in registered
  find-registration name [] a = refl
  find-registration name (n ∷ ns) (a, more) = elim (Bool-cases (str_eq name n)) [
    | inl e ↦
        let q : n ≡ name = sym ((eq_iff name n).0 e) in
        rw (trim-name n a.0, e) (ap (λ m. some (registered (registration handler m))) q)
    | inr e ↦ rw (trim-name n a.0, e) (find-registration name ns more)
  ]

-- The runtime keeps the limits of the configuration, asks the policy, and routes exactly its commands.
pub record Serves {H P : Type 0} (c : SidecarRuntimeConfiguration) (policy : P)
    (handler : String → H) (r : CommandRuntime H P) : Type 0 where
  pub permits : r.permits ≡ c.max_concurrency
  pub max_input_bytes : r.max_input_bytes ≡ c.max_input_bytes
  pub max_output_bytes : r.max_output_bytes ≡ c.max_output_bytes
  pub default_timeout : r.default_timeout ≡ from_millis c.default_timeout_ms
  pub max_timeout : r.max_timeout ≡ from_millis c.max_timeout_ms
  pub result_grace : r.result_grace ≡ from_millis c.result_grace_ms
  pub admission : r.admission_policy ≡ some policy
  pub routes :
      (name : String)
      → get r.handlers name ≡ (
          if is_in name (sorted (command_names c))
          then some (record { handler = handler name; duplex = false })
          else none)

module _ {H P : Type 0} (c : SidecarRuntimeConfiguration) (policy : P) (handler : String → H) where
  built-Serves :
      (failure_bytes : String → String → ℕ) (selection : SidecarProtocolSelection)
      → IsWithin failure_bytes c selection
      → (r : CommandRuntime H P)
      → build (given c (manifest_from_configuration c) policy handler) ≡ ok r
      → Serves c policy handler r
  unfolding manifest_from_configuration given assemble
  built-Serves failure_bytes selection w r built =
      let (cs, hs, p, q, e) =
        build-ok (given c (manifest_from_configuration c) policy handler) r built in
      record {
        permits = rw e (omega (arith, w.concurrency));
        max_input_bytes = rw e (omega (arith, w.input));
        max_output_bytes = rw e (omega (arith, w.output));
        default_timeout = rw e (omega (arith, w.grace, w.timeouts));
        max_timeout = rw e (omega (arith, w.grace, w.timeouts));
        result_grace = rw e refl;
        admission = rw e refl;
        routes = λ name.
            (build_routes (given c (manifest_from_configuration c) policy handler) r built).1 name
            ∙ find-registration handler name (sorted (command_names c))
                (All-sorted (IsAllowed true) (command_names c) w.commands_allowed);
      }

  build_command_runtime-Serves :
      (failure_bytes : String → String → ℕ) (selection : SidecarProtocolSelection)
      → IsWithin failure_bytes c selection
      → (r : CommandRuntime H P) × (build_command_runtime c
            (manifest_from_configuration c)
            policy
            handler
          ≡ ok r)
        × Serves c policy handler r
  unfolding build_command_runtime manifest_from_configuration given
  build_command_runtime-Serves failure_bytes selection w =
      let manifest = manifest_from_configuration c in
      let b = given c manifest policy handler in
      let allowed = All-sorted (IsAllowed true) (command_names c) w.commands_allowed in
      let same = names-registration handler (sorted (command_names c)) allowed in
      let (r, built) = (build-IsOk_iff b).1 (
        allowed-IsNamed (sorted c.capabilities)
            (All-sorted (IsAllowed false) c.capabilities w.capabilities_allowed),
        allowed-IsRegistrable handler (sorted (command_names c)) allowed,
        subst AreDistinct (sym same) (AreDistinct-sorted (command_names c) w.commands_distinct),
      ) in
      (
        r,
        ap build (builder_of_lem c manifest policy handler) ∙ built,
        built-Serves failure_bytes selection w r built,
      )

  activate_validated_lem :
      (x : Exchange) (channel : Channel) (limit : ℕ) (r : CommandRuntime H P)
      → is_configured x.state ≡ true
      → is_expected x (manifest_from_configuration c) ≡ true
      → build_command_runtime c (manifest_from_configuration c) policy handler ≡ ok r
      → activate_validated policy handler x channel c (some limit) ≡ (
        record x { state = activated },
        channel,
        ok (bridge_of x (manifest_from_configuration c) r),
      )
  unfolding activate_validated activate_built
  activate_validated_lem x channel limit r state expected built = rw (state, expected, built) refl

  activate_lem :
      (x : Exchange) (channel : Channel)
      → (channel.instance_id == x.channel_instance_id) ≡ true
      → channel.retired ≡ false
      → is_runtime x.role ≡ true
      → activate policy handler x channel
        ≡ activate_configured policy handler x channel x.configuration
  unfolding activate
  activate_lem x channel live open_channel role = rw (live, role) (ground arith)

  -- Once a runtime has acknowledged a configuration that passes the validation, the activation on its
  -- live channel succeeds: the command runtime is built, with the limits of the configuration as they
  -- are, and it routes exactly the configured commands; and the exchange is activated.
  pub activate-Serves :
      (failure_bytes : String → String → ℕ) (x : Exchange) (channel : Channel) (limit : ℕ)
      → validate_configuration failure_bytes c x.selection ≡ ok tt
      → (channel.instance_id == x.channel_instance_id) ≡ true
      → channel.retired ≡ false
      → x.role ≡ runtime
      → x.configuration ≡ some c
      → x.state ≡ configured
      → is_expected x (manifest_from_configuration c) ≡ true
      → x.payload_limit ≡ some limit
      → (r : CommandRuntime H P) × (activate policy handler x channel ≡ (
        record x { state = activated },
        channel,
        ok (bridge_of x (manifest_from_configuration c) r),
      ))
        × Serves c policy handler r
  unfolding activate_configured
  activate-Serves failure_bytes x channel limit valid live open_channel role configuration state
        expected payload =
      let within = (validate_configuration-ok_iff failure_bytes c x.selection).0 valid in
      let (r, built, serves) = build_command_runtime-Serves failure_bytes x.selection within in
      (
        r,
        activate_lem x channel live open_channel (ap is_runtime role)
            ∙ ap (activate_configured policy handler x channel) configuration
            ∙ ap (activate_validated policy handler x channel c) payload
            ∙ activate_validated_lem x channel limit r (ap is_configured state) expected built,
        serves,
      )
