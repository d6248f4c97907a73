-- ===== src/Node/Surface.antt =====
-- The surface that a connection advertises: `CommandRuntime::activate` (runtime.rs) declares it, and
-- `NodeClient::connect` (node.rs) finalizes the options of an attempt and checks the Gateway's hello.
use mathlib.Core.Path.{subst}
use mathlib.Core.List.{append_assoc, append-nil}
use openclaw_rust_node.Base.{
  ℕ, String, Bool, true, false, if◌then◌else◌, ◌≡◌, refl, ap, ◌∙◌, inl, inr, Option, none, some,
  List, [], ◌∷◌, ◌++◌, Bool-cases, arith,
}
use openclaw_rust_node.Base.Results.{Result, ok, err, ◌>>=◌}
use openclaw_rust_node.Client.{IdentityError}
use openclaw_rust_node.Node.Options.{
  NodeProtocolVersion, v3, v4, number, DeviceProof, NodeConnectOptions, Signer, with_capability,
  with_command, with_activation, for_protocol, token_of, advertise, prove, finalize_identity,
}
use openclaw_rust_node.Runtime.Build.{CommandRuntime, command_names, capability_names}

module _ {I : Type 0} where
  unfoldable pub declare_capabilities : NodeConnectOptions I → List String → NodeConnectOptions I
  declare_capabilities o [] = o
  declare_capabilities o (name ∷ names) = declare_capabilities (with_capability o name) names

  unfoldable pub declare_commands : NodeConnectOptions I → List String → NodeConnectOptions I
  declare_commands o [] = o
  declare_commands o (name ∷ names) = declare_commands (with_command o name) names

  -- `CommandRuntime::activate`.
  unfoldable pub activate_options :
      {H P : Type 0} → CommandRuntime H P → NodeConnectOptions I → NodeConnectOptions I
  unfolding declare_capabilities declare_commands
  activate_options r o =
      with_activation
        (declare_commands (declare_capabilities o (capability_names r)) (command_names r))

  -- The options of one attempt, for its dialect and challenge.
  unfoldable pub connect_options :
      Signer I
      → NodeConnectOptions I
      → NodeProtocolVersion
      → (nonce : String) → (issued_at_ms : ℕ) → Result IdentityError (NodeConnectOptions I)
  connect_options sign o protocol nonce issued_at_ms =
      finalize_identity sign (for_protocol o protocol) nonce issued_at_ms

  declare_capabilities_lem :
      (o : NodeConnectOptions I) (names : List String)
      → declare_capabilities o names ≡ record o { declared_caps = o.declared_caps ++ names }
  unfolding declare_capabilities with_capability
  declare_capabilities_lem o [] = rw (append-nil o.declared_caps) refl
  declare_capabilities_lem o (n ∷ names) =
      declare_capabilities_lem (with_capability o n) names
      ∙ ap (λ cs. record o { declared_caps = cs }) (append_assoc o.declared_caps (n ∷ []) names)

  declare_commands_lem :
      (o : NodeConnectOptions I) (names : List String)
      → declare_commands o names ≡ record o { declared_commands = o.declared_commands ++ names }
  unfolding declare_commands with_command
  declare_commands_lem o [] = rw (append-nil o.declared_commands) refl
  declare_commands_lem o (n ∷ names) =
      declare_commands_lem (with_command o n) names
      ∙ ap (λ cs. record o { declared_commands = cs })
          (append_assoc o.declared_commands (n ∷ []) names)

  -- What the Gateway is told of the options in an attempt.
  pub record Advertises (caps commands : List String) (permissions : List (String × Bool))
      (protocol : NodeProtocolVersion) (o : NodeConnectOptions I) : Type 0 where
    pub same_caps : o.advertised_caps ≡ caps
    pub same_commands : o.advertised_commands ≡ commands
    pub same_permissions : o.advertised_permissions ≡ permissions
    pub lowest : o.min_protocol ≡ number protocol
    pub highest : o.max_protocol ≡ number protocol

  prove-Advertises :
      (sign : Signer I) (o o' : NodeConnectOptions I) (identity : Option I) (nonce : String)
      (issued_at_ms : ℕ) (caps commands : List String) (permissions : List (String × Bool))
      (protocol : NodeProtocolVersion)
      → Advertises caps commands permissions protocol o
      → prove sign o identity nonce issued_at_ms ≡ ok o'
      → Advertises caps commands permissions protocol o'
  unfolding prove
  prove-Advertises sign o o' none nonce t caps commands permissions protocol a h =
      let same : o ≡ o' = ground arith in
      subst (Advertises caps commands permissions protocol) same a
  prove-Advertises sign o o' (some i) nonce t caps commands permissions protocol a h =
      proved (sign i nonce o.client.platform o.client.device_family (token_of o.auth) t) h
    where
      proved :
          (p : Result IdentityError DeviceProof)
          → (p >>= (λ proof. ok (record o { identity = none; device = some proof }))) ≡ ok o'
          → Advertises caps commands permissions protocol o'
      proved (err e) g = absurd (ground arith)
      proved (ok proof) g =
          let same : record o { identity = none; device = some proof } ≡ o' = ground arith in
          subst (Advertises caps commands permissions protocol) same (record {
            same_caps = a.same_caps;
            same_commands = a.same_commands;
            same_permissions = a.same_permissions;
            lowest = a.lowest;
            highest = a.highest;
          })

  for_protocol-Advertises :
      (o : NodeConnectOptions I) (protocol : NodeProtocolVersion)
      → Advertises
          (if o.activated then o.declared_caps else o.advertised_caps)
          (if o.activated then o.declared_commands else o.advertised_commands)
          (if o.activated then o.declared_permissions else o.advertised_permissions)
          protocol
          (advertise (for_protocol o protocol))
  unfolding for_protocol advertise
  for_protocol-Advertises o v3 = elim (Bool-cases o.activated) [
    | inl e ↦ rw e (record {
      same_caps = refl;
      same_commands = refl;
      same_permissions = refl;
      lowest = refl;
      highest = refl;
    })
    | inr e ↦ rw e (record {
      same_caps = refl;
      same_commands = refl;
      same_permissions = refl;
      lowest = refl;
      highest = refl;
    })
  ]
  for_protocol-Advertises o v4 = elim (Bool-cases o.activated) [
    | inl e ↦ rw e (record {
      same_caps = refl;
      same_commands = refl;
      same_permissions = refl;
      lowest = refl;
      highest = refl;
    })
    | inr e ↦ rw e (record {
      same_caps = refl;
      same_commands = refl;
      same_permissions = refl;
      lowest = refl;
      highest = refl;
    })
  ]

  attempt-Advertises :
      (sign : Signer I) (o o' : NodeConnectOptions I) (protocol : NodeProtocolVersion)
      (nonce : String) (issued_at_ms : ℕ)
      → connect_options sign o protocol nonce issued_at_ms ≡ ok o'
      → Advertises
          (if o.activated then o.declared_caps else o.advertised_caps)
          (if o.activated then o.declared_commands else o.advertised_commands)
          (if o.activated then o.declared_permissions else o.advertised_permissions)
          protocol
          o'
  unfolding connect_options finalize_identity
  attempt-Advertises sign o o' protocol nonce t h =
      prove-Advertises sign (advertise (for_protocol o protocol)) o' _ nonce t _ _ _ protocol
        (for_protocol-Advertises o protocol) h

  activate_options_lem :
      {H P : Type 0} (r : CommandRuntime H P) (o : NodeConnectOptions I)
      → activate_options r o ≡ record o {
        declared_caps = o.declared_caps ++ capability_names r;
        declared_commands = o.declared_commands ++ command_names r;
        activated = true;
      }
  unfolding activate_options with_activation
  activate_options_lem r o =
      let more : NodeConnectOptions I → NodeConnectOptions I =
        λ p. record p { declared_commands = p.declared_commands ++ command_names r } in
      ap with_activation (
        declare_commands_lem (declare_capabilities o (capability_names r)) (command_names r)
        ∙ ap more (declare_capabilities_lem o (capability_names r)))

  -- In either dialect, and whatever identity signs, an attempt with the options that a command runtime
  -- has activated advertises the capabilities and commands that they declared before, with exactly the
  -- runtime's own behind them, and the permissions that they declared, under the one protocol
  -- version of the dialect; an attempt with options that are not activated advertises exactly the
  -- capabilities, commands and permissions that they advertised already, under that version.
  pub attempts-Advertises :
      {H P : Type 0} (r : CommandRuntime H P) (sign : Signer I) (o : NodeConnectOptions I)
      (protocol : NodeProtocolVersion) (nonce : String) (issued_at_ms : ℕ)
      → ((o' : NodeConnectOptions I)
          → connect_options sign (activate_options r o) protocol nonce issued_at_ms ≡ ok o'
          → Advertises
              (o.declared_caps ++ capability_names r)
              (o.declared_commands ++ command_names r)
              o.declared_permissions
              protocol
              o')
        × ((o' : NodeConnectOptions I)
            → o.activated ≡ false
            → connect_options sign o protocol nonce issued_at_ms ≡ ok o'
            → Advertises o.advertised_caps o.advertised_commands o.advertised_permissions protocol
                o')
  attempts-Advertises r sign o protocol nonce t = (
    λ o' h.
        attempt-Advertises sign _ o' protocol nonce t (
          subst (λ p. connect_options sign p protocol nonce t ≡ ok o') (activate_options_lem r o)
            h),
    λ o' e h.
        subst
          (λ b.
            Advertises (if b then o.declared_caps else o.advertised_caps)
              (if b then o.declared_commands else o.advertised_commands)
              (if b then o.declared_permissions else o.advertised_permissions) protocol o')
          e (attempt-Advertises sign o o' protocol nonce t h),
  )
