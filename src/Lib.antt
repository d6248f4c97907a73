-- ===== src/Lib.antt =====
-- The OpenClaw Rust node: a program that connects to a Gateway, runs the commands it is sent, and can
-- itself be run as the supervised child ("sidecar") of another process. The files below follow the
-- crates `crates/openclaw-node-host` and `crates/openclaw-gateway-client`; paths are from the
-- repository's root.
--
-- The parts and how they interact. A supervisor and a runtime share a session key. Each has a channel
-- (`sidecar_protocol.rs`) that seals values into authenticated frames and opens the other's; over it
-- they run a handshake (`sidecar_handshake.rs`) that negotiates version, features and limits, and then
-- the exchange of one configuration (`sidecar_runtime.rs`). The runtime then connects to the Gateway;
-- the loop of `lifecycle.rs` connects again and again, and a failure is classified and answered by a
-- reconnect policy (`reconnect.rs`). The events of a session (`node.rs`) start, feed and cancel
-- invocations; the command runtime (`runtime.rs`) tracks and evaluates them with the handlers that it
-- was built with, in a loop with a fixed number of permits, and their input and output pass through the
-- buffer and the chunks of `duplex.rs`.
--
--   Base, Text            lists, numbers, durations, results, bytes and strings of the parts below
--   Json, Json/Plain      the operations of `serde_json::Value` that the code calls, as a record; a
--                         concrete instance for the examples
--   Client                `ClientError` of `node.rs`, `IdentityError` of `identity.rs`
--   GatewayClient         `ConnectErrorDetails`, `reconnect_backoff` of
--                         `crates/openclaw-gateway-client/src/lib.rs` (proofs in Backoff)
--   Reconnect             `reconnect.rs`: Details reads the details of an error, Classify decides on a
--                         pause, Policy has the state and its operations; proofs in Policy/Delays and
--                         Policy/Actions
--   Duplex                `duplex.rs`: Input is the buffer of one invocation (proofs in Bounds and
--                         Order), Progress cuts the output (proofs in Chunks)
--   Sidecar/Protocol      offers, limits and `negotiate_sidecar_protocol` (proofs in Negotiation)
--   Sidecar/Frame         the bounded writer and `take_slice` (proofs in Writer)
--   Sidecar/Channel       `AuthenticatedSidecarChannel` (proofs in Opening, Replay and RoundTrip)
--   Sidecar/Handshake     `SidecarHandshake` (proofs in States, Delivery and
--                         Agreement)
--   Sidecar/Messages      the values exchanged after the handshake, of `sidecar_runtime.rs`
--   Sidecar/Configuration validation and manifest of a runtime configuration, of
--                         `sidecar_runtime.rs` (proofs in Names and Limits)
--   Sidecar/Exchange      `SidecarConfigurationExchange` of `sidecar_runtime.rs` (proofs in States,
--                         Manifests, Delivery and Acknowledgement)
--   Node                  invocations, session events and results of `node.rs` (Invocations parses
--                         payloads, Results builds the parameters of a result, Events takes events
--                         from the session; Options has the connect options, Surface what an
--                         attempt advertises, Errors the Gateway client's errors)
--   Runtime/Build         `CommandRuntimeBuilder` of `runtime.rs` (proofs in Accepted)
--   Runtime/Active        `ActiveInvocations` of `runtime.rs`, its tokens and buffers as numbered cells
--                         (proofs in Cells, Invariant, Runs, Isolation, Growth and Cancellation)
--   Runtime/Limits, Futures
--                         `LimitWriter` of `runtime.rs`, and awaiting with a deadline
--   Runtime/Admission, Evaluate
--                         what `evaluate_tracked` of `runtime.rs` does before the handler, and all of
--                         it (proofs in Evaluate/Guards, Results and Completion)
--   Runtime/Tasks, Loop   `CommandRuntime::run` as a state and its events (proofs in Tasks/Permits,
--                         Loop/Bounds and Ending); what shares its permits and active invocations,
--                         as `dispatch` does, is among the events
--   Sidecar/Bridge        `SidecarRuntimeBridge::activate` and `build_command_runtime` of
--                         `sidecar_runtime.rs` (proofs in Names and Activation)
--   Sidecar/Status        `observe_lifecycle` of `sidecar_runtime.rs`
--   Lifecycle             `NodeLifecycle` of `lifecycle.rs` (Events; proofs in Trace and Delays)
--   Tests                 concrete runs and the instances of the theorems
--
-- State is passed explicitly: an operation takes the record of its object and gives the new record
-- with the result, so the two ends of a channel are two records. Names are those of the source in
-- snake case, and the constructors of a type are those of the source's enum; `Result` carries the
-- source's errors. Machine integers are natural numbers: a checked addition is `checked_add`, a
-- saturating one `saturating_add`, and theorems that need a bound on a field state it. Bytes are
-- numbers. A duration is a number of nanoseconds, bounded as `std::time::Duration` is.
--
-- Parameters. HMAC-SHA256 is a function of key and message, of which only the length of its result is
-- assumed, where that is needed. `serde_json` is a `Codec`: the pieces the serializer writes, whether
-- it completes, and the parser; that a value's text is read back is a hypothesis of the round trips.
-- The length of the JSON text of an error is a function of its code and message. A handler and an
-- admission policy are functions of the embedder's that panic or give a future, and a future is what it
-- comes to and the time it takes, or never. What ends a session and which of two ready futures a
-- `select` takes are values of the outside; where a `select` is biased, the code's order decides.
--
-- Loops. `InvocationProgress::write` runs on fuel, and the length of the text is enough of it. The
-- others recurse on the list or text they read.
--
-- Not modelled: sockets, processes, timers, TLS, key files and signatures, which are the operating
-- system's or third-party; the session over the Gateway client, the host commands, the bridge's
-- adapters, and the prototype in `src/` at the repository's root. Locks are not modelled: an operation is one step. An input buffer's operations hold
-- its lock throughout, `recv` in each round of its loop. Those of `ActiveInvocations` release the map's
-- lock before they cancel tokens and reach buffers, so that others may proceed between the two, which
-- no step shows.
pub mod Base
pub mod Text
pub mod Json
pub mod Client
pub mod GatewayClient
pub mod Reconnect
pub mod Node
pub mod Runtime
pub mod Lifecycle
pub mod Duplex
pub mod Sidecar
mod Tests
