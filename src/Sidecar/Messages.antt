-- ===== src/Sidecar/Messages.antt =====
-- The values that a supervisor and a runtime exchange after the handshake (sidecar_runtime.rs). `V` is
-- the type of JSON values.
use openclaw_rust_node.Base.{ℕ, String, Option, List}

pub record SidecarCommandRegistration : Type 0 where
  pub name : String

pub record SidecarRuntimeConfiguration : Type 0 where
  pub manifest_generation : ℕ
  pub capabilities : List String
  pub commands : List SidecarCommandRegistration
  pub max_concurrency : ℕ
  pub max_input_bytes : ℕ
  pub max_output_bytes : ℕ
  pub default_timeout_ms : ℕ
  pub max_timeout_ms : ℕ
  pub result_grace_ms : ℕ

pub record SidecarRuntimeManifest : Type 0 where
  pub manifest_generation : ℕ
  pub capabilities : List String
  pub commands : List String

pub record SidecarInvocation (V : Type 0) : Type 0 where
  pub id : String
  pub node_id : String
  pub command : String
  pub params : V
  pub timeout_ms : Option ℕ
  pub idempotency_key : Option String
  pub session_key : Option String

pub data SidecarAdmissionDecision : Type 0 where
  allow : SidecarAdmissionDecision
  deny : String → String → SidecarAdmissionDecision

pub data SidecarInvocationResult (V : Type 0) : Type 0 where
  success : V → SidecarInvocationResult V
  failure : String → String → SidecarInvocationResult V

pub data SidecarRuntimeState : Type 0 where
  configured connecting ready backing_off paused draining stopped : SidecarRuntimeState

pub data SidecarRuntimeReason : Type 0 where
  transport gateway request_timeout event_lagged activation : SidecarRuntimeReason
  delivery_saturated result_task runtime_ended shutdown pairing : SidecarRuntimeReason
  authentication protocol configuration identity : SidecarRuntimeReason

pub record SidecarRuntimeStatus : Type 0 where
  pub state : SidecarRuntimeState
  pub manifest_generation : ℕ
  pub runtime_version : String
  pub attempt : ℕ
  pub reason : Option SidecarRuntimeReason

pub data SidecarRuntimeMessage (V : Type 0) : Type 0 where
  configure_message : SidecarRuntimeConfiguration → SidecarRuntimeMessage V
  configured_message : SidecarRuntimeManifest → SidecarRuntimeMessage V
  admission_request : SidecarInvocation V → SidecarRuntimeMessage V
  admission_decision : String → SidecarAdmissionDecision → SidecarRuntimeMessage V
  invoke : SidecarInvocation V → SidecarRuntimeMessage V
  result : String → SidecarInvocationResult V → SidecarRuntimeMessage V
  cancel : String → SidecarRuntimeMessage V
  status : SidecarRuntimeStatus → SidecarRuntimeMessage V
