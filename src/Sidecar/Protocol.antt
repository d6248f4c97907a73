-- ===== src/Sidecar/Protocol.antt =====
-- Roles, limits, offers and their negotiation (sidecar_protocol.rs).
pub mod Negotiation
use Prim.Native.Nat.{bit_and}
use openclaw_rust_node.Base.{ℕ, ◌-◌, ◌^◌, min, String, Bool, true, false, not, ◌||◌, ◌==◌, ltb}
use openclaw_rust_node.Base.Results.{Result, ok, ◌>>=◌, ◌>>◌, fail_if}

pub data SidecarPeerRole : Type 0 where
  supervisor runtime : SidecarPeerRole

pub data SidecarDirection : Type 0 where
  supervisor_to_runtime runtime_to_supervisor : SidecarDirection

unfoldable pub outgoing_direction : SidecarPeerRole → SidecarDirection
outgoing_direction supervisor = supervisor_to_runtime
outgoing_direction runtime = runtime_to_supervisor

unfoldable pub expected_remote : SidecarPeerRole → SidecarPeerRole
expected_remote supervisor = runtime
expected_remote runtime = supervisor

abbrev pub same_role : SidecarPeerRole → SidecarPeerRole → Bool
same_role supervisor supervisor = true
same_role runtime runtime = true
same_role supervisor runtime = false
same_role runtime supervisor = false

unfoldable pub wire_value : SidecarDirection → ℕ
wire_value supervisor_to_runtime = 1
wire_value runtime_to_supervisor = 2

pub record SidecarPeerIdentity : Type 0 where
  pub role : SidecarPeerRole
  pub name : String
  pub version : String
  pub artifact_identity : String

-- A `u32`, a `u16` and a `u32`.
pub record SidecarLimits : Type 0 where
  pub max_frame_bytes : ℕ
  pub max_in_flight : ℕ
  pub bootstrap_timeout_ms : ℕ

pub record SidecarProtocolOffer : Type 0 where
  pub protocol_major : ℕ
  pub protocol_minor : ℕ
  pub peer : SidecarPeerIdentity
  pub feature_bits : ℕ
  pub limits : SidecarLimits

pub record NegotiatedSidecarProtocol : Type 0 where
  pub protocol_major : ℕ
  pub protocol_minor : ℕ
  pub feature_bits : ℕ
  pub limits : SidecarLimits
  pub remote_peer : SidecarPeerIdentity

pub data SidecarProtocolError : Type 0 where
  channel_instance_id_exhausted invalid_feature_bits invalid_peer_role : SidecarProtocolError
  invalid_limit : String → SidecarProtocolError
  invalid_session_id : SidecarProtocolError
  limit_increase : (current requested : ℕ) → SidecarProtocolError
  frame_limit_locked invalid_generation : SidecarProtocolError
  unsupported_major : (local remote : ℕ) → SidecarProtocolError
  unsupported_local_minor : ℕ → SidecarProtocolError

abbrev pub sidecar_protocol_major : ℕ
sidecar_protocol_major = 1

abbrev pub sidecar_protocol_minor : ℕ
sidecar_protocol_minor = 0

abbrev pub sidecar_max_feature_bits : ℕ
sidecar_max_feature_bits = 2 ^ 53 - 1

abbrev pub min_frame_bytes : ℕ
min_frame_bytes = 65

unfoldable pub validate_limits : SidecarLimits → Result SidecarProtocolError SidecarLimits
validate_limits l = do
  fail_if (ltb l.max_frame_bytes min_frame_bytes) (invalid_limit "maxFrameBytes")
  fail_if (l.max_in_flight == 0) (invalid_limit "maxInFlight")
  fail_if (l.bootstrap_timeout_ms == 0) (invalid_limit "bootstrapTimeoutMs")
  ok l

abbrev pub min_limits : SidecarLimits → SidecarLimits → SidecarLimits
min_limits a b = record {
  max_frame_bytes = min a.max_frame_bytes b.max_frame_bytes;
  max_in_flight = min a.max_in_flight b.max_in_flight;
  bootstrap_timeout_ms = min a.bootstrap_timeout_ms b.bootstrap_timeout_ms;
}

-- What two offers agree on.
abbrev pub agreed : SidecarProtocolOffer → SidecarProtocolOffer → NegotiatedSidecarProtocol
agreed local remote = record {
  protocol_major = sidecar_protocol_major;
  protocol_minor = min local.protocol_minor remote.protocol_minor;
  feature_bits = bit_and local.feature_bits remote.feature_bits;
  limits = min_limits local.limits remote.limits;
  remote_peer = remote.peer;
}

unfoldable pub negotiate_sidecar_protocol :
    SidecarProtocolOffer
    → SidecarProtocolOffer
    → Result SidecarProtocolError NegotiatedSidecarProtocol
unfolding validate_limits
negotiate_sidecar_protocol local remote = do
  local_limits ← validate_limits local.limits
  remote_limits ← validate_limits remote.limits
  fail_if (same_role local.peer.role remote.peer.role) invalid_peer_role
  fail_if
      (ltb sidecar_max_feature_bits local.feature_bits
        || ltb sidecar_max_feature_bits remote.feature_bits)
      invalid_feature_bits
  fail_if
      (not (local.protocol_major == sidecar_protocol_major)
        || not (remote.protocol_major == sidecar_protocol_major))
      (unsupported_major local.protocol_major remote.protocol_major)
  fail_if (ltb sidecar_protocol_minor local.protocol_minor)
      (unsupported_local_minor local.protocol_minor)
  ok (agreed local remote)

-- The selection that a handshake message carries (sidecar_handshake.rs).
pub record SidecarProtocolSelection : Type 0 where
  pub protocol_major : ℕ
  pub protocol_minor : ℕ
  pub feature_bits : ℕ
  pub limits : SidecarLimits

abbrev pub selection_of : NegotiatedSidecarProtocol → SidecarProtocolSelection
selection_of n = record {
  protocol_major = n.protocol_major;
  protocol_minor = n.protocol_minor;
  feature_bits = n.feature_bits;
  limits = n.limits;
}
