-- ===== src/Sidecar/Handshake.antt =====
-- The authenticated offer and accept exchange (sidecar_handshake.rs). An operation takes the handshake
-- and the channel that it is given, and returns both with its result.
pub mod States
pub mod Delivery
pub mod Agreement
use openclaw_rust_node.Base.{
  ℕ, Bool, true, false, not, ◌||◌, ◌&&◌, ◌==◌, if◌then◌else◌, Option, none, some, List,
}
use openclaw_rust_node.Base.Results.{Result, ok, err, ◌>>=◌, ◌>>◌, fail_if, map_err}
use openclaw_rust_node.Text.{trim, is_empty}
use openclaw_rust_node.Sidecar.Protocol.{
  SidecarPeerRole, supervisor, runtime, expected_remote, same_role, SidecarProtocolOffer,
  NegotiatedSidecarProtocol, SidecarProtocolError, SidecarProtocolSelection, selection_of,
  negotiate_sidecar_protocol,
}
use openclaw_rust_node.Sidecar.Frame.{SidecarFrameError, channel_retired, Codec}
use openclaw_rust_node.Sidecar.Channel.{Channel, retire, seal, open_, apply_negotiated_protocol}

pub data HandshakeState : Type 0 where
  starting awaiting_acceptance acceptance_pending authenticated failed : HandshakeState

pub data HandshakeMessage : Type 0 where
  offer : SidecarProtocolOffer → HandshakeMessage
  accept : SidecarProtocolOffer → SidecarProtocolSelection → HandshakeMessage

pub data HandshakeError : Type 0 where
  frame : SidecarFrameError → HandshakeError
  negotiation : SidecarProtocolError → HandshakeError
  supervisor_must_initiate selection_mismatch unexpected_message : HandshakeError
  invalid_peer_identity wrong_peer_role channel_role_mismatch : HandshakeError
  channel_instance_mismatch : HandshakeError

pub record Handshake : Type 0 where
  pub local_offer : SidecarProtocolOffer
  pub state : HandshakeState
  pub negotiated : Option NegotiatedSidecarProtocol
  pub pending_negotiated : Option NegotiatedSidecarProtocol
  pub channel_instance_id : Option ℕ

abbrev pub local_role : Handshake → SidecarPeerRole
local_role h = h.local_offer.peer.role

-- The handshake, the channel and the result after an operation.
abbrev pub Outcome : Type 0 → Type 0
Outcome A = Handshake × Channel × Result HandshakeError A

abbrev pub is_starting : HandshakeState → Bool
is_starting starting = true
is_starting _ = false

abbrev pub is_acceptance_pending : HandshakeState → Bool
is_acceptance_pending acceptance_pending = true
is_acceptance_pending _ = false

unfoldable pub validate_peer_identity : SidecarProtocolOffer → Result HandshakeError (Unit {0})
validate_peer_identity o =
    fail_if
      (is_empty (trim o.peer.name)
        || is_empty (trim o.peer.version)
        || is_empty (trim o.peer.artifact_identity))
      invalid_peer_identity

-- The local offer is negotiated against a peer of the other role that offers the same.
unfoldable pub validate_local_offer : SidecarProtocolOffer → Result HandshakeError (Unit {0})
unfolding validate_peer_identity
validate_local_offer o = do
  validate_peer_identity o
  let counterpart = record o {
    peer = record {
      role = expected_remote o.peer.role;
      name = "validation-peer";
      version = "0";
      artifact_identity = "validation-only";
    };
  }
  negotiated ← map_err negotiation (negotiate_sidecar_protocol o counterpart)
  ok tt

unfoldable pub new : SidecarProtocolOffer → Result HandshakeError Handshake
unfolding validate_local_offer
new local_offer = do
  validate_local_offer local_offer
  ok (record {
    local_offer = local_offer;
    state = starting;
    negotiated = none;
    pending_negotiated = none;
    channel_instance_id = none;
  })

-- `fail`: the channel is retired with the handshake.
unfoldable pub fail : {A : Type 0} → Handshake → Channel → HandshakeError → Outcome A
unfolding retire
fail h c e =
    (record h { state = failed; negotiated = none; pending_negotiated = none }, retire c, err e)

unfoldable pub bind_to : Handshake → ℕ → Option ℕ → Result HandshakeError Handshake
bind_to h instance_id none = ok (record h { channel_instance_id = some instance_id })
bind_to h instance_id (some bound) =
    if bound == instance_id then ok h else err channel_instance_mismatch

unfoldable pub bind_channel : Handshake → Channel → Result HandshakeError Handshake
unfolding bind_to
bind_channel h c = bind_to h c.instance_id h.channel_instance_id

-- An operation on the bound channel; another channel is retired, and the handshake left alone.
abbrev on_bound : {A : Type 0} → Handshake → Channel → (Handshake → Outcome A) → Outcome A
on_bound h c k = elim (bind_channel h c) [ err e ↦ (h, retire c, err e) | ok bound ↦ k bound ]

abbrev pub selection_eq : SidecarProtocolSelection → SidecarProtocolSelection → Bool
selection_eq a b =
    a.protocol_major == b.protocol_major
    && a.protocol_minor == b.protocol_minor
    && a.feature_bits == b.feature_bits
    && a.limits.max_frame_bytes == b.limits.max_frame_bytes
    && a.limits.max_in_flight == b.limits.max_in_flight
    && a.limits.bootstrap_timeout_ms == b.limits.bootstrap_timeout_ms

-- What the peer's offer is checked for: its role, its identity, the negotiation.
unfoldable pub check_offer :
    Handshake
    → SidecarPeerRole
    → SidecarProtocolOffer
    → Result HandshakeError NegotiatedSidecarProtocol
unfolding validate_peer_identity
check_offer h role remote = do
  fail_if (not (same_role remote.peer.role role)) wrong_peer_role
  validate_peer_identity remote
  map_err negotiation (negotiate_sidecar_protocol h.local_offer remote)

-- The negotiation that the supervisor repeats, and the channel under it.
unfoldable pub confirmed :
    Handshake
    → Channel
    → SidecarProtocolOffer
    → SidecarProtocolSelection
    → Result HandshakeError (NegotiatedSidecarProtocol × Channel)
confirmed h c runtime_offer claimed = do
  negotiated ← check_offer h runtime runtime_offer
  fail_if (not (selection_eq claimed (selection_of negotiated))) selection_mismatch
  applied ← map_err negotiation (apply_negotiated_protocol c negotiated)
  ok (negotiated, applied)

unfoldable pub confirm_runtime :
    Handshake → Channel → SidecarProtocolOffer → SidecarProtocolSelection → Outcome (Unit {0})
unfolding confirmed
confirm_runtime h c runtime_offer claimed = elim (confirmed h c runtime_offer claimed) [
  | err e ↦ (h, c, err e)
  | ok (negotiated, applied) ↦
      (record h { negotiated = some negotiated; state = authenticated }, applied, ok tt)
]

-- The end of `complete_acceptance`, the pending negotiation taken.
unfoldable pub commit : Handshake → Channel → Option NegotiatedSidecarProtocol → Outcome (Unit {0})
unfolding fail
commit h c none = fail h c unexpected_message
commit h c (some negotiated) = elim (apply_negotiated_protocol c negotiated) [
  | err e ↦ fail h c (negotiation e)
  | ok applied ↦ (record h { negotiated = some negotiated; state = authenticated }, applied, ok tt)
]

unfoldable pub complete_acceptance : Handshake → Channel → Outcome (Unit {0})
unfolding bind_channel commit
complete_acceptance h c = on_bound h c λ b.
    if not (same_role c.role runtime)
    then fail b c channel_role_mismatch
    else if c.retired
    then fail b c (frame channel_retired)
    else if not (is_acceptance_pending b.state)
    then fail b c unexpected_message
    else commit (record b { pending_negotiated = none }) c b.pending_negotiated

-- An error of the exchange ends it.
unfoldable pub settle : Outcome (Option (List ℕ)) → Outcome (Option (List ℕ))
unfolding fail
settle (h, c, err e) = fail h c e
settle (h, c, ok reply) = (h, c, ok reply)

-- `hmac` and `codec` are as for the channel.
module _ (hmac : List ℕ → List ℕ → List ℕ) (codec : Codec HandshakeMessage) where
  -- The frame of a message, or the end of the handshake.
  unfoldable pub start_sealed :
      Handshake → Channel × Result SidecarFrameError (List ℕ) → Outcome (List ℕ)
  unfolding fail
  start_sealed h (c, err e) = fail h c (frame e)
  start_sealed h (c, ok bytes) = (record h { state = awaiting_acceptance }, c, ok bytes)

  unfoldable pub start : Handshake → Channel → Outcome (List ℕ)
  unfolding bind_channel start_sealed
  start h c = on_bound h c λ b.
      if not (same_role c.role (local_role b))
      then fail b c channel_role_mismatch
      else if not (same_role (local_role b) supervisor)
      then fail b c supervisor_must_initiate
      else if not (is_starting b.state)
      then fail b c unexpected_message
      else start_sealed b (seal hmac codec c (offer b.local_offer))

  -- The acceptance is sealed under the bootstrap limit: the channel is not lowered yet.
  unfoldable pub accept_sealed :
      Handshake
      → NegotiatedSidecarProtocol
      → Channel × Result SidecarFrameError (List ℕ)
      → Outcome (List ℕ)
  accept_sealed h negotiated (c, err e) = (h, c, err (frame e))
  accept_sealed h negotiated (c, ok bytes) =
      (record h { pending_negotiated = some negotiated; state = acceptance_pending }, c, ok bytes)

  unfoldable pub accept_supervisor : Handshake → Channel → SidecarProtocolOffer → Outcome (List ℕ)
  unfolding accept_sealed
  accept_supervisor h c supervisor_offer = elim (check_offer h supervisor supervisor_offer) [
    | err e ↦ (h, c, err e)
    | ok negotiated ↦
        accept_sealed h negotiated
          (seal hmac codec c (accept h.local_offer (selection_of negotiated)))
  ]

  -- The message by role, state and kind.
  unfoldable pub dispatch :
      Handshake
      → Channel
      → SidecarPeerRole
      → HandshakeState
      → HandshakeMessage
      → Outcome (Option (List ℕ))
  unfolding accept_supervisor confirm_runtime
  dispatch h c runtime starting (offer o) =
      let (h', c', r) = accept_supervisor h c o in (h', c', r >>= λ bytes. ok (some bytes))
  dispatch h c supervisor awaiting_acceptance (accept o selection) =
      let (h', c', r) = confirm_runtime h c o selection in (h', c', r >>= λ _. ok none)
  dispatch h c _ _ _ = (h, c, err unexpected_message)

  unfoldable pub receive_opened :
      Handshake → Channel × Result SidecarFrameError HandshakeMessage → Outcome (Option (List ℕ))
  unfolding dispatch
  receive_opened h (c, err e) = (h, c, err (frame e))
  receive_opened h (c, ok message) = dispatch h c (local_role h) h.state message

  unfoldable pub receive : Handshake → Channel → List ℕ → Outcome (Option (List ℕ))
  unfolding bind_channel settle receive_opened
  receive h c bytes = on_bound h c λ b.
      if not (same_role c.role (local_role b))
      then fail b c channel_role_mismatch
      else settle (receive_opened b (open_ hmac codec c bytes))
