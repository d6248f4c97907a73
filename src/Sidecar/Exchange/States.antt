-- ===== src/Sidecar/Exchange/States.antt =====
-- The states of a configuration exchange: what each one holds, and which errors end it.
use openclaw_rust_node.Base.{
  ℕ, String, ◌≡◌, refl, ◌⊎◌, Bool, true, false, Option, none, some, List, arith,
}
use openclaw_rust_node.Base.Results.{Result, ok, err}
use openclaw_rust_node.Sidecar.Protocol.{SidecarProtocolSelection}
use openclaw_rust_node.Sidecar.Frame.{SidecarFrameError, Codec}
use openclaw_rust_node.Sidecar.Channel.{Channel, open_, lock_frame_limit}
use openclaw_rust_node.Sidecar.Handshake.{Handshake}
use openclaw_rust_node.Sidecar.Messages.{
  SidecarRuntimeConfiguration, SidecarRuntimeManifest, SidecarRuntimeMessage, configure_message,
}
use openclaw_rust_node.Sidecar.Configuration.{
  BridgeError, manifest_from_configuration, validate_configuration,
}
use openclaw_rust_node.Sidecar.Exchange.{
  ConfigurationState, awaiting_acknowledgement, acknowledgement_pending, configured, activated,
  failed, ConfigurationError, channel_instance_mismatch, Exchange, new, fail, hold, on_channel,
  check_configuration, start_sealed, start_checked, start, receive_configuration, dispatch,
  receive_opened, receive, acknowledge_sealed, acknowledge, complete_acknowledgement,
}

-- A failed exchange, which holds no configuration, manifest or payload limit.
pub record HasEnded (x : Exchange) : Type 0 where
  pub state : x.state ≡ failed
  pub configuration : x.configuration ≡ none
  pub manifest : x.expected_manifest ≡ none
  pub limit : x.payload_limit ≡ none

-- What an error leaves: the channel is retired, and the exchange has ended unless the channel was not
-- its own, in which case it is as it was.
abbrev pub EndsOnError :
    {A : Type 0} → Exchange → Exchange × Channel × Result ConfigurationError A → Type 0
EndsOnError x (x', c', ok a) = Unit
EndsOnError x (x', c', err e) =
    (c'.retired ≡ true) × (HasEnded x' ⊎ ((e ≡ channel_instance_mismatch) × (x' ≡ x)))

abbrev pub is_holding : ConfigurationState → Bool
is_holding awaiting_acknowledgement = true
is_holding acknowledgement_pending = true
is_holding configured = true
is_holding activated = true
is_holding _ = false

-- The configuration and the manifest that are held, if the state is one that holds them.
abbrev IsHeld :
    (String → String → ℕ)
    → SidecarProtocolSelection
    → Option SidecarRuntimeConfiguration
    → Option SidecarRuntimeManifest
    → Bool
    → Type 0
IsHeld failure_bytes s none none holding = holding ≡ false
IsHeld failure_bytes s (some c) (some m) holding =
    (holding ≡ true)
    × (validate_configuration failure_bytes c s ≡ ok tt)
    × (m ≡ manifest_from_configuration c)
IsHeld failure_bytes s _ _ holding = false ≡ true

-- An exchange holds a configuration and its manifest exactly from the validation on, and what it holds
-- is valid under the selection of the handshake.
abbrev pub IsValid : (String → String → ℕ) → Exchange → Type 0
IsValid failure_bytes x =
    IsHeld failure_bytes x.selection x.configuration x.expected_manifest (is_holding x.state)

-- The next state holds what the one before held.
IsHeld-state :
    (failure_bytes : String → String → ℕ) (s : SidecarProtocolSelection)
    (c : Option SidecarRuntimeConfiguration) (m : Option SidecarRuntimeManifest) (a b : Bool)
    → a ≡ b
    → IsHeld failure_bytes s c m a
    → IsHeld failure_bytes s c m b
IsHeld-state failure_bytes s c m a b e h = rw (← e) h

pub new-IsValid :
    (failure_bytes : String → String → ℕ) (h : Handshake) {x : Exchange}
    → new h ≡ ok x
    → IsValid failure_bytes x
unfolding new
new-IsValid failure_bytes h e = ground arith

pub complete_acknowledgement-IsValid :
    (failure_bytes : String → String → ℕ) (x : Exchange) (c : Channel)
    → IsValid failure_bytes x
    → IsValid failure_bytes (complete_acknowledgement x c).0
unfolding complete_acknowledgement on_channel fail
complete_acknowledgement-IsValid failure_bytes x c v = ground arith

pub complete_acknowledgement-ends :
    (x : Exchange) (c : Channel) → EndsOnError x (complete_acknowledgement x c)
unfolding complete_acknowledgement on_channel fail
complete_acknowledgement-ends x c = ground arith

module _ (hmac : List ℕ → List ℕ → List ℕ) {V : Type 0} (codec : Codec (SidecarRuntimeMessage V))
    (failure_bytes : String → String → ℕ) where
  start_checked-ends :
      (x : Exchange) (c : Channel) (configuration : SidecarRuntimeConfiguration)
      (checked : Result BridgeError (Unit {0}))
      → EndsOnError x (start_checked hmac codec failure_bytes x c configuration checked)
  unfolding start_checked start_sealed fail
  start_checked-ends x c configuration checked = ground arith

  receive_opened-ends :
      (x : Exchange) (opened : Channel × Result SidecarFrameError (SidecarRuntimeMessage V))
      → EndsOnError x (receive_opened hmac codec failure_bytes x opened)
  unfolding receive_opened dispatch receive_configuration fail
  receive_opened-ends x opened = ground arith

  -- Every error of every operation retires the channel and ends the exchange, which then holds no
  -- configuration, expected manifest or payload limit; only an operation with a channel that is not
  -- the exchange's own retires that channel alone and leaves the exchange as it was.
  pub exchange_errors_end :
      (x : Exchange) (c : Channel) (configuration : SidecarRuntimeConfiguration)
      (manifest : SidecarRuntimeManifest) (bytes : List ℕ)
      → EndsOnError x (start hmac codec failure_bytes x c configuration)
        × EndsOnError x (receive hmac codec failure_bytes x c bytes)
        × EndsOnError x (acknowledge hmac codec failure_bytes x c manifest)
        × EndsOnError x (complete_acknowledgement x c)
  unfolding start receive acknowledge acknowledge_sealed on_channel fail
  exchange_errors_end x c configuration manifest bytes = (
    ground (
      arith,
      start_checked-ends x (lock_frame_limit c) configuration
          (check_configuration hmac codec failure_bytes x (lock_frame_limit c) configuration),
    ),
    ground (arith, receive_opened-ends x (open_ hmac codec (lock_frame_limit c) bytes)),
    ground arith,
    complete_acknowledgement-ends x c,
  )

  hold-IsValid :
      (x : Exchange) (c d : Channel) (configuration : SidecarRuntimeConfiguration)
      → check_configuration hmac codec failure_bytes x d configuration ≡ ok tt
      → IsValid failure_bytes (hold x c configuration)
  unfolding check_configuration hold
  hold-IsValid x c d configuration e = (refl, ground arith, refl)

  start_sealed-IsValid :
      (x : Exchange) (d : Channel) (configuration : SidecarRuntimeConfiguration)
      (sealed : Channel × Result SidecarFrameError (List ℕ))
      → check_configuration hmac codec failure_bytes x d configuration ≡ ok tt
      → IsValid failure_bytes (start_sealed hmac codec failure_bytes x configuration sealed).0
  unfolding start_sealed fail
  start_sealed-IsValid x d configuration (c, ok bytes) e = hold-IsValid x c d configuration e
  start_sealed-IsValid x d configuration (c, err f) e = refl

  start_checked-IsValid :
      (x : Exchange) (c : Channel) (configuration : SidecarRuntimeConfiguration)
      (checked : Result BridgeError (Unit {0}))
      → check_configuration hmac codec failure_bytes x c configuration ≡ checked
      → IsValid failure_bytes (start_checked hmac codec failure_bytes x c configuration checked).0
  unfolding start_checked fail
  start_checked-IsValid x c configuration (ok tt) e = start_sealed-IsValid x c configuration _ e
  start_checked-IsValid x c configuration (err f) e = refl

  start-IsValid :
      (x : Exchange) (c : Channel) (configuration : SidecarRuntimeConfiguration)
      → IsValid failure_bytes x
      → IsValid failure_bytes (start hmac codec failure_bytes x c configuration).0
  unfolding start on_channel fail
  start-IsValid x c configuration v = ground (
    arith,
    start_checked-IsValid x (lock_frame_limit c) configuration
        (check_configuration hmac codec failure_bytes x (lock_frame_limit c) configuration) refl,
  )

  receive_configuration-IsValid :
      (x : Exchange) (c : Channel) (configuration : SidecarRuntimeConfiguration)
      (checked : Result BridgeError (Unit {0}))
      → check_configuration hmac codec failure_bytes x c configuration ≡ checked
      → IsValid failure_bytes
          (receive_configuration hmac codec failure_bytes x c configuration checked).0
  unfolding receive_configuration fail
  receive_configuration-IsValid x c configuration (ok tt) e = hold-IsValid x c c configuration e
  receive_configuration-IsValid x c configuration (err f) e = refl

  dispatch-IsValid :
      (x : Exchange) (c : Channel) (message : SidecarRuntimeMessage V)
      → IsValid failure_bytes x
      → IsValid failure_bytes (dispatch hmac codec failure_bytes x c x.role x.state message).0
  unfolding dispatch fail
  dispatch-IsValid x c (configure_message configuration) v = ground (
    arith,
    receive_configuration-IsValid x c configuration
        (check_configuration hmac codec failure_bytes x c configuration) refl,
  )
  dispatch-IsValid x c message v = ground arith

  receive_opened-IsValid :
      (x : Exchange) (opened : Channel × Result SidecarFrameError (SidecarRuntimeMessage V))
      → IsValid failure_bytes x
      → IsValid failure_bytes (receive_opened hmac codec failure_bytes x opened).0
  unfolding receive_opened fail
  receive_opened-IsValid x (c, ok message) v = dispatch-IsValid x c message v
  receive_opened-IsValid x (c, err e) v = refl

  receive-IsValid :
      (x : Exchange) (c : Channel) (bytes : List ℕ)
      → IsValid failure_bytes x
      → IsValid failure_bytes (receive hmac codec failure_bytes x c bytes).0
  unfolding receive on_channel fail
  receive-IsValid x c bytes v =
      ground (arith, receive_opened-IsValid x (open_ hmac codec (lock_frame_limit c) bytes) v)

  acknowledge-IsValid :
      (x : Exchange) (c : Channel) (manifest : SidecarRuntimeManifest)
      → IsValid failure_bytes x
      → IsValid failure_bytes (acknowledge hmac codec failure_bytes x c manifest).0
  unfolding acknowledge acknowledge_sealed on_channel fail
  acknowledge-IsValid x c manifest v = ground arith

  -- Every operation keeps a valid exchange valid, whatever channel, configuration, manifest and bytes
  -- it is given.
  pub exchange-IsValid :
      (x : Exchange) (c : Channel) (configuration : SidecarRuntimeConfiguration)
      (manifest : SidecarRuntimeManifest) (bytes : List ℕ)
      → IsValid failure_bytes x
      → IsValid failure_bytes (start hmac codec failure_bytes x c configuration).0
        × IsValid failure_bytes (receive hmac codec failure_bytes x c bytes).0
        × IsValid failure_bytes (acknowledge hmac codec failure_bytes x c manifest).0
        × IsValid failure_bytes (complete_acknowledgement x c).0
  exchange-IsValid x c configuration manifest bytes v = (
    start-IsValid x c configuration v,
    receive-IsValid x c bytes v,
    acknowledge-IsValid x c manifest v,
    complete_acknowledgement-IsValid failure_bytes x c v,
  )
