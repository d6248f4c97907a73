-- ===== src/Sidecar/Frame.antt =====
-- The parts of an authenticated frame (sidecar_protocol.rs): the errors, the bounded writer, and
-- the reading of fields. JSON and HMAC-SHA-256 are the serde_json and hmac crates', which
-- enter as parameters.
pub mod Writer
use openclaw_rust_node.Base.{
  ℕ, zero, suc, ◌+◌, ◌-◌, Bool, ltb, if◌then◌else◌, Option, none, some, List, [], ◌∷◌, ◌++◌, length,
}
use openclaw_rust_node.Base.Results.{Result, ok, err}

pub data SidecarFrameError : Type 0 where
  authentication channel_retired deadline : SidecarFrameError
  frame_too_large : (size limit : ℕ) → SidecarFrameError
  invalid_direction : ℕ → SidecarFrameError
  invalid_magic : SidecarFrameError
  invalid_frame_limit : ℕ → SidecarFrameError
  invalid_session_id : SidecarFrameError
  wrong_generation : (expected received : ℕ) → SidecarFrameError
  wrong_session wrong_direction sequence_exhausted : SidecarFrameError
  unexpected_sequence : (expected received : ℕ) → SidecarFrameError
  truncated trailing_bytes : SidecarFrameError
  unsupported_version : (major minor : ℕ) → SidecarFrameError
  serialize deserialize io : SidecarFrameError

abbrev pub frame_magic : List ℕ
frame_magic = b'O' ∷ b'C' ∷ b'S' ∷ b'C' ∷ []

abbrev pub auth_tag_bytes : ℕ
auth_tag_bytes = 32

abbrev pub fixed_header_bytes : ℕ
fixed_header_bytes = 4 + 2 + 2 + 1 + 8 + 8 + 2 + 4

abbrev pub payload_length_offset : ℕ
payload_length_offset = 4 + 2 + 2 + 1 + 8 + 8 + 2

-- serde_json at a type: the pieces that `to_writer` hands to its writer, in order; whether it then
-- succeeds; and `from_slice`.
pub record Codec (T : Type 0) : Type 0 where
  pub pieces : T → List (List ℕ)
  pub complete : T → Bool
  pub parse : List ℕ → Option T

abbrev pub flatten : List (List ℕ) → List ℕ
flatten [] = []
flatten (p ∷ ps) = p ++ flatten ps

-- The JSON text of a value.
abbrev pub encoded : {T : Type 0} → Codec T → T → List ℕ
encoded codec value = flatten (codec.pieces value)

-- `BoundedFrameWriter::write`.
unfoldable pub write : ℕ → List ℕ → List ℕ → Option (List ℕ)
write max_len frame bytes =
    if ltb (max_len - length frame) (length bytes) then none else some (frame ++ bytes)

-- The writes of `to_writer`, up to the first that fails.
unfoldable pub write_pieces : ℕ → List ℕ → List (List ℕ) → Option (List ℕ)
write_pieces max_len frame [] = some frame
write_pieces max_len frame (p ∷ ps) = elim (write max_len frame p) [
  | none ↦ none
  | some frame' ↦ write_pieces max_len frame' ps
]

-- The serialization of a payload behind the header, within `max_frame_bytes` less the tag.
unfoldable pub write_payload :
    {T : Type 0} → Codec T → ℕ → List ℕ → T → Result SidecarFrameError (List ℕ)
write_payload codec max_frame_bytes frame payload =
    elim (write_pieces (max_frame_bytes - auth_tag_bytes) frame (codec.pieces payload)) [
      | none ↦ err (frame_too_large (max_frame_bytes + 1) max_frame_bytes)
      | some written ↦ if codec.complete payload then ok written else err serialize
    ]

-- `take_slice`: the next bytes and what is left behind them. The cursor is the list that is left.
unfoldable pub take_slice : ℕ → List ℕ → Result SidecarFrameError (List ℕ × List ℕ)
take_slice zero rest = ok ([], rest)
take_slice (suc n) [] = err truncated
take_slice (suc n) (b ∷ rest) = elim (take_slice n rest) [
  | ok (taken, left) ↦ ok (b ∷ taken, left)
  | err e ↦ err e
]
