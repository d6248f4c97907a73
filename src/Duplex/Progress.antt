-- ===== src/Duplex/Progress.antt =====
-- The progress output of an invocation (duplex.rs): a text is cut at character boundaries into
-- chunks of at most 16 KiB, and each chunk is one request with the next sequence number.
pub mod Chunks
use Prim.Native.String.{len, slice}
use text.Mathlib.Text.{is_char_boundary}
use openclaw_rust_node.Base.{
  ℕ, zero, suc, ◌*◌, String, leb, if◌then◌else◌, Option, none, some, List, [], ◌∷◌,
}
use openclaw_rust_node.Text.{is_empty}

abbrev pub progress_chunk_bytes : ℕ
progress_chunk_bytes = 16 * 1024

-- `while !value.is_char_boundary(split) { split -= 1 }`. Position 0 is a boundary.
unfoldable pub back_to_boundary : String → ℕ → ℕ
back_to_boundary value zero = zero
back_to_boundary value (suc split) =
    let earlier = back_to_boundary value split in
    if is_char_boundary value (suc split) then suc split else earlier

unfoldable pub utf8_prefix_len : String → ℕ → ℕ
unfolding back_to_boundary
utf8_prefix_len value maximum =
    if leb (len value) maximum then len value else back_to_boundary value maximum

-- `remaining.split_at(split)`.
unfoldable pub split_at : String → ℕ → String × String
split_at s split = (slice s 0 split, slice s split (len s))

-- The chunks that the loop of `write` sends, in order; `none` if the fuel does not suffice.
unfoldable pub chunks : ℕ → String → Option (List String)
chunks zero remaining = if is_empty remaining then some [] else none
chunks (suc fuel) remaining =
    let (chunk, rest) = split_at remaining (utf8_prefix_len remaining progress_chunk_bytes) in
    let later = chunks fuel rest in
    if is_empty remaining then some [] else elim later [ none ↦ none | some cs ↦ some (chunk ∷ cs) ]
