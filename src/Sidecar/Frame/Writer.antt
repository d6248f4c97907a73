-- ===== src/Sidecar/Frame/Writer.antt =====
-- The bounded writer: it takes the pieces of a payload exactly if they fit together.
use mathlib.Core.List.{append-nil, append_assoc}
use openclaw_rust_node.Base.{
  ℕ, ◌+◌, ◌-◌, ◌≤◌, ◌<◌, ◌≡◌, refl, sym, ap, none, some, List, [], ◌∷◌, ◌++◌, length, length-append,
  arith, inl, inr, Option-cases,
}
use openclaw_rust_node.Base.Results.{ok}
use openclaw_rust_node.Sidecar.Frame.{
  Codec, encoded, auth_tag_bytes, flatten, write, write_pieces, write_payload, take_slice,
}

-- Whatever the cuts between the pieces, the writer holds their concatenation if that fits.
pub write_pieces-fit :
    (max_len : ℕ) (frame : List ℕ) (ps : List (List ℕ))
    → length frame + length (flatten ps) ≤ max_len
    → write_pieces max_len frame ps ≡ some (frame ++ flatten ps)
unfolding write_pieces write
write_pieces-fit m frame [] h = ap some (sym (append-nil frame))
write_pieces-fit m frame (p ∷ ps) h = ground (
  arith,
  write_pieces-fit m (frame ++ p) ps,
  append_assoc frame p (flatten ps),
  length-append frame p,
  length-append p (flatten ps),
)

-- Behind a frame within the limit the writer refuses the pieces if their concatenation does not fit.
pub write_pieces-exceed :
    (max_len : ℕ) (frame : List ℕ) (ps : List (List ℕ))
    → length frame ≤ max_len
    → max_len < length frame + length (flatten ps)
    → write_pieces max_len frame ps ≡ none
unfolding write_pieces write
write_pieces-exceed m frame [] l h = absurd (omega arith)
write_pieces-exceed m frame (p ∷ ps) l h = ground (
  arith,
  write_pieces-exceed m (frame ++ p) ps,
  length-append frame p,
  length-append p (flatten ps),
)

pub take_slice-append : (xs ys : List ℕ) → take_slice (length xs) (xs ++ ys) ≡ ok (xs, ys)
unfolding take_slice
take_slice-append [] ys = refl
take_slice-append (x ∷ xs) ys = rw (take_slice-append xs ys)

-- What is written is the frame so far and all the pieces, within the limit.
pub write_pieces-some :
    (max_len : ℕ) (frame : List ℕ) (ps : List (List ℕ)) {w : List ℕ}
    → write_pieces max_len frame ps ≡ some w
    → (w ≡ frame ++ flatten ps) × (length frame ≤ max_len → length w ≤ max_len)
unfolding write_pieces write
write_pieces-some m frame [] h = ground (arith, append-nil frame)
write_pieces-some m frame (p ∷ ps) {w} h = ground (
  arith,
  write_pieces-some m (frame ++ p) ps {w = w},
  append_assoc frame p (flatten ps),
  length-append frame p,
)

pub write_payload-ok :
    {T : Type 0} (codec : Codec T) (max_frame_bytes : ℕ) (frame : List ℕ) (payload : T) {w : List ℕ}
    → length frame + auth_tag_bytes ≤ max_frame_bytes
    → write_payload codec max_frame_bytes frame payload ≡ ok w
    → (w ≡ frame ++ encoded codec payload) × (length w + auth_tag_bytes ≤ max_frame_bytes)
unfolding write_payload
write_payload-ok codec m frame payload l h =
    elim (Option-cases (write_pieces (m - auth_tag_bytes) frame (codec.pieces payload))) [
      | inl e ↦ ground arith
      | inr (w, e) ↦
          ground (arith, write_pieces-some (m - auth_tag_bytes) frame (codec.pieces payload) e)
    ]
