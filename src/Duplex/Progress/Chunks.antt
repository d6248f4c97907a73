-- ===== src/Duplex/Progress/Chunks.antt =====
-- The chunks of a progress text: together the text, each within the limit and none empty.
use Prim.Native.Nat.{compare as compare_ℕ, Ordering}
use Prim.Native.Char.{Char, len_utf8, len_utf8_def, width}
use Prim.Native.String.{len, slice, fits, ◌++◌ as str_append}
use Prim.Native.String.slice
use Prim.Native.String.len
use Prim.Native.String.append
use mathlib.Core.Path.{ap₂}
use text.Mathlib.Text.{is_char_boundary}
use text.Mathlib.TextPositions.{
  boundary-zero, boundary-len, boundary-append, len_utf8-pos, len-append, slice-append_right,
}
use openclaw_rust_node.Base.{
  ℕ, zero, suc, ◌-◌, ◌≤◌, ◌<◌, String, true, ◌≡◌, refl, sym, ap, ◌∙◌, some, List, [], ◌∷◌, All,
  arith,
}
use openclaw_rust_node.Duplex.Progress.{
  progress_chunk_bytes, back_to_boundary, utf8_prefix_len, split_at, chunks,
}

fits_lem :
    (o : Ordering) (c : Char) (r s : String)
    → (t : String) × (str_append r t ≡ s)
    → (t : String) × (str_append (fits o c r) t ≡ String.◌∷◌ c s)
fits_lem Ordering.lt c r s (t, e) = (t, append.cons c r t ∙ ap (String.◌∷◌ c) e)
fits_lem Ordering.eq c r s (t, e) = (t, append.cons c r t ∙ ap (String.◌∷◌ c) e)
fits_lem Ordering.gt c r s (t, e) = (String.◌∷◌ c s, append.nil (String.◌∷◌ c s))

-- A slice from the beginning is a beginning.
prefix_lem : (s : String) (n : ℕ) → (t : String) × (str_append (slice s zero n) t ≡ s)
prefix_lem String.[] n =
    (String.[], ap (λ u. str_append u String.[]) (slice.nil zero n) ∙ append.nil String.[])
prefix_lem (String.◌∷◌ c s) n =
    let found =
      fits_lem (compare_ℕ (len_utf8 c) n) c (slice s zero (n - len_utf8 c)) s
        (prefix_lem s (n - len_utf8 c)) in
    (found.0, ap (λ u. str_append u found.0) (slice.cons-zero c s n) ∙ found.1)

-- A cut at a boundary loses nothing, and the first part has the bytes up to it.
split_lem :
    (s : String) (n : ℕ)
    → is_char_boundary s n ≡ true
    → (str_append (slice s 0 n) (slice s n (len s)) ≡ s) × (len (slice s 0 n) ≡ n)
split_lem s n h = (ap (str_append p) rest ∙ found.1, e)
  where
    p : String
    p = slice s 0 n

    e : len p ≡ n
    e = ground arith

    found : (t : String) × (str_append p t ≡ s)
    found = prefix_lem s n

    rest : slice s n (len s) ≡ found.0
    rest =
        ap (λ u. slice u n (len u)) (sym found.1)
        ∙ ap (λ k. slice (str_append p found.0) k (len (str_append p found.0))) (sym e)
        ∙ ap (slice (str_append p found.0) (len p)) (len-append p found.0)
        ∙ slice-append_right p found.0

width_le : (a b c : Ordering) → width a b c ≤ 4
width_le Ordering.lt b c = omega arith
width_le _ Ordering.lt c = omega arith
width_le _ _ Ordering.lt = omega arith
width_le _ _ _ = omega arith

back_lem :
    (s : String) (n : ℕ)
    → (is_char_boundary s (back_to_boundary s n) ≡ true) × (back_to_boundary s n ≤ n)
unfolding back_to_boundary
back_lem s zero = (boundary-zero s, omega arith)
back_lem s (suc n) = ground (arith, back_lem s n)

-- No boundary is passed over.
back_largest :
    (s : String) (m n : ℕ) → m ≤ n → is_char_boundary s m ≡ true → m ≤ back_to_boundary s n
unfolding back_to_boundary
back_largest s m zero h b = h
back_largest s m (suc n) h b = ground (arith, back_largest s m n)

len_utf8-le : (c : Char) → len_utf8 c ≤ 4
len_utf8-le c = rw len_utf8_def (width_le _ _ _)

first_boundary : (c : Char) (s : String) → is_char_boundary (String.◌∷◌ c s) (len_utf8 c) ≡ true
first_boundary c s =
    ap₂ is_char_boundary (sym (append.cons c String.[] s ∙ ap (String.◌∷◌ c) (append.nil s)))
      (omega (arith, len.cons c String.[], len.nil))
    ∙ boundary-append (String.◌∷◌ c String.[]) s

-- The place of a cut, in a text that is not empty, for a limit that holds any character.
prefix_len_lem :
    (c : Char) (s : String) (maximum : ℕ)
    → 4 ≤ maximum
    → let split = utf8_prefix_len (String.◌∷◌ c s) maximum in
      (is_char_boundary (String.◌∷◌ c s) split ≡ true) × (0 < split) × (split ≤ maximum)
unfolding utf8_prefix_len
prefix_len_lem c s m h = ground (
  arith,
  boundary-len (String.◌∷◌ c s),
  back_lem (String.◌∷◌ c s) m,
  back_largest (String.◌∷◌ c s) (len_utf8 c) m,
  first_boundary c s,
  len_utf8-le c,
  (len_utf8-pos c).1,
  len.cons c s,
)

unfoldable pub concat : List String → String
concat [] = String.[]
concat (s ∷ r) = str_append s (concat r)

-- What one request may carry.
abbrev pub IsChunk : String → Type 0
IsChunk s = (0 < len s) × (len s ≤ progress_chunk_bytes)

abbrev IsCut : String → List String → Type 0
IsCut s cs = (concat cs ≡ s) × All IsChunk cs

len_pos : (c : Char) (s : String) → 0 < len (String.◌∷◌ c s)
len_pos c s = omega (arith, (len_utf8-pos c).1, len.cons c s)

-- One round of the loop: a chunk, and a shorter rest.
cut_lem :
    (c : Char) (s : String)
    → let whole = String.◌∷◌ c s in
      let parts = split_at whole (utf8_prefix_len whole progress_chunk_bytes) in
      IsChunk parts.0 × (str_append parts.0 parts.1 ≡ whole) × (len parts.1 < len whole)
unfolding split_at
cut_lem c s = (
  (omega (arith, place, cut.1), omega (arith, place, cut.1)),
  cut.0,
  omega (arith, place, cut.1, len-append (slice whole 0 split) rest, ap len cut.0),
)
  where
    whole : String
    whole = String.◌∷◌ c s

    split : ℕ
    split = utf8_prefix_len whole progress_chunk_bytes

    rest : String
    rest = slice whole split (len whole)

    place : (is_char_boundary whole split ≡ true) × (0 < split) × (split ≤ progress_chunk_bytes)
    place = prefix_len_lem c s progress_chunk_bytes (omega arith)

    cut : (str_append (slice whole 0 split) rest ≡ whole) × (len (slice whole 0 split) ≡ split)
    cut = split_lem whole split place.0

chunks_step :
    (fuel : ℕ) (c : Char) (s : String) (cs : List String)
    → let whole = String.◌∷◌ c s in
      let parts = split_at whole (utf8_prefix_len whole progress_chunk_bytes) in
      chunks fuel parts.1 ≡ some cs → chunks (suc fuel) whole ≡ some (parts.0 ∷ cs)
unfolding chunks
chunks_step fuel c s cs e = rw (e, chunks)

-- With as much fuel as the text has bytes the loop ends. Its chunks joined are the text; each has at
-- least one byte and at most 16 KiB.
pub chunks_total :
    (fuel : ℕ) (s : String)
    → len s ≤ fuel
    → (cs : List String) × (chunks fuel s ≡ some cs) × (concat cs ≡ s) × All IsChunk cs
unfolding chunks concat
chunks_total zero String.[] h = ([], refl, refl, tt)
chunks_total zero (String.◌∷◌ c s) h = absurd (omega (arith, len_pos c s))
chunks_total (suc fuel) String.[] h = ([], refl, refl, tt)
chunks_total (suc fuel) (String.◌∷◌ c s) h =
    let whole = String.◌∷◌ c s in
    let parts = split_at whole (utf8_prefix_len whole progress_chunk_bytes) in
    let cut = cut_lem c s in
    let ih = chunks_total fuel parts.1 (omega (arith, cut.2)) in
    (
      parts.0 ∷ ih.0,
      chunks_step fuel c s ih.0 ih.1,
      ap (str_append parts.0) ih.2 ∙ cut.1,
      (cut.0, ih.3),
    )
