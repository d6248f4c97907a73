-- ===== src/Text.antt =====
-- The methods of `str` and `char` that the program calls. A text is a native `String`.
pub mod Trim
pub mod Names
use Prim.Native.Char.{Char, code}
use text.Mathlib.Text.{find?}
use openclaw_rust_node.Base.{
  ℕ, String, Bool, true, false, ◌&&◌, ◌||◌, Option, none, some, ◌==◌, leb, if◌then◌else◌,
}

abbrev pub is_empty : String → Bool
is_empty String.[] = true
is_empty (String.◌∷◌ c s) = false

-- The Unicode property White_Space, which `char::is_whitespace` tests.
abbrev is_white_space : ℕ → Bool
is_white_space n =
    (leb 9 n && leb n 13)
    || n == 32
    || n == 133
    || n == 160
    || n == 5760
    || (leb 8192 n && leb n 8202)
    || n == 8232
    || n == 8233
    || n == 8239
    || n == 8287
    || n == 12288

unfoldable pub is_whitespace : Char → Bool
is_whitespace c = is_white_space (code c)

unfoldable pub trim_start : String → String
unfolding is_whitespace
trim_start String.[] = String.[]
trim_start (String.◌∷◌ c s) = if is_whitespace c then trim_start s else String.◌∷◌ c s

unfoldable pub trim_end : String → String
unfolding is_whitespace
trim_end String.[] = String.[]
trim_end (String.◌∷◌ c s) =
    let rest = trim_end s in
    if is_empty rest && is_whitespace c then String.[] else String.◌∷◌ c rest

unfoldable pub trim : String → String
unfolding trim_start trim_end
trim s = trim_end (trim_start s)

-- `value.trim()`, then `filter(|value| !value.is_empty())`.
unfoldable pub trimmed : String → Option String
unfolding trim
trimmed s = if is_empty (trim s) then none else some (trim s)

unfoldable pub contains : String → String → Bool
contains s t = elim (find? s t) [ none ↦ false | some _ ↦ true ]

abbrev is_ascii_alphanumeric_code : ℕ → Bool
is_ascii_alphanumeric_code n =
    (leb b'0' n && leb n b'9') || (leb b'A' n && leb n b'Z') || (leb b'a' n && leb n b'z')

unfoldable pub is_ascii_alphanumeric : Char → Bool
is_ascii_alphanumeric c = is_ascii_alphanumeric_code (code c)

-- `value.chars().all(p)`.
unfoldable pub all_chars : (Char → Bool) → String → Bool
all_chars p String.[] = true
all_chars p (String.◌∷◌ c s) = p c && all_chars p s
