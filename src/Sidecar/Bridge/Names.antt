-- ===== src/Sidecar/Bridge/Names.antt =====
-- The names of a validated configuration are names for the command runtime.
use Prim.Native.Char.{Char}
use openclaw_rust_node.Base.{
  String, true, false, ◌≡◌, refl, sym, inl, inr, List, [], ◌∷◌, All, str_eq, eq_iff, Bool-cases,
  arith,
}
use openclaw_rust_node.Text.{
  is_whitespace, is_ascii_alphanumeric, trim, trim_start, trim_end, all_chars,
}
use openclaw_rust_node.Text.Names.{AreDistinct, str_leb, insert, sorted}
use openclaw_rust_node.Sidecar.Configuration.{is_name_char, is_name, is_reserved}
use openclaw_rust_node.Runtime.Build.{is_system_command}

name_char_is_no_space : (c : Char) → is_name_char c ≡ true → is_whitespace c ≡ false
unfolding is_ascii_alphanumeric is_whitespace
name_char_is_no_space c h = ground arith

trim_end-name : (s : String) → all_chars is_name_char s ≡ true → trim_end s ≡ s
unfolding trim_end all_chars
trim_end-name String.[] h = refl
trim_end-name (String.◌∷◌ c s) h =
    let first : is_name_char c ≡ true = ground arith in
    let rest : all_chars is_name_char s ≡ true = ground arith in
    ground (arith, name_char_is_no_space c first, trim_end-name s rest)

-- A name has no space to trim.
pub trim-name : (s : String) → is_name s ≡ true → trim s ≡ s
unfolding trim trim_start is_name all_chars
trim-name String.[] h = absurd (ground arith)
trim-name (String.◌∷◌ c s) h =
    let first : is_name_char c ≡ true = ground arith in
    let all : all_chars is_name_char (String.◌∷◌ c s) ≡ true = ground arith in
    rw (name_char_is_no_space c first) (trim_end-name (String.◌∷◌ c s) all)

-- Sorting keeps what holds of all names, and their distinctness.
All-insert :
    (P : String → Type 0) (name : String) (names : List String)
    → P name
    → All P names
    → All P (insert name names)
unfolding insert
All-insert P name [] p a = (p, tt)
All-insert P name (n ∷ names) p a = elim (Bool-cases (str_leb name n)) [
  | inl e ↦ rw e (p, a)
  | inr e ↦ rw e (a.0, All-insert P name names p a.1)
]

pub All-sorted : (P : String → Type 0) (names : List String) → All P names → All P (sorted names)
unfolding sorted
All-sorted P [] a = tt
All-sorted P (n ∷ names) a = All-insert P n (sorted names) a.0 (All-sorted P names a.1)

str_eq-swap : (a b : String) → str_eq a b ≡ false → str_eq b a ≡ false
str_eq-swap a b h = elim (Bool-cases (str_eq b a)) [
  | inl e ↦ absurd (ground (arith, (eq_iff a b).1 (sym ((eq_iff b a).0 e))))
  | inr e ↦ e
]

AreDistinct-insert :
    (name : String) (names : List String)
    → All (λ n. str_eq n name ≡ false) names
    → AreDistinct names
    → AreDistinct (insert name names)
unfolding insert
AreDistinct-insert name [] a d = (tt, tt)
AreDistinct-insert name (n ∷ names) a d = elim (Bool-cases (str_leb name n)) [
  | inl e ↦ rw e (a, d)
  | inr e ↦
      rw e (
        All-insert _ name names (str_eq-swap n name a.0) d.0,
        AreDistinct-insert name names a.1 d.1,
      )
]

pub AreDistinct-sorted : (names : List String) → AreDistinct names → AreDistinct (sorted names)
unfolding sorted
AreDistinct-sorted [] d = tt
AreDistinct-sorted (n ∷ names) d =
    AreDistinct-insert n (sorted names) (All-sorted _ names d.0) (AreDistinct-sorted names d.1)

-- The two spellings of the system namespace agree.
pub is_system_command-is_reserved : (name : String) → is_system_command name ≡ is_reserved name
unfolding is_system_command is_reserved
is_system_command-is_reserved name = refl
