-- ===== src/Base/Bytes.antt =====
-- Byte strings as lists of numbers: big-endian integers and equality.
use Prim.Native.Nat.{ℕ, zero, suc, ◌+◌, ◌*◌, ◌/◌, ◌%◌, ◌^◌, ◌<◌}
use native.Mathlib.Nat.{pow-suc}
use mathlib.Core.Path.{◌≡◌, refl}
use mathlib.Core.Bool.{Bool, true, false, ◌&&◌}
use mathlib.Core.List.{List, [], ◌∷◌, ◌++◌}
use native.Mathlib.Omega.{arith}
use openclaw_rust_node.Base.Tests.{◌==◌}
use openclaw_rust_node.Base.Lists.{length, length-append}

-- `to_be_bytes` of an integer of `w` bytes.
unfoldable pub to_be_bytes : ℕ → ℕ → List ℕ
to_be_bytes zero n = []
to_be_bytes (suc w) n = to_be_bytes w (n / 256) ++ (n % 256 ∷ [])

-- `from_be_bytes`: `high` is the number that the bytes so far make.
unfoldable pub from_be_bytes_onto : ℕ → List ℕ → ℕ
from_be_bytes_onto high [] = high
from_be_bytes_onto high (b ∷ bs) = from_be_bytes_onto (high * 256 + b) bs

unfoldable pub from_be_bytes : List ℕ → ℕ
unfolding from_be_bytes_onto
from_be_bytes bs = from_be_bytes_onto 0 bs

unfoldable pub bytes_eq : List ℕ → List ℕ → Bool
bytes_eq [] [] = true
bytes_eq (a ∷ xs) (b ∷ bs) = a == b && bytes_eq xs bs
bytes_eq _ _ = false

pub length-to_be_bytes : (w n : ℕ) → length (to_be_bytes w n) ≡ w
unfolding to_be_bytes
length-to_be_bytes zero n = refl
length-to_be_bytes (suc w) n =
    omega (
      arith,
      length-append (to_be_bytes w (n / 256)) (n % 256 ∷ []),
      length-to_be_bytes w (n / 256),
    )

from_be_bytes_onto-snoc :
    (high b : ℕ) (bs : List ℕ)
    → from_be_bytes_onto high (bs ++ (b ∷ [])) ≡ from_be_bytes_onto high bs * 256 + b
unfolding from_be_bytes_onto
from_be_bytes_onto-snoc high b [] = refl
from_be_bytes_onto-snoc high b (c ∷ bs) = from_be_bytes_onto-snoc (high * 256 + c) b bs

-- An integer that fits in its bytes is read back.
pub from_be_bytes-to_be_bytes : (w n : ℕ) → n < 256 ^ w → from_be_bytes (to_be_bytes w n) ≡ n
unfolding to_be_bytes from_be_bytes
from_be_bytes-to_be_bytes zero n h = omega arith
from_be_bytes-to_be_bytes (suc w) n h = omega (
  arith,
  from_be_bytes_onto-snoc 0 (n % 256) (to_be_bytes w (n / 256)),
  from_be_bytes-to_be_bytes w (n / 256) (omega (arith, pow-suc 256 w)),
)

pub bytes_eq_refl : (bs : List ℕ) → bytes_eq bs bs ≡ true
unfolding bytes_eq
bytes_eq_refl [] = refl
bytes_eq_refl (b ∷ bs) = ground (arith, bytes_eq_refl bs)

pub bytes_eq_sound : (xs bs : List ℕ) → bytes_eq xs bs ≡ true → xs ≡ bs
unfolding bytes_eq
bytes_eq_sound [] [] h = refl
bytes_eq_sound [] (b ∷ bs) h = cc
bytes_eq_sound (a ∷ xs) [] h = cc
bytes_eq_sound (a ∷ xs) (b ∷ bs) h = ground (arith, bytes_eq_sound xs bs)
