-- ===== src/Base/Bits.antt =====
-- Laws of `bit_and` at variables: it is symmetric, and below each of its arguments.
use Prim.Native.Nat.{ℕ, zero, suc, ◌+◌, ◌*◌, ◌/◌, ◌%◌, ◌≤◌, min, bit_and, digits, bit_and-bitwise}
use mathlib.Core.Path.{◌≡◌, refl, ap, ◌∙◌}
use native.Mathlib.Omega.{arith}

-- What `bit_and a b` stands for when its recursion may take `n` rounds.
abbrev and_within : ℕ → ℕ → ℕ → ℕ
and_within = digits (λ b. zero) min

and_within-enough : (n k a b : ℕ) → a ≤ n → a ≤ k → and_within n a b ≡ and_within k a b
and_within-enough zero zero a b h h' = refl
and_within-enough (suc n) (suc k) zero b h h' = refl
and_within-enough zero (suc k) zero b h h' = refl
and_within-enough (suc n) zero zero b h h' = refl
and_within-enough zero (suc k) (suc a) b h h' = absurd (omega arith)
and_within-enough (suc n) zero (suc a) b h h' = absurd (omega arith)
and_within-enough (suc n) (suc k) (suc a) b h h' =
    omega (arith, and_within-enough n k (suc a / 2) (b / 2) (omega arith) (omega arith))

-- The lowest digit, and the rest.
lowest_digit : (a b : ℕ) → bit_and a b ≡ bit_and (a / 2) (b / 2) * 2 + min (a % 2) (b % 2)
lowest_digit zero b = omega (arith, bit_and-bitwise 0 b, bit_and-bitwise 0 (b / 2))
lowest_digit (suc a) b = omega (
  arith,
  bit_and-bitwise (suc a) b,
  bit_and-bitwise (suc a / 2) (b / 2),
  and_within-enough (suc a / 2) a (suc a / 2) (b / 2) (omega arith) (omega arith),
)

comm_within : (n a b : ℕ) → a ≤ n → b ≤ n → bit_and a b ≡ bit_and b a
comm_within zero zero zero h h' = refl
comm_within zero zero (suc b) h h' = absurd (omega arith)
comm_within zero (suc a) b h h' = absurd (omega arith)
comm_within (suc n) a b h h' = omega (
  arith,
  lowest_digit a b,
  lowest_digit b a,
  comm_within n (a / 2) (b / 2) (omega arith) (omega arith),
)

pub bit_and_comm : (a b : ℕ) → bit_and a b ≡ bit_and b a
bit_and_comm a b = comm_within (a + b) a b (omega arith) (omega arith)

le_within : (n a b : ℕ) → a ≤ n → bit_and a b ≤ a
le_within zero zero b h = omega (arith, bit_and-bitwise 0 b)
le_within zero (suc a) b h = absurd (omega arith)
le_within (suc n) a b h = omega (arith, lowest_digit a b, le_within n (a / 2) (b / 2) (omega arith))

pub bit_and-le : (a b : ℕ) → (bit_and a b ≤ a) × (bit_and a b ≤ b)
bit_and-le a b =
    (le_within a a b (omega arith), omega (arith, bit_and_comm a b, le_within b b a (omega arith)))

-- The digit of weight 2 ^ k.
abbrev pub digit : ℕ → ℕ → ℕ
digit zero a = a % 2
digit (suc k) a = digit k (a / 2)

-- A digit is set in `bit_and a b` exactly if it is set in both.
pub digit-bit_and : (k a b : ℕ) → digit k (bit_and a b) ≡ min (digit k a) (digit k b)
digit-bit_and zero a b = omega (arith, lowest_digit a b)
digit-bit_and (suc k) a b =
    ap (digit k) (omega (arith, lowest_digit a b)) ∙ digit-bit_and k (a / 2) (b / 2)

ext_within : (n a b : ℕ) → a ≤ n → b ≤ n → ((k : ℕ) → digit k a ≡ digit k b) → a ≡ b
ext_within zero a b h h' same = omega arith
ext_within (suc n) a b h h' same =
    omega
      (arith, same 0, ext_within n (a / 2) (b / 2) (omega arith) (omega arith) (λ k. same (suc k)))

-- Numbers with the same digits are equal.
pub digit_ext : (a b : ℕ) → ((k : ℕ) → digit k a ≡ digit k b) → a ≡ b
digit_ext a b same = ext_within (a + b) a b (omega arith) (omega arith) same

pub digit-le : (k a : ℕ) → digit k a ≤ 1
digit-le zero a = omega arith
digit-le (suc k) a = digit-le k (a / 2)
