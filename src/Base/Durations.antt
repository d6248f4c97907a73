-- ===== src/Base/Durations.antt =====
-- `std::time::Duration` as a number of nanoseconds, and the arithmetic of `u64` and `usize` that
-- the program guards against overflow.
use Prim.Native.Nat.{ℕ, ◌+◌, ◌-◌, ◌*◌, ◌^◌, min}
use mathlib.Core.Option.{Option, none, some}
use openclaw_rust_node.Base.Tests.{leb, if◌then◌else◌}

-- Seconds are a `u64`, and the rest is below one second.
abbrev pub duration_max : ℕ
duration_max = 2 ^ 64 * 1000000000 - 1

abbrev pub from_millis : ℕ → ℕ
from_millis n = n * 1000000

abbrev pub from_secs : ℕ → ℕ
from_secs n = n * 1000000000

-- `Duration::checked_mul`.
abbrev pub checked_mul : ℕ → ℕ → Option ℕ
checked_mul d k = if leb (d * k) duration_max then some (d * k) else none

abbrev pub u64_max : ℕ
u64_max = 2 ^ 64 - 1

abbrev pub u16_max : ℕ
u16_max = 2 ^ 16 - 1

abbrev pub u32_max : ℕ
u32_max = 2 ^ 32 - 1

-- `u64::checked_add`, and `usize::checked_add` on a 64-bit target.
abbrev pub checked_add : ℕ → ℕ → Option ℕ
checked_add a b = if leb (a + b) u64_max then some (a + b) else none

-- `u64::saturating_add`.
abbrev pub saturating_add : ℕ → ℕ → ℕ
saturating_add a b = min (a + b) u64_max
