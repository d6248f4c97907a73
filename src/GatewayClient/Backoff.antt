-- ===== src/GatewayClient/Backoff.antt =====
-- `reconnect_backoff` without the overflow of its shift.
use native.Mathlib.Nat.{pow-suc}
use mathlib.Core.Path.{subst}
use openclaw_rust_node.Base.{
  ℕ, zero, suc, ◌+◌, ◌-◌, ◌*◌, ◌/◌, ◌^◌, ◌≤◌, ◌≡◌, min, duration_max, from_secs, Bool-cases, ltb,
  inl, inr, arith, ap, ◌∙◌,
}
use openclaw_rust_node.GatewayClient.{reconnect_backoff}

-- Powers of two from an exponent of 64 on.
pow_large : (k : ℕ) → 2 ^ 64 ≤ 2 ^ (64 + k)
pow_large zero = omega arith
pow_large (suc k) =
    let step : 2 ^ (64 + suc k) ≡ 2 ^ (64 + k) * 2 =
      ap (λ n. 2 ^ n) (omega arith) ∙ pow-suc 2 (64 + k) in
    omega (arith, pow_large k, step)

-- The delay of the attempt after n failed ones is the doubling of a second n times, cut to the whole
-- seconds of the maximum, for every maximum that a `Duration` holds.
pub reconnect_backoff_doubles :
    (n maximum : ℕ)
    → maximum ≤ duration_max
    → reconnect_backoff (suc n) maximum ≡ from_secs (min (2 ^ n) (maximum / 1000000000))
unfolding reconnect_backoff
reconnect_backoff_doubles n maximum h = elim (Bool-cases (ltb n 64)) [
  | inl e ↦ ground arith
  | inr e ↦
      let shift : 64 + (n - 64) ≡ n = ground arith in
      let large : 2 ^ 64 ≤ 2 ^ n = subst (λ m. 2 ^ 64 ≤ 2 ^ m) shift (pow_large (n - 64)) in
      ground (arith, large)
]
