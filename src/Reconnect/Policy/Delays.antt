-- ===== src/Reconnect/Policy/Delays.antt =====
-- The delays of `ReconnectPolicy`: bounds, and the doubling up to the maximum.
use Prim.Native.Nat.{◌^◌}
use native.Mathlib.Nat.{pow-suc}
use openclaw_rust_node.Base.{
  ℕ, suc, ◌*◌, ◌≤◌, min, false, ◌≡◌, sym, ap, ◌∙◌, ◌⊎◌, none, some, List, [], ◌∷◌, All, length,
  arith, duration_max,
}
use openclaw_rust_node.Json.{Json}
use openclaw_rust_node.Client.{ClientError}
use openclaw_rust_node.Reconnect.Classify.{
  classify_pause, gateway_retry_after, is_session_request_error,
}
use openclaw_rust_node.Reconnect.Policy.{
  ReconnectPolicy, retry_after, StoredDeviceTokenRetry, new, back_off,
  after_failure_with_device_token, after_failure, connected,
}

-- The delay that is due lies between the configured ones.
pub record IsValid (p : ReconnectPolicy) : Type 0 where
  pub at_least : p.initial_delay ≤ p.next_delay
  pub at_most : p.next_delay ≤ p.maximum_delay

-- A new policy is valid for any two delays, the second below the first included.
pub new-IsValid : (initial_delay maximum_delay : ℕ) → IsValid (new initial_delay maximum_delay)
unfolding new
new-IsValid i m = omega arith

pub connected-IsValid : (p : ReconnectPolicy) → IsValid p → IsValid (connected p)
unfolding connected
connected-IsValid p v = omega arith

back_off-IsValid : (p : ReconnectPolicy) → IsValid p → IsValid (back_off p).0
unfolding back_off
back_off-IsValid p v = ground arith

double_pow : (a n : ℕ) → a * 2 ^ suc n ≡ a * 2 * 2 ^ n
double_pow a n = rw pow-suc (omega arith)

pub doubling :
    (p : ReconnectPolicy) (a : ℕ)
    → p.maximum_delay ≤ duration_max
    → p.next_delay ≡ min a p.maximum_delay
    → (back_off p).0.next_delay ≡ min (a * 2) p.maximum_delay
unfolding back_off
doubling p a h e = ground arith

module _ (J : Json) where
  open J use {Value}

  -- A failure leaves the configured delays of a valid policy alone and the policy valid.
  pub after_failure-IsValid :
      (p : ReconnectPolicy) (error : ClientError Value) (stored_token : StoredDeviceTokenRetry)
      → IsValid p
      → let q = (after_failure_with_device_token J p error stored_token).0 in
        IsValid q × (q.initial_delay ≡ p.initial_delay) × (q.maximum_delay ≡ p.maximum_delay)
  unfolding after_failure_with_device_token
  after_failure-IsValid p error stored_token v = ground arith

  -- Of a valid policy every delay but that of the stored token is within the maximum, and one that the
  -- Gateway did not ask for is at least the initial delay.
  pub retry_after_bounds :
      (p : ReconnectPolicy) (error : ClientError Value) (stored_token : StoredDeviceTokenRetry)
      {d : ℕ}
      → IsValid p
      → (after_failure_with_device_token J p error stored_token).1 ≡ retry_after d
      → (d ≤ p.maximum_delay)
        × ((p.initial_delay ≤ d) ⊎ ((ms : ℕ) × (gateway_retry_after J error ≡ some ms)))
  unfolding after_failure_with_device_token
  retry_after_bounds p error stored_token v h = ground arith

  -- A failure that is not of one request, does not pause and names no delay.
  pub record IsTransient (error : ClientError Value) : Type 0 where
    pub of_connection : is_session_request_error J error ≡ false
    pub no_pause : classify_pause J error ≡ none
    pub no_delay : gateway_retry_after J error ≡ none

  -- The policy after failures with no stored token.
  unfoldable pub after_failures : ReconnectPolicy → List (ClientError Value) → ReconnectPolicy
  after_failures p [] = p
  after_failures p (e ∷ es) = after_failures (after_failure J p e).0 es

  -- One transient failure: the delay that is due, and the next one.
  transient_lem :
      (p : ReconnectPolicy) (e : ClientError Value)
      → IsTransient e
      → after_failure J p e ≡ back_off p
  unfolding after_failure
  transient_lem p e t = ground arith

  after_failures_lem :
      (p : ReconnectPolicy) (a : ℕ) (es : List (ClientError Value))
      → p.maximum_delay ≤ duration_max
      → All IsTransient es
      → p.next_delay ≡ min a p.maximum_delay
      → ((after_failures p es).next_delay ≡ min (a * 2 ^ length es) p.maximum_delay)
  unfolding after_failures back_off
  after_failures_lem p a [] h t e = ground arith
  after_failures_lem p a (x ∷ es) h t e =
      ap (λ r. (after_failures r.0 es).next_delay) (transient_lem p x t.0)
      ∙ after_failures_lem (back_off p).0 (a * 2) es h t.1 (doubling p a h e)
      ∙ ap (λ n. min n p.maximum_delay) (sym (double_pow a (length es)))

  -- After n transient failures in a row the delay that is due is the initial one doubled n times, cut
  -- to the maximum, and the next failure waits for it, for a maximum that is at least the initial
  -- delay and that a `Duration` holds.
  pub backoff_doubles :
      (initial_delay maximum_delay : ℕ) (es : List (ClientError Value)) (e : ClientError Value)
      → initial_delay ≤ maximum_delay
      → maximum_delay ≤ duration_max
      → All IsTransient es
      → IsTransient e
      → (after_failure J (after_failures (new initial_delay maximum_delay) es) e).1
        ≡ retry_after (min (initial_delay * 2 ^ length es) maximum_delay)
  unfolding new back_off
  backoff_doubles i m es e hi hm ts t =
      ap (λ r. r.1) (transient_lem (after_failures (new i m) es) e t)
      ∙ ap retry_after (
          after_failures_lem (new i m) i es (omega arith) ts (omega arith)
          ∙ ap (min (i * 2 ^ length es)) (omega arith))
