-- ===== src/Lifecycle/Delays.antt =====
-- How long a lifecycle waits before its next attempt.
use openclaw_rust_node.Base.{
  ℕ, ◌≤◌, ◌≡◌, max, Bool, true, false, List, [], ◌∷◌, ◌++◌, All, saturating_add, arith,
}
use openclaw_rust_node.Json.{Json}
use openclaw_rust_node.Client.{ClientError}
use openclaw_rust_node.Reconnect.Policy.{
  ReconnectPolicy, ReconnectAction, keep_session, retry_after, retry_with_stored_device_token_after,
  pause, after_failure, after_failure_with_device_token, retry, back_off, unavailable,
}
use openclaw_rust_node.Reconnect.Policy
use openclaw_rust_node.Reconnect.Policy.Delays
use openclaw_rust_node.Reconnect.Policy.Delays.{after_failure-IsValid}
use openclaw_rust_node.Lifecycle.Events.{
  RuntimeErrorClass, DisconnectReason, LifecycleEvent, backing_off,
}
use openclaw_rust_node.Lifecycle.{
  NodeLifecycle, retired_session_retry_delay, goes_on, stops, pauses, SessionEnd, shut_down,
  client_failed, saturated, task_failed, ended, Attempt, shut_down_connecting, connect_failed,
  session_opened, backoff_or_stop, handle_action, handle_runtime_failure, handle_client_failure,
  end_session, run_attempt, connected_event, Round, continue, run,
}

-- The longest that a lifecycle waits.
abbrev pub longest_wait : NodeLifecycle → ℕ
longest_wait l =
    max (max l.reconnect.maximum_delay retired_session_retry_delay) l.runtime_restart_delay

abbrev pub WaitsWithin : ℕ → LifecycleEvent → Type 0
WaitsWithin most (backing_off n d r) = d ≤ most
WaitsWithin most _ = Unit

-- A lifecycle that waits no longer than the bound.
pub record IsWithin (most : ℕ) (l : NodeLifecycle) : Type 0 where
  pub policy : Delays.IsValid l.reconnect
  pub maximum : l.reconnect.maximum_delay ≤ most
  pub retired : retired_session_retry_delay ≤ most
  pub restart : l.runtime_restart_delay ≤ most

-- An action of the policy that waits no longer than the bound.
abbrev IsBounded : ℕ → ReconnectAction → Type 0
IsBounded most (retry_after d) = d ≤ most
IsBounded most (retry_with_stored_device_token_after d) = false ≡ true
IsBounded most _ = Unit

IsBounded-mono :
    (a b : ℕ) (action : ReconnectAction) → a ≤ b → IsBounded a action → IsBounded b action
IsBounded-mono a b keep_session h i = tt
IsBounded-mono a b (retry_after d) h i = omega arith
IsBounded-mono a b (retry_with_stored_device_token_after d) h i = i
IsBounded-mono a b (pause w) h i = tt

backoff-within :
    (n d : ℕ) (r : DisconnectReason) (stop : Bool) (most : ℕ)
    → d ≤ most
    → All (WaitsWithin most) (backoff_or_stop n d r stop).0
unfolding backoff_or_stop
backoff-within n d r true most h = (h, (tt, tt))
backoff-within n d r false most h = (h, tt)

handle_action-within :
    (n : ℕ) (r : DisconnectReason) (action : ReconnectAction) (stop : Bool) (most : ℕ)
    → IsBounded most action
    → retired_session_retry_delay ≤ most
    → All (WaitsWithin most) (handle_action n r action stop).0
unfolding handle_action
handle_action-within n r keep_session stop most b h = backoff-within n _ r stop most h
handle_action-within n r (retry_after d) stop most b h = backoff-within n d r stop most b
handle_action-within n r (retry_with_stored_device_token_after d) stop most b h = absurd (cc b)
handle_action-within n r (pause w) stop most b h = (tt, tt)

module _ (J : Json) where
  open J use {Value}

  -- The lifecycle never retries with a stored token, and waits within the maximum.
  after_failure-IsBounded :
      (p : ReconnectPolicy) (e : ClientError Value)
      → Delays.IsValid p
      → IsBounded p.maximum_delay (after_failure J p e).1
  unfolding after_failure after_failure_with_device_token retry back_off
  after_failure-IsBounded p e v = ground arith

  -- The lifecycle that is left waits as before, and the events are within the bound.
  abbrev AreWithin : ℕ → NodeLifecycle → List LifecycleEvent → Type 0
  AreWithin most l es = IsWithin most l × All (WaitsWithin most) es

  handle_client_failure-within :
      (l : NodeLifecycle) (n : ℕ) (e : ClientError Value) (stop : Bool) (most : ℕ)
      → IsWithin most l
      → AreWithin most (handle_client_failure J l n e stop).0 (handle_client_failure J l n e stop).1
  unfolding handle_client_failure after_failure
  handle_client_failure-within l n e stop most w =
      let (valid, _, same) = after_failure-IsValid J l.reconnect e unavailable w.policy in
      (
        record {
          policy = valid;
          maximum = omega (arith, same, w.maximum);
          retired = w.retired;
          restart = w.restart;
        },
        (
          tt,
          handle_action-within n _ (after_failure J l.reconnect e).1 stop most
              (IsBounded-mono _ most (after_failure J l.reconnect e).1 w.maximum
                (after_failure-IsBounded l.reconnect e w.policy))
              w.retired,
        ),
      )

  handle_runtime_failure-within :
      (l : NodeLifecycle) (n : ℕ) (c : RuntimeErrorClass) (stop : Bool) (most : ℕ)
      → IsWithin most l
      → All (WaitsWithin most) (handle_runtime_failure l n c stop).0
  unfolding handle_runtime_failure
  handle_runtime_failure-within l n c stop most w =
      (tt, backoff-within n l.runtime_restart_delay _ stop most w.restart)

  end_session-within :
      (l : NodeLifecycle) (n : ℕ) (ending : SessionEnd Value) (most : ℕ)
      → IsWithin most l
      → AreWithin most (end_session J l n ending).0 (end_session J l n ending).1
  unfolding end_session
  end_session-within l n (shut_down drained) most w = (w, (tt, (tt, tt)))
  end_session-within l n (client_failed e stop) most w =
      handle_client_failure-within l n e stop most w
  end_session-within l n (saturated stop) most w =
      (w, handle_runtime_failure-within l n _ stop most w)
  end_session-within l n (task_failed reason stop) most w =
      (w, handle_runtime_failure-within l n _ stop most w)
  end_session-within l n ended most w = (w, (tt, tt))

  connected-IsWithin :
      (l : NodeLifecycle) (most : ℕ)
      → IsWithin most l
      → IsWithin most (record l { reconnect = Policy.connected l.reconnect })
  unfolding Policy.connected
  connected-IsWithin l most w = ground arith

  run_attempt-within :
      (l : NodeLifecycle) (n : ℕ) (a : Attempt Value) (most : ℕ)
      → IsWithin most l
      → AreWithin most (run_attempt J l n a).0 (run_attempt J l n a).1
  unfolding run_attempt connected_event
  run_attempt-within l n shut_down_connecting most w = (w, (tt, (tt, tt)))
  run_attempt-within l n (connect_failed e stop) most w =
      let (w', waits) = handle_client_failure-within l n e stop most w in (w', (tt, waits))
  run_attempt-within l n (session_opened hello token ending) most w =
      let (w', waits) = end_session-within _ n ending most (connected-IsWithin l most w) in
      (w', (tt, (tt, (tt, waits))))

  All-append :
      (most : ℕ) (es fs : List LifecycleEvent)
      → All (WaitsWithin most) es
      → All (WaitsWithin most) fs
      → All (WaitsWithin most) (es ++ fs)
  All-append most [] fs a b = b
  All-append most (e ∷ es) fs a b = (a.0, All-append most es fs a.1 b)

  continue-within :
      (round later : Round J) (most : ℕ)
      → AreWithin most round.0 round.1
      → AreWithin most later.0 later.1
      → AreWithin most (continue J round later).0 (continue J round later).1
  unfolding continue
  continue-within (l, es, ts, goes_on) (l', fs, us, v) most a b =
      (b.0, All-append most es fs a.1 b.1)
  continue-within (l, es, ts, stops) later most a b = a
  continue-within (l, es, ts, pauses w) later most a b = a

  run-within :
      (l : NodeLifecycle) (n : ℕ) (attempts : List (Attempt Value)) (most : ℕ)
      → IsWithin most l
      → AreWithin most (run J l n attempts).0 (run J l n attempts).1
  unfolding run
  run-within l n [] most w = (w, tt)
  run-within l n (a ∷ rest) most w =
      let first = run_attempt-within l (saturating_add n 1) a most w in
      continue-within (run_attempt J l (saturating_add n 1) a)
        (run J (run_attempt J l (saturating_add n 1) a).0 (saturating_add n 1) rest) most first
        (run-within (run_attempt J l (saturating_add n 1) a).0 (saturating_add n 1) rest most
          first.0)

  -- A lifecycle with a valid policy never waits longer than the longest of the policy's maximum, the
  -- second for a request error that ends a session, and the restart delay, whatever the Gateway asks
  -- for; and the policy stays valid.
  pub run_waits_bounded :
      (l : NodeLifecycle) (attempts : List (Attempt Value))
      → Delays.IsValid l.reconnect
      → All (WaitsWithin (longest_wait l)) (run J l 0 attempts).1
        × Delays.IsValid (run J l 0 attempts).0.reconnect
  run_waits_bounded l attempts v =
      let (w, waits) = run-within l 0 attempts (longest_wait l) (record {
        policy = v;
        maximum = omega arith;
        retired = omega arith;
        restart = omega arith;
      }) in
      (waits, w.policy)
