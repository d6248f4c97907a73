-- ===== src/Reconnect/Policy/Actions.antt =====
-- The actions of `ReconnectPolicy`: the session that is kept, the stored token that is tried once, the
-- rate limit that pauses.
use openclaw_rust_node.Base.{
  ℕ, ◌+◌, ◌≤◌, String, Bool, true, false, ◌≡◌, ◌↔◌, Option, List, [], ◌∷◌, arith,
}
use openclaw_rust_node.Json.{Json}
use openclaw_rust_node.Client.{ClientError, gateway}
use openclaw_rust_node.Reconnect.Details.{connect_detail_code}
use openclaw_rust_node.Reconnect.Classify.{authentication, classify_pause, is_session_request_error}
use openclaw_rust_node.Reconnect.Policy.{
  ReconnectPolicy, ReconnectAction, keep_session, retry_after, retry_with_stored_device_token_after,
  pause, StoredDeviceTokenRetry, after_failure_with_device_token, after_failure,
}

abbrev pub token_retries : List ReconnectAction → ℕ
token_retries [] = 0
token_retries (retry_with_stored_device_token_after d ∷ rest) = 1 + token_retries rest
token_retries (keep_session ∷ rest) = token_retries rest
token_retries (retry_after d ∷ rest) = token_retries rest
token_retries (pause r ∷ rest) = token_retries rest

token_retries-cons :
    (a : ReconnectAction) (rest : List ReconnectAction)
    → token_retries (a ∷ rest) ≡ token_retries (a ∷ []) + token_retries rest
token_retries-cons keep_session rest = omega arith
token_retries-cons (retry_after d) rest = omega arith
token_retries-cons (retry_with_stored_device_token_after d) rest = omega arith
token_retries-cons (pause r) rest = omega arith

module _ (J : Json) where
  open J use {Value}

  -- A failure keeps the session exactly when it is an error of one request; the policy is then as it
  -- was.
  pub keep_session_iff :
      (p : ReconnectPolicy) (error : ClientError Value) (stored_token : StoredDeviceTokenRetry)
      → (is_session_request_error J error ≡ true)
        ↔ (after_failure_with_device_token J p error stored_token ≡ (p, keep_session))
  unfolding after_failure_with_device_token
  keep_session_iff p error stored_token = (λ h. ground arith, λ h. ground arith)

  -- The actions after failures in a row, with no connection between them.
  unfoldable pub actions :
      ReconnectPolicy → List (ClientError Value × StoredDeviceTokenRetry) → List ReconnectAction
  actions p [] = []
  actions p ((e, s) ∷ es) = let (q, a) = after_failure_with_device_token J p e s in a ∷ actions q es

  abbrev pub token_budget : Bool → ℕ
  token_budget true = 0
  token_budget false = 1

  action_budget :
      (p : ReconnectPolicy) (e : ClientError Value) (s : StoredDeviceTokenRetry)
      → let r = after_failure_with_device_token J p e s in
        token_retries (r.1 ∷ []) + token_budget r.0.device_token_retry_used
        ≤ token_budget p.device_token_retry_used
  unfolding after_failure_with_device_token
  action_budget p e s = ground arith

  -- In a row of failures the stored token is tried at most once, and not at all if it was tried
  -- before.
  pub token_retries-actions :
      (p : ReconnectPolicy) (es : List (ClientError Value × StoredDeviceTokenRetry))
      → token_retries (actions p es) ≤ token_budget p.device_token_retry_used
  unfolding actions
  token_retries-actions p [] = omega arith
  token_retries-actions p ((e, s) ∷ es) = omega (
    arith,
    action_budget p e s,
    token_retries-cons (after_failure_with_device_token J p e s).1
        (actions (after_failure_with_device_token J p e s).0 es),
    token_retries-actions (after_failure_with_device_token J p e s).0 es,
  )

  -- A connect that the Gateway refuses with the detail code AUTH_RATE_LIMITED pauses the node,
  -- whatever its details advise and whatever delay it names.
  pub rate_limit_pauses :
      (p : ReconnectPolicy) (code message : String) (details : Option Value)
      (retryable : Option Bool) (retry_after_ms : Option ℕ)
      → connect_detail_code J code details ≡ "AUTH_RATE_LIMITED"
      → after_failure J p (gateway "connect" code message details retryable retry_after_ms)
        ≡ (p, pause (authentication "AUTH_RATE_LIMITED"))
  unfolding after_failure classify_pause is_session_request_error
  rate_limit_pauses p code message details retryable ms h = rw h (ground arith)
