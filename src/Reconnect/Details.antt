-- ===== src/Reconnect/Details.antt =====
-- The recovery details of a Gateway error (reconnect.rs, and `ConnectErrorDetails` of the gateway
-- client's lib.rs).
use Prim.Native.Char.{Char, code}
use Prim.Native.String.{len}
use openclaw_rust_node.Base.{
  String, Bool, true, false, not, ◌&&◌, ◌||◌, ◌==◌, ltb, if◌then◌else◌, Option, none, some, ◌>>=◌,
  unwrap_or, List, [], ◌∷◌, str_eq,
}
use openclaw_rust_node.Text.{trim, trimmed, is_empty, is_ascii_alphanumeric, all_chars}
use openclaw_rust_node.Json.{Json}

pub data DevicePairingReason : Type 0 where
  not_paired role_upgrade scope_upgrade metadata_upgrade : DevicePairingReason

pub data RecoveryStep : Type 0 where
  retry_with_device_token update_auth_configuration update_auth_credentials : RecoveryStep
  wait_then_retry review_auth_configuration : RecoveryStep

abbrev pub is_wait_then_retry : Option RecoveryStep → Bool
is_wait_then_retry (some wait_then_retry) = true
is_wait_then_retry _ = false

abbrev pub is_retry_with_device_token : Option RecoveryStep → Bool
is_retry_with_device_token (some retry_with_device_token) = true
is_retry_with_device_token _ = false

pub record DevicePairingRequest : Type 0 where
  pub reason : Option DevicePairingReason
  pub request_id : Option String
  pub remediation_hint : Option String
  pub recommended_next_step : Option RecoveryStep
  pub retryable : Option Bool
  pub pause_reconnect : Option Bool
  pub device_id : Option String
  pub requested_role : Option String
  pub requested_scopes : Option (List String)
  pub approved_roles : Option (List String)
  pub approved_scopes : Option (List String)

unfoldable pub parse_pairing_reason : String → Option DevicePairingReason
unfolding trim
parse_pairing_reason value =
    let v = trim value in
    if str_eq v "not-paired"
    then some not_paired
    else if str_eq v "role-upgrade"
    then some role_upgrade
    else if str_eq v "scope-upgrade"
    then some scope_upgrade
    else if str_eq v "metadata-upgrade"
    then some metadata_upgrade
    else none

unfoldable pub parse_recovery_step : String → Option RecoveryStep
unfolding trim
parse_recovery_step value =
    let v = trim value in
    if str_eq v "retry_with_device_token"
    then some retry_with_device_token
    else if str_eq v "update_auth_configuration"
    then some update_auth_configuration
    else if str_eq v "update_auth_credentials"
    then some update_auth_credentials
    else if str_eq v "wait_then_retry"
    then some wait_then_retry
    else if str_eq v "review_auth_configuration"
    then some review_auth_configuration
    else none

abbrev is_request_id_char : Char → Bool
is_request_id_char c =
    is_ascii_alphanumeric c || code c == b'.' || code c == b'_' || code c == b':' || code c == b'-'

-- The first character is alphanumeric, and the rest are those of a request id.
unfoldable pub is_request_id : String → Bool
unfolding is_ascii_alphanumeric all_chars
is_request_id String.[] = false
is_request_id (String.◌∷◌ c s) = is_ascii_alphanumeric c && all_chars is_request_id_char s

unfoldable pub normalize_request_id : String → Option String
unfolding trim is_request_id
normalize_request_id value =
    let v = trim value in
    if is_empty v || ltb 128 (len v) then none else if not (is_request_id v) then none else some v

-- `Vec::is_empty` turned into `None`, as `then_some` does.
abbrev non_empty : List String → Option (List String)
non_empty [] = none
non_empty (x ∷ xs) = some (x ∷ xs)

module _ (J : Json) where
  open J use {Value, Object, get, object_get, as_str, as_bool, as_array, as_object}

  unfoldable pub optional_string : Option Object → String → Option String
  unfolding trimmed
  optional_string details key = do
    object ← details
    value ← object_get object key
    text ← as_str value
    trimmed text

  unfoldable pub optional_bool : Option Object → String → Option Bool
  optional_bool details key = do object ← details; value ← object_get object key; as_bool value

  -- The strings of an array, trimmed, without those that are empty.
  unfoldable pub trimmed_strings : List Value → List String
  unfolding trimmed
  trimmed_strings [] = []
  trimmed_strings (v ∷ vs) =
      let rest = trimmed_strings vs in
      elim (as_str v >>= trimmed) [ none ↦ rest | some s ↦ s ∷ rest ]

  unfoldable pub string_array : Option Object → String → Option (List String)
  unfolding trimmed_strings
  string_array details key = do
    object ← details
    value ← object_get object key
    values ← as_array value
    non_empty (trimmed_strings values)

  unfoldable pub recovery_step : Option Value → Option RecoveryStep
  unfolding parse_recovery_step
  recovery_step details = do
    value ← details
    step ← get value "recommendedNextStep"
    text ← as_str step
    parse_recovery_step text

  unfoldable pub parse_pairing_request : Option Value → DevicePairingRequest
  unfolding parse_pairing_reason normalize_request_id parse_recovery_step optional_string
      optional_bool string_array
  parse_pairing_request value =
      let details : Option Object = value >>= as_object in
      record {
        reason = details >>= (λ o. object_get o "reason") >>= as_str >>= parse_pairing_reason;
        request_id =
            details >>= (λ o. object_get o "requestId") >>= as_str >>= normalize_request_id;
        remediation_hint = optional_string details "remediationHint";
        recommended_next_step =
            details
            >>= (λ o. object_get o "recommendedNextStep")
            >>= as_str
            >>= parse_recovery_step;
        retryable = optional_bool details "retryable";
        pause_reconnect = optional_bool details "pauseReconnect";
        device_id = optional_string details "deviceId";
        requested_role = optional_string details "requestedRole";
        requested_scopes = string_array details "requestedScopes";
        approved_roles = string_array details "approvedRoles";
        approved_scopes = string_array details "approvedScopes";
      }

  unfoldable pub connect_detail_code : String → Option Value → String
  unfolding trimmed
  connect_detail_code gateway_code details =
      unwrap_or (details >>= (λ v. get v "code") >>= as_str >>= trimmed)
        (if str_eq gateway_code "NOT_PAIRED" then "PAIRING_REQUIRED" else gateway_code)
