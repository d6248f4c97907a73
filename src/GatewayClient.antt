-- ===== src/GatewayClient.antt =====
-- crates/openclaw-gateway-client/src/lib.rs: the recovery details of a failed connect, and the
-- capped backoff of callers that count attempts.
pub mod Backoff
use Prim.Native.String.{◌++◌ as str_append}
use openclaw_rust_node.Base.{
  ℕ, zero, suc, ◌-◌, ◌^◌, ◌/◌, min, ltb, String, Bool, ◌||◌, if◌then◌else◌, Option, none, some,
  ◌>>=◌, List, [], ◌∷◌, str_eq, is_true, is_false, is_some_and, from_secs, u64_max,
}
use openclaw_rust_node.Text.{is_empty, is_whitespace}
use openclaw_rust_node.Json.{Json}

-- `value.chars().take(n)`.
unfoldable pub chars_take : ℕ → String → String
chars_take zero s = String.[]
chars_take (suc n) String.[] = String.[]
chars_take (suc n) (String.◌∷◌ c s) = String.◌∷◌ c (chars_take n s)

-- `split_whitespace`: `word` is the word that is being read.
unfoldable pub split_whitespace_from : String → String → List String
unfolding is_whitespace
split_whitespace_from word String.[] = if is_empty word then [] else word ∷ []
split_whitespace_from word (String.◌∷◌ c s) =
    let next = split_whitespace_from String.[] s in
    let more = split_whitespace_from (str_append word (String.◌∷◌ c String.[])) s in
    if is_whitespace c then if is_empty word then next else word ∷ next else more

unfoldable pub join : List String → String
join [] = String.[]
join (w ∷ []) = w
join (w ∷ v ∷ r) = str_append w (str_append " " (join (v ∷ r)))

-- The text of a JSON string, its whitespace collapsed, cut to `max_chars` characters.
unfoldable pub normalize_detail : ℕ → String → Option String
unfolding chars_take split_whitespace_from join
normalize_detail max_chars text =
    let normalized = join (split_whitespace_from String.[] text) in
    if is_empty normalized then none else some (chars_take max_chars normalized)

pub record ConnectErrorDetails : Type 0 where
  pub code : Option String
  pub device_id : Option String
  pub remediation_hint : Option String
  pub retryable : Option Bool
  pub pause_reconnect : Option Bool

unfoldable pub should_pause_reconnect : ConnectErrorDetails → Bool
should_pause_reconnect d = is_true d.pause_reconnect || is_false d.retryable

unfoldable pub invalidates_device_token : ConnectErrorDetails → Bool
invalidates_device_token d = is_some_and d.code (λ c. str_eq c "AUTH_DEVICE_TOKEN_MISMATCH")

module _ (J : Json) where
  open J use {Value, get, as_str, as_bool}

  unfoldable pub connect_detail_text : Option Value → ℕ → Option String
  unfolding normalize_detail
  connect_detail_text value max_chars = value >>= as_str >>= normalize_detail max_chars

  unfoldable pub from_value : Option Value → ConnectErrorDetails
  unfolding connect_detail_text
  from_value none = record {
    code = none;
    device_id = none;
    remediation_hint = none;
    retryable = none;
    pause_reconnect = none;
  }
  from_value (some value) = record {
    code = connect_detail_text (get value "code") 80;
    device_id = connect_detail_text (get value "deviceId") 128;
    remediation_hint = connect_detail_text (get value "remediationHint") 240;
    retryable = get value "retryable" >>= as_bool;
    pause_reconnect = get value "pauseReconnect" >>= as_bool;
  }

-- `1_u64.checked_shl(shift)`, which has a value for a shift below the 64 bits alone.
abbrev checked_shl_one : ℕ → ℕ
checked_shl_one shift = if ltb shift 64 then 2 ^ shift else u64_max

-- `maximum` is a duration in nanoseconds, of which `as_secs` drops the fraction.
unfoldable pub reconnect_backoff : ℕ → ℕ → ℕ
reconnect_backoff attempt maximum =
    from_secs (min (checked_shl_one (attempt - 1)) (maximum / 1000000000))
