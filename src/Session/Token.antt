-- ===== src/Session/Token.antt =====
-- proxy/internal/session/token.go. Times and durations are natural numbers on one clock, read once
-- in each call. `Validate` holds the token's mutex, so concurrent calls are some sequence of steps.
pub mod Encoding
pub mod OneTime
pub mod Examples
use rdp_warp_portal.Prelude.{
  ℕ, ◌+◌, ◌-◌, ◌≡◌, Bool, true, false, not, Option, none, some, ltb, if◌then◌else◌, ◌==◌, text_eq,
  Text, ℤ, sub_ℕ,
}
use rdp_warp_portal.Session.Token.Encoding.{encode}

pub data TokenError : Type 0 where
  token_expired token_already_used token_mismatch : TokenError

pub record Token : Type 0 where
  pub value : Text
  pub expiry : ℕ
  pub consumed : Bool

abbrev pub token_size : ℕ
token_size = 32

-- `rand.Read` fills the buffer of `token_size` bytes, or fails.
unfoldable pub generate_token : Option Text → Option Text
generate_token none = none
generate_token (some bytes) = some (encode bytes)

unfoldable pub new_token : Option Text → ℕ → ℕ → Option Token
new_token random now ttl = elim (generate_token random) [
  | none ↦ none
  | some value ↦ some (record { value = value; expiry = now + ttl; consumed = false })
]

pub is_expired : Token → ℕ → Bool
is_expired t now = ltb t.expiry now

unfoldable pub validate : Token → Text → ℕ → Token × Option TokenError
unfolding is_expired
validate t value now =
    if not (t.value == value)
    then (t, some token_mismatch)
    else if t.consumed
    then (t, some token_already_used)
    else if is_expired t now
    then (t, some token_expired)
    else (record t { consumed = true }, none)

pub validate_without_consume : Token → Text → ℕ → Option TokenError
unfolding is_expired
validate_without_consume t value now =
    if not (t.value == value)
    then some token_mismatch
    else if t.consumed
    then some token_already_used
    else if is_expired t now
    then some token_expired
    else none

pub ttl_remaining : Token → ℕ → ℤ
ttl_remaining t now = sub_ℕ t.expiry now
