-- ===== src/Session/Gatekeeper/Cookie.antt =====
-- `parseCookie` of proxy/internal/session/gatekeeper.go, and its meeting with the RDP file.
pub mod RoundTrip
pub mod Sound
use rdp_warp_portal.Prelude.{
  ℕ, ◌+◌, ◌≡◌, Bool, true, false, ◌||◌, not, Option, none, some, List, [], ◌∷◌, if◌then◌else◌, ◌==◌,
  text_eq, Text, codes, Result, ok, err, length, take, drop,
}
use rdp_warp_portal.Session.Gatekeeper.{GateError, no_cookie, invalid_cookie_format}
use rdp_warp_portal.Session.RdpFile.{cookie_prefix, crlf}
use rdp_warp_portal.Strings.Replace.{decode_at}
use rdp_warp_portal.Strings.{index, split}

pub record ParsedCookie : Type 0 where
  pub user_id : Text
  pub target_id : Text
  pub token : Text
  pub raw : Text

-- The three parts of the cookie's value.
parse_parts : Text → List Text → Result GateError ParsedCookie
parse_parts raw (user ∷ target ∷ token ∷ []) =
    let user_id = decode_at user in
    if user_id == [] || target == [] || token == []
    then err invalid_cookie_format
    else ok (record { user_id = user_id; target_id = target; token = token; raw = raw })
parse_parts raw _ = err invalid_cookie_format

-- What stands behind `Cookie: mstshash=`.
parse_value : Text → Result GateError ParsedCookie
unfolding parse_parts
parse_value after_prefix = elim (index after_prefix crlf) [
  | none ↦ err invalid_cookie_format
  | some term ↦
      let cookie_value = take term after_prefix in
      if cookie_value == []
      then err invalid_cookie_format
      else parse_parts cookie_value (split cookie_value b'#')
]

unfoldable pub parse_cookie : Text → Result GateError ParsedCookie
unfolding parse_value
parse_cookie bytes = elim (index bytes cookie_prefix) [
  | none ↦ err no_cookie
  | some idx ↦ parse_value (drop (idx + length cookie_prefix) bytes)
]
