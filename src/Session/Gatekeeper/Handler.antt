-- ===== src/Session/Gatekeeper/Handler.antt =====
-- `handleConnection` of proxy/internal/session/gatekeeper.go. The state behind the two callbacks is a
-- parameter `S`; the calls to the network succeed or fail as the environment says.
pub mod Gates
use rdp_warp_portal.Prelude.{
  Bool, true, false, ◌&&◌, not, Option, none, some, [], ◌≡◌, if◌then◌else◌, ◌==◌, text_eq, Text,
  Result, ok, err,
}
use rdp_warp_portal.Session.Gatekeeper.Address.{extract_ip}
use rdp_warp_portal.Session.Gatekeeper.Cookie.{ParsedCookie}
use rdp_warp_portal.Session.Gatekeeper.Packet.{Conn, read_x224_packet}
use rdp_warp_portal.Session.Gatekeeper.{GateError}
use rdp_warp_portal.Session.Token.{TokenError}

-- Why a connection was closed.
pub data Drop : Type 0 where
  unreadable : GateError → Drop
  no_cookie_sent wrong_ip proxy_unreachable forward_failed : Drop
  refused : TokenError → Drop

-- A connection is closed, or its packet is forwarded and the two sides are bridged.
pub data Outcome : Type 0 where
  dropped : Drop → Outcome
  bridged : Text → Outcome

-- `clientConn.RemoteAddr()`, and whether the proxy can be dialled and written to.
pub record Network : Type 0 where
  pub remote_addr : Text
  pub dial_ok : Bool
  pub write_ok : Bool

-- The fields of `Gatekeeper` that the handler reads; a callback that is nil is `none`.
pub record Gate (S : Type 0) : Type 0 where
  pub allowed_ip : Text
  pub validate_token : Option (S → Text → Text → S × Option TokenError)
  pub on_connected : Option (S → S)

module _ {S : Type 0} where
  unfoldable pub run_validate : Gate S → ParsedCookie → S → S × Option TokenError
  run_validate g cookie s = elim g.validate_token [
    | none ↦ (s, none)
    | some validate ↦ validate s cookie.token cookie.target_id
  ]

  unfoldable pub notify : Gate S → S → S
  notify g s = elim g.on_connected [ none ↦ s | some connected ↦ connected s ]

  -- From the dialling of the proxy on.
  connect_proxy : Gate S → Network → Text → S → S × Outcome
  unfolding notify
  connect_proxy g net packet s =
      if not net.dial_ok
      then (s, dropped proxy_unreachable)
      else if not net.write_ok
      then (s, dropped forward_failed)
      else (notify g s, bridged packet)

  -- From the token's validation on.
  admit : Gate S → Network → Text → ParsedCookie → S → S × Outcome
  unfolding connect_proxy run_validate
  admit g net packet cookie s =
      let (s', error) = run_validate g cookie s in
      elim error [ some e ↦ (s', dropped (refused e)) | none ↦ connect_proxy g net packet s' ]

  unfoldable pub ip_allowed : Gate S → Network → Bool
  ip_allowed g net =
      not (not (g.allowed_ip == []) && not (extract_ip net.remote_addr == g.allowed_ip))

  -- From the check of the cookie on.
  check_cookie : Gate S → Network → Text → Option ParsedCookie → S → S × Outcome
  unfolding admit ip_allowed
  check_cookie g net packet none s = (s, dropped no_cookie_sent)
  check_cookie g net packet (some cookie) s =
      if ip_allowed g net then admit g net packet cookie s else (s, dropped wrong_ip)

  unfoldable pub handle_connection : Gate S → Network → Conn → S → S × Outcome
  unfolding check_cookie
  handle_connection g net conn s = elim (read_x224_packet conn) [
    | err e ↦ (s, dropped (unreadable e))
    | ok (packet, cookie, rest) ↦ check_cookie g net packet cookie s
  ]
