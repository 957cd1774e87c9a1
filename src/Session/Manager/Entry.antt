-- ===== src/Session/Manager/Entry.antt =====
-- The way in: from the RDP file of a session to its proxy.
use rdp_warp_portal.Prelude.{
  ℕ, ◌+◌, ◌≤◌, ◌≡◌, refl, ap, sym, ◌∙◌, true, false, none, some, ◌++◌, text_eq, Text, arith,
  beq_refl, length,
}
use rdp_warp_portal.Session.Gatekeeper.Cookie.RoundTrip.{IsCookieSafe}
use rdp_warp_portal.Session.Gatekeeper.Cookie.{ParsedCookie}
use rdp_warp_portal.Session.Gatekeeper.Handler.Gates.{bridged-of-Passes}
use rdp_warp_portal.Session.Gatekeeper.Handler.{
  Network, bridged, handle_connection, ip_allowed, run_validate, notify,
}
use rdp_warp_portal.Session.Gatekeeper.Packet.Delivery.{read_x224_packet-lb_info, tpkt_header}
use rdp_warp_portal.Session.Gatekeeper.Packet.{
  Conn, tpkt_header_size, tpkt_max_length, x224_header_size,
}
use rdp_warp_portal.Session.Manager.Door.{session_gate}
use rdp_warp_portal.Session.Manager.Queries.{rdp_params}
use rdp_warp_portal.Session.Manager.{
  Manager, Session, active, connected, on_connected, validate_token,
}
use rdp_warp_portal.Session.RdpFile.{lb_info, compound_username}
use rdp_warp_portal.Session.Token.{validate}

-- A session that a client has reached.
abbrev pub entered : ℕ → Session → Session
entered now s = record s {
  state = connected;
  connected_at = some now;
  token = record s.token { consumed = true };
}

-- The validator takes the session's own token for its own target.
validate_token-own :
    (now : ℕ) (s : Session)
    → s.token.consumed ≡ false
    → now ≤ s.token.expiry
    → validate_token now s s.token.value s.target_id
      ≡ (record s { token = record s.token { consumed = true } }, none)
unfolding validate_token validate
validate_token-own now s unused alive = ground (arith, beq_refl s.token.value, beq_refl s.target_id)

on_connected-active :
    (now : ℕ) (s : Session)
    → s.state ≡ active
    → on_connected now s ≡ record s { state = connected; connected_at = some now }
unfolding on_connected
on_connected-active now s ready = rw (on_connected, ready) refl

-- The Connection Request that a client sends on behalf of a session's RDP file.
abbrev pub request : Manager → Session → Text → Text → Text
request m s x224 rest = x224 ++ (lb_info (rdp_params m s) ++ rest)

-- A client that opens the RDP file of an active session, from the allowed address and before the
-- token expires, is bridged to the proxy, which gets the client's packet unchanged; the session is
-- then connected and its token used. The names in the file must be safe in a cookie, the packet
-- must fit, and the proxy must answer.
pub rdp_file-bridged :
    (m : Manager) (s : Session) (net : Network) (now : ℕ) (x224 rest unread : Text)
    → IsCookieSafe (rdp_params m s)
    → length x224 ≡ x224_header_size
    → length (request m s x224 rest) + tpkt_header_size ≤ tpkt_max_length
    → s.state ≡ active
    → s.token.consumed ≡ false
    → now ≤ s.token.expiry
    → ip_allowed (session_gate s.client_ip now) net ≡ true
    → net.dial_ok ≡ true
    → net.write_ok ≡ true
    → let packet = tpkt_header (length (request m s x224 rest)) ++ request m s x224 rest in
      handle_connection
        (session_gate s.client_ip now)
        net
        (record { deadline_ok = true; input = packet ++ unread; times_out = false })
        s
      ≡ (entered now s, bridged packet)
unfolding session_gate run_validate notify on_connected rdp_params
rdp_file-bridged m s net now x224 rest unread safe seven fits ready unused alive allowed dialled
      sent =
    let p = rdp_params m s in
    let body = request m s x224 rest in
    let packet = tpkt_header (length body) ++ body in
    let conn : Conn = record { deadline_ok = true; input = packet ++ unread; times_out = false } in
    let cookie : ParsedCookie = record {
      user_id = p.user_id;
      target_id = p.target_id;
      token = p.token;
      raw = compound_username p;
    } in
    let own = validate_token-own now s unused alive in
    bridged-of-Passes (session_gate s.client_ip now) net conn s (entered now s) packet cookie
      (record conn { input = unread })
      (read_x224_packet-lb_info p x224 rest unread false safe seven fits) allowed
      (ap (λ r. r.1) own) dialled sent
      (sym (ap (λ r. on_connected now r.0) own ∙ on_connected-active now _ ready))
