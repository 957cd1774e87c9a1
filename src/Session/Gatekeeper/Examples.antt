-- ===== src/Session/Gatekeeper/Examples.antt =====
-- Tests of the gatekeeper, and its theorems at concrete connections.
use rdp_warp_portal.Prelude.{
  ℕ, ◌+◌, ◌≡◌, refl, ◌↔◌, true, false, none, some, List, [], ◌∷◌, ◌++◌, Text, codes, text_beq,
  text_eq, ok, err, arith,
}
use rdp_warp_portal.Session.Gatekeeper.Address.{extract_ip}
use rdp_warp_portal.Session.Gatekeeper.Connections.Closing.{
  Life, accepts, advances, leaves, closes, ends,
}
use rdp_warp_portal.Session.Gatekeeper.Cookie.RoundTrip.{IsCookieSafe, parse_cookie-lb_info}
use rdp_warp_portal.Session.Gatekeeper.Cookie.Sound.{Spells, parse_cookie_sound}
use rdp_warp_portal.Session.Gatekeeper.Cookie.{ParsedCookie, parse_cookie}
use rdp_warp_portal.Session.Gatekeeper.Handler.Gates.{Passes, bridged_iff}
use rdp_warp_portal.Session.Gatekeeper.Handler.{Gate, Network, bridged, handle_connection}
use rdp_warp_portal.Session.Gatekeeper.Packet.Delivery.{read_x224_packet-lb_info}
use rdp_warp_portal.Session.Gatekeeper.Packet.{
  Conn, read_x224_packet, read_and_parse_x224, read_full, packet_length, byte_at,
}
use rdp_warp_portal.Session.Gatekeeper.{
  invalid_tpkt, packet_too_short, no_cookie, invalid_cookie_format,
}
use rdp_warp_portal.Session.RdpFile.{RdpFileParams, lb_info, compound_username, cookie_prefix, crlf}
use rdp_warp_portal.Strings.Replace.{encode_at, decode_at}
use rdp_warp_portal.Strings.{index, split, contains, last_index, has_prefix, has_suffix}

abbrev params : RdpFileParams
params = record {
  broker_host = codes "broker";
  port = 33400;
  user_id = codes "bob@p0.dev";
  target_id = codes "dc-01";
  token = codes "T_1";
  domain = codes "P0RTAL";
}

written : lb_info params ≡ codes "Cookie: mstshash=bob%40p0.dev#dc-01#T_1\r\n"
unfolding lb_info encode_at
written = refl

no_prefix : parse_cookie (codes "mstshash=a#b#c\r\n") ≡ err no_cookie
unfolding parse_cookie index
no_prefix = refl

two_parts : parse_cookie (codes "Cookie: mstshash=a#b\r\n") ≡ err invalid_cookie_format
unfolding parse_cookie index split text_beq
two_parts = refl

addresses :
    (extract_ip (codes "10.0.0.7:4711") ≡ codes "10.0.0.7")
    × (extract_ip (codes "[::1]:4711") ≡ codes "::1")
    × (extract_ip (codes "unix") ≡ codes "unix")
unfolding extract_ip last_index has_prefix has_suffix text_beq
addresses = (refl, refl, refl)

params-IsCookieSafe : IsCookieSafe params
unfolding contains
params-IsCookieSafe = record {
  user = ((λ e. cc), omega arith, omega arith);
  no_escape = refl;
  target = ((λ e. cc), omega arith, omega arith);
  token = ((λ e. cc), omega arith, omega arith);
}

abbrev cookie : ParsedCookie
cookie = record {
  user_id = codes "bob@p0.dev";
  target_id = codes "dc-01";
  token = codes "T_1";
  raw = codes "bob%40p0.dev#dc-01#T_1";
}

parse_cookie-lb_info_example : parse_cookie (lb_info params ++ codes "more") ≡ ok cookie
unfolding compound_username encode_at
parse_cookie-lb_info_example = parse_cookie-lb_info params (codes "more") params-IsCookieSafe

parse_cookie_sound_example :
    Spells cookie
    × ((before : Text) × (rest : Text) × (lb_info params ++ codes "more"
          ≡ before ++ (cookie_prefix ++ (cookie.raw ++ (crlf ++ rest)))))
parse_cookie_sound_example =
    parse_cookie_sound (lb_info params ++ codes "more") cookie parse_cookie-lb_info_example

abbrev x224_cr : Text
x224_cr = 0x2e ∷ 0xe0 ∷ 0 ∷ 0 ∷ 0 ∷ 0 ∷ 0 ∷ []

abbrev routing : Text
routing = codes "Cookie: mstshash=bob%40p0.dev#dc-01#T_1\r\n"

abbrev packet : Text
packet = 3 ∷ 0 ∷ 0 ∷ 52 ∷ (x224_cr ++ routing)

-- The Connection Request of a client that has the session's RDP file, and three bytes more.
abbrev request : Conn
request = record { deadline_ok = true; input = packet ++ codes "xyz"; times_out = false }

abbrev after_request : Conn
after_request = record request { input = codes "xyz" }

read_x224_packet-lb_info_example :
    read_x224_packet request ≡ ok (packet, some cookie, after_request)
unfolding compound_username lb_info encode_at
read_x224_packet-lb_info_example =
    read_x224_packet-lb_info params x224_cr [] (codes "xyz") false params-IsCookieSafe refl
      (omega arith)

strict : read_and_parse_x224 request ≡ ok (packet, cookie, after_request)
unfolding read_and_parse_x224 read_full packet_length byte_at parse_cookie index split decode_at
    text_beq
strict = refl

short_packet :
    (read_x224_packet (record request { input = codes "\t\t\t\t" }) ≡ err invalid_tpkt)
    × (read_and_parse_x224 (record request { input = 3 ∷ 0 ∷ 0 ∷ 10 ∷ [] }) ≡ err packet_too_short)
unfolding read_x224_packet read_and_parse_x224 read_full packet_length byte_at
short_packet = (refl, refl)

-- A validator that knows one target, and counts the connections that it lets through.
abbrev gate : Gate ℕ
gate = record {
  allowed_ip = codes "10.0.0.7";
  validate_token = some (λ n token target. (n + 1, none));
  on_connected = none;
}

abbrev near : Network
near = record { remote_addr = codes "10.0.0.7:4711"; dial_ok = true; write_ok = true }

abbrev far : Network
far = record { remote_addr = codes "10.0.0.8:4711"; dial_ok = true; write_ok = true }

bridged_iff_example :
    (handle_connection gate near request 0 ≡ (1, bridged packet))
    ↔ Passes gate near request 0 1 packet
bridged_iff_example = bridged_iff gate near request 0 1 packet

-- One connection has come and gone, one is handled, and one is accepted but not recorded.
abbrev busy : List Life
busy =
    accepts 4
    ∷ advances
    ∷ advances
    ∷ accepts 7
    ∷ advances
    ∷ leaves 4
    ∷ closes 4
    ∷ ends
    ∷ advances
    ∷ accepts 9
    ∷ []
