-- ===== src/Session/Manager/DoorExamples.antt =====
-- The theorems about a session's gatekeeper at a concrete session.
use rdp_warp_portal.Prelude.{
  ◌≤◌, ◌≡◌, refl, true, false, [], ◌∷◌, ◌++◌, Text, codes, text_beq, text_eq, arith, length,
}
use rdp_warp_portal.Session.Gatekeeper.Address.{extract_ip}
use rdp_warp_portal.Session.Gatekeeper.Cookie.RoundTrip.{IsCookieSafe}
use rdp_warp_portal.Session.Gatekeeper.Handler.{Network, bridged, handle_connection, ip_allowed}
use rdp_warp_portal.Session.Gatekeeper.Packet.Delivery.{tpkt_header}
use rdp_warp_portal.Session.Manager.Door.{session_gate, Visit, bridges, bridged_once}
use rdp_warp_portal.Session.Manager.Entry.{entered, request, rdp_file-bridged}
use rdp_warp_portal.Session.Manager.Examples.{manager, session}
use rdp_warp_portal.Session.Manager.Queries.{rdp_params}
use rdp_warp_portal.Session.Manager.{Session, active}
use rdp_warp_portal.Session.RdpFile.{lb_info, compound_username}
use rdp_warp_portal.Session.Token.Encoding.{encode, digit}
use rdp_warp_portal.Strings.Replace.{encode_at}
use rdp_warp_portal.Strings.{contains, last_index, has_prefix, has_suffix}

abbrev open_session : Session
open_session = record session { state = active }

abbrev net : Network
net = record { remote_addr = codes "10.0.0.7:4711"; dial_ok = true; write_ok = true }

abbrev x224 : Text
x224 = 2 ∷ 224 ∷ 0 ∷ 0 ∷ 0 ∷ 0 ∷ 0 ∷ []

session-IsCookieSafe : IsCookieSafe (rdp_params manager open_session)
unfolding rdp_params contains encode digit
session-IsCookieSafe = record {
  user = ((λ e. cc), omega arith, omega arith);
  no_escape = refl;
  target = ((λ e. cc), omega arith, omega arith);
  token = ((λ e. cc), omega arith, omega arith);
}

rdp_file-bridged_example :
    let body = request manager open_session x224 [] in
    let packet = tpkt_header (length body) ++ body in
    handle_connection
      (session_gate (codes "10.0.0.7") 1010)
      net
      (record { deadline_ok = true; input = packet ++ []; times_out = false })
      open_session
    ≡ (entered 1010 open_session, bridged packet)
unfolding rdp_params lb_info compound_username encode_at encode session_gate ip_allowed extract_ip
    last_index has_prefix has_suffix text_beq
rdp_file-bridged_example =
    rdp_file-bridged manager open_session net 1010 x224 [] [] session-IsCookieSafe refl
      (omega arith) refl refl (omega arith) refl refl refl

-- The same client, twice.
abbrev client : Visit
client = record {
  now = 1010;
  net = net;
  conn = record {
    deadline_ok = true;
    input =
        tpkt_header (length (request manager open_session x224 []))
        ++ request manager open_session x224 [];
    times_out = false;
  };
}

bridged_once_example : bridges (codes "10.0.0.7") open_session (client ∷ client ∷ []) ≤ 1
bridged_once_example = bridged_once (codes "10.0.0.7") open_session (client ∷ client ∷ [])
