-- ===== src/Session/Gatekeeper/Packet/Delivery.antt =====
-- From the RDP file to the gatekeeper: the client's Connection Request carries the session's token.
use rdp_warp_portal.Prelude.{
  ℕ, ◌+◌, ◌-◌, ◌/◌, ◌%◌, ◌≤◌, ◌≡◌, ap, ◌∙◌, Bool, true, some, [], ◌∷◌, ◌++◌, ltb, nat_eq, Text, ok,
  length, drop, take-length-append, drop-length-append, length-append, subst, arith,
}
use rdp_warp_portal.Session.Gatekeeper.Cookie.RoundTrip.{IsCookieSafe, parse_cookie-lb_info}
use rdp_warp_portal.Session.Gatekeeper.Packet.{
  Conn, read_full, packet_length, byte_at, optional_cookie, read_body, read_x224_packet,
  tpkt_header_size, tpkt_max_length, tpkt_version, x224_header_size,
}
use rdp_warp_portal.Session.Gatekeeper.Packet.Framing.{read_full_ok}
use rdp_warp_portal.Session.Gatekeeper.{io_failed}
use rdp_warp_portal.Session.RdpFile.{RdpFileParams, lb_info, compound_username}

-- The header that a client puts before `n` bytes: the version, a zero, and the whole length.
abbrev pub tpkt_header : ℕ → Text
tpkt_header n =
    tpkt_version ∷ 0 ∷ ((n + tpkt_header_size) / 256) ∷ ((n + tpkt_header_size) % 256) ∷ []

packet_length-tpkt_header : (n : ℕ) → packet_length (tpkt_header n) ≡ n + tpkt_header_size
unfolding packet_length byte_at
packet_length-tpkt_header n = omega arith

-- A body that lies at the start of the input is read with its header.
read_framed :
    (deadline_ok times_out : Bool) (body unread : Text)
    → 7 ≤ length body
    → length body + tpkt_header_size ≤ tpkt_max_length
    → read_body
        (tpkt_header (length body))
        (record { deadline_ok = deadline_ok; input = body ++ unread; times_out = times_out })
      ≡ ok (
        tpkt_header (length body) ++ body,
        optional_cookie body,
        record { deadline_ok = deadline_ok; input = unread; times_out = times_out },
      )
unfolding read_body byte_at
read_framed deadline_ok times_out body unread low high =
    let n = length body in
    let conn : Conn = record {
      deadline_ok = deadline_ok;
      input = body ++ unread;
      times_out = times_out;
    } in
    let size = packet_length-tpkt_header n in
    let count : packet_length (tpkt_header n) - tpkt_header_size ≡ n = omega arith in
    let got : read_full (packet_length (tpkt_header n) - tpkt_header_size) conn io_failed
        ≡ ok (body, record conn { input = unread }) =
      ap (λ k. read_full k conn io_failed) count
      ∙ read_full_ok n conn io_failed (omega (arith, length-append body unread))
      ∙ rw (take-length-append body unread, drop-length-append body unread) in
    ground (arith, size, got)

cookie_behind_header :
    (p : RdpFileParams) (x224 rest : Text)
    → IsCookieSafe p
    → length x224 ≡ x224_header_size
    → optional_cookie (x224 ++ (lb_info p ++ rest))
      ≡ some (record {
        user_id = p.user_id;
        target_id = p.target_id;
        token = p.token;
        raw = compound_username p;
      })
unfolding optional_cookie lb_info
cookie_behind_header p x224 rest safe seven =
    let behind : drop x224_header_size (x224 ++ (lb_info p ++ rest)) ≡ lb_info p ++ rest =
      subst (λ n. drop n (x224 ++ (lb_info p ++ rest)) ≡ lb_info p ++ rest) seven
        (drop-length-append x224 (lb_info p ++ rest)) in
    let long : ltb x224_header_size (length (x224 ++ (lb_info p ++ rest))) ≡ true =
      ground (arith, length-append x224 (lb_info p ++ rest)) in
    rw (long, behind, parse_cookie-lb_info p rest safe)

-- A client that sends the routing token of a session's RDP file, behind any X.224 header and before
-- any other data, in a packet of at most 65535 bytes, is read in full and no further: the gatekeeper
-- has the packet as it was sent, and the user, the target and the token of that session.
pub read_x224_packet-lb_info :
    (p : RdpFileParams) (x224 rest unread : Text) (times_out : Bool)
    → IsCookieSafe p
    → length x224 ≡ x224_header_size
    → let body = x224 ++ (lb_info p ++ rest) in
      length body + tpkt_header_size ≤ tpkt_max_length
      → read_x224_packet (record {
        deadline_ok = true;
        input = tpkt_header (length body) ++ (body ++ unread);
        times_out = times_out;
      })
        ≡ ok (
          tpkt_header (length body) ++ body,
          some (record {
            user_id = p.user_id;
            target_id = p.target_id;
            token = p.token;
            raw = compound_username p;
          }),
          record { deadline_ok = true; input = unread; times_out = times_out },
        )
unfolding read_x224_packet
read_x224_packet-lb_info p x224 rest unread times_out safe seven fits =
    let body = x224 ++ (lb_info p ++ rest) in
    let conn : Conn = record {
      deadline_ok = true;
      input = tpkt_header (length body) ++ (body ++ unread);
      times_out = times_out;
    } in
    let long = length-append x224 (lb_info p ++ rest) in
    rw (read_full_ok tpkt_header_size conn io_failed (omega arith)) (
      read_framed true times_out body unread (omega arith) fits
      ∙ rw (cookie_behind_header p x224 rest safe seven))
