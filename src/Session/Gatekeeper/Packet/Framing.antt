-- ===== src/Session/Gatekeeper/Packet/Framing.antt =====
-- What the readers return of the client's bytes.
use rdp_warp_portal.Prelude.{
  ℕ, ◌-◌, ◌≤◌, ◌≡◌, refl, ap, ◌∙◌, ◌⊎◌, inl, inr, Option, some, [], ◌++◌, append_assoc,
  if◌then◌else◌, nat_eq, Text, ok, err, length, take, drop, get_or, get_or-append, drop_all,
  length-take_le, subst, arith, take-append-drop, length-append,
}
use rdp_warp_portal.Session.Gatekeeper.Cookie.{ParsedCookie, parse_cookie}
use rdp_warp_portal.Session.Gatekeeper.Packet.{
  Conn, read_full, packet_length, byte_at, optional_cookie, read_body, parse_body, parse_packet,
  read_x224_packet, read_and_parse_x224, tpkt_header_size, tpkt_min_length, tpkt_max_length,
  tpkt_version, x224_header_size,
}
use rdp_warp_portal.Strings.{index}
use rdp_warp_portal.Session.Gatekeeper.{GateError, io_failed, read_timeout, no_cookie}

-- A full read takes the first bytes; its failure is the caller's error.
read_full_cases :
    (n : ℕ) (c : Conn) (e : GateError)
    → (read_full n c e ≡ err e)
      ⊎ ((n ≤ length c.input)
          × (read_full n c e ≡ ok (take n c.input, record c { input = drop n c.input })))
unfolding read_full
read_full_cases n c e = grind arith

pub read_full_ok :
    (n : ℕ) (c : Conn) (e : GateError)
    → n ≤ length c.input
    → read_full n c e ≡ ok (take n c.input, record c { input = drop n c.input })
unfolding read_full
read_full_ok n c e h = ground arith

-- The packet is the input up to the length in its header, and begins with version 3.
abbrev pub Framed : Text → Text → Text → Type 0
Framed input packet unread =
    (packet ++ unread ≡ input)
    × (length packet ≡ packet_length packet)
    × (tpkt_min_length ≤ length packet)
    × (length packet ≤ tpkt_max_length)
    × (get_or packet 0 0 ≡ tpkt_version)

read_body_inv :
    (tpkt packet : Text) (conn rest : Conn) (cookie : Option ParsedCookie)
    → read_body tpkt conn ≡ ok (packet, cookie, rest)
    → let n = packet_length tpkt - tpkt_header_size in
      (byte_at tpkt 0 ≡ tpkt_version)
      × (tpkt_min_length ≤ packet_length tpkt)
      × (packet_length tpkt ≤ tpkt_max_length)
      × (n ≤ length conn.input)
      × (packet ≡ tpkt ++ take n conn.input)
      × (cookie ≡ optional_cookie (take n conn.input))
      × (rest ≡ record conn { input = drop n conn.input })
unfolding read_body
read_body_inv tpkt packet conn rest cookie h =
    elim (read_full_cases (packet_length tpkt - tpkt_header_size) conn io_failed) [
      | inl e ↦ absurd (ground arith)
      | inr (fits, e) ↦ ground arith
    ]

-- A packet made of a header of four bytes and the body that its length asks for.
framed :
    (tpkt input : Text)
    → length tpkt ≡ tpkt_header_size
    → byte_at tpkt 0 ≡ tpkt_version
    → tpkt_min_length ≤ packet_length tpkt
    → packet_length tpkt ≤ tpkt_max_length
    → packet_length tpkt - tpkt_header_size ≤ length input
    → let n = packet_length tpkt - tpkt_header_size in
      Framed (tpkt ++ input) (tpkt ++ take n input) (drop n input)
unfolding packet_length byte_at
framed tpkt input four version low high fits =
    let n = packet_length tpkt - tpkt_header_size in
    let body = take n input in
    let second = get_or-append tpkt body 2 0 (omega arith) in
    let third = get_or-append tpkt body 3 0 (omega arith) in
    let size = length-append tpkt body in
    let size' = length-take_le n input fits in
    (
      append_assoc tpkt body (drop n input) ∙ ap (◌++◌ tpkt) (take-append-drop n input),
      rw (second, third) (omega arith),
      omega arith,
      omega arith,
      get_or-append tpkt body 0 0 (omega arith) ∙ version,
    )

-- An accepted packet is what the client sent up to the length in its header, which lies between 11
-- and 65535; the bytes behind it stay unread; and it begins with version 3.
pub read_x224_packet_lem :
    (conn rest : Conn) (packet : Text) (cookie : Option ParsedCookie)
    → read_x224_packet conn ≡ ok (packet, cookie, rest)
    → Framed conn.input packet rest.input
unfolding read_x224_packet
read_x224_packet_lem conn rest packet cookie h =
    elim (read_full_cases tpkt_header_size conn io_failed) [
      | inl e ↦ absurd (ground arith)
      | inr (four, e) ↦
          let tpkt = take tpkt_header_size conn.input in
          let behind : Conn = record conn { input = drop tpkt_header_size conn.input } in
          let body : read_body tpkt behind ≡ ok (packet, cookie, rest) = ground arith in
          let (version, low, high, fits, p, _, r) =
            read_body_inv tpkt packet behind rest cookie body in
          let n = packet_length tpkt - tpkt_header_size in
          rw (p, r)
            (subst (λ s. Framed s (tpkt ++ take n behind.input) (drop n behind.input))
              (take-append-drop tpkt_header_size conn.input)
              (framed tpkt behind.input (length-take_le tpkt_header_size conn.input four) version
                low high fits))
    ]

no_cookie_in_nothing : parse_cookie [] ≡ err no_cookie
unfolding parse_cookie index
no_cookie_in_nothing = refl

parse_body_inv :
    (tpkt body packet : Text) (conn rest : Conn) (cookie : ParsedCookie)
    → parse_body tpkt body conn ≡ ok (packet, cookie, rest)
    → (optional_cookie body ≡ some cookie) × (packet ≡ tpkt ++ body) × (rest ≡ conn)
unfolding parse_body optional_cookie
parse_body_inv tpkt body packet conn rest cookie h =
    ground (arith, no_cookie_in_nothing, drop_all x224_header_size body)

parse_packet_inv :
    (tpkt packet : Text) (conn rest : Conn) (cookie : ParsedCookie)
    → parse_packet tpkt conn ≡ ok (packet, cookie, rest)
    → read_body tpkt conn ≡ ok (packet, some cookie, rest)
unfolding parse_packet read_body
parse_packet_inv tpkt packet conn rest cookie h =
    elim (read_full_cases (packet_length tpkt - tpkt_header_size) conn io_failed) [
      | inl e ↦ absurd (ground arith)
      | inr (fits, e) ↦
          let n = packet_length tpkt - tpkt_header_size in
          let behind : Conn = record conn { input = drop n conn.input } in
          let last : parse_body tpkt (take n conn.input) behind ≡ ok (packet, cookie, rest) =
            ground arith in
          ground (arith, parse_body_inv tpkt (take n conn.input) packet behind rest cookie last)
    ]

-- What the strict reader accepts the gatekeeper's reader accepts too, with the same packet and the
-- same cookie, and leaves the same bytes unread.
pub read_x224_packet-strict :
    (conn rest : Conn) (packet : Text) (cookie : ParsedCookie)
    → read_and_parse_x224 conn ≡ ok (packet, cookie, rest)
    → read_x224_packet conn ≡ ok (packet, some cookie, rest)
unfolding read_x224_packet read_and_parse_x224
read_x224_packet-strict conn rest packet cookie h =
    let failure = if conn.times_out then read_timeout else io_failed in
    elim (read_full_cases tpkt_header_size conn failure) [
      | inl e ↦ absurd (ground arith)
      | inr (four, e) ↦
          let tpkt = take tpkt_header_size conn.input in
          let behind : Conn = record conn { input = drop tpkt_header_size conn.input } in
          let strict : parse_packet tpkt behind ≡ ok (packet, cookie, rest) = ground arith in
          ground (
            arith,
            read_full_ok tpkt_header_size conn io_failed four,
            parse_packet_inv tpkt packet behind rest cookie strict,
          )
    ]
