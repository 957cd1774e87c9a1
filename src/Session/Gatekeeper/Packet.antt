-- ===== src/Session/Gatekeeper/Packet.antt =====
-- Reading the Connection Request from a client, in proxy/internal/session/gatekeeper.go.
pub mod Framing
pub mod Delivery
use Prim.Native.Nat.{bit_and}
use rdp_warp_portal.Prelude.{
  ℕ, zero, suc, ◌+◌, ◌-◌, ◌*◌, ◌≡◌, Bool, true, false, ◌||◌, not, Option, none, some, List, [], ◌∷◌,
  ◌++◌, ltb, leb, if◌then◌else◌, ◌==◌, nat_eq, Text, Result, ok, err, ◌>>=◌, ◌>>◌, require,
  to_option, length, take, drop, get_or,
}
use rdp_warp_portal.Session.Gatekeeper.Cookie.{ParsedCookie, parse_cookie}
use rdp_warp_portal.Session.Gatekeeper.{
  GateError, invalid_tpkt, invalid_x224, packet_too_short, read_timeout, io_failed,
}

abbrev pub tpkt_version : ℕ
tpkt_version = 3

abbrev pub tpkt_header_size : ℕ
tpkt_header_size = 4

abbrev pub tpkt_max_length : ℕ
tpkt_max_length = 65535

abbrev pub tpkt_min_length : ℕ
tpkt_min_length = 11

abbrev pub x224_type_cr : ℕ
x224_type_cr = 0xe0

abbrev pub x224_header_size : ℕ
x224_header_size = 7

-- A connection as its reader meets it: whether a deadline can be set, the bytes that the peer sends
-- before reading stops, and whether it then stops by the deadline.
pub record Conn : Type 0 where
  pub deadline_ok : Bool
  pub input : Text
  pub times_out : Bool

-- `io.ReadFull` into a buffer of `n` bytes, and the error that the caller makes of its failure.
unfoldable pub read_full : ℕ → Conn → GateError → Result GateError (Text × Conn)
read_full n c e =
    if leb n (length c.input)
    then ok (take n c.input, record c { input = drop n c.input })
    else err e

unfoldable pub byte_at : Text → ℕ → ℕ
byte_at s i = get_or s i 0

-- `binary.BigEndian.Uint16` of the bytes 2 and 3.
unfoldable pub packet_length : Text → ℕ
unfolding byte_at
packet_length tpkt = byte_at tpkt 2 * 256 + byte_at tpkt 3

-- The cookie behind the X.224 header, or nil.
unfoldable pub optional_cookie : Text → Option ParsedCookie
optional_cookie body =
    if ltb x224_header_size (length body)
    then to_option (parse_cookie (drop x224_header_size body))
    else none

-- `readX224Packet` from the header on.
read_body : Text → Conn → Result GateError (Text × Option ParsedCookie × Conn)
read_body tpkt conn = do
  require (byte_at tpkt 0 == tpkt_version) invalid_tpkt
  let size = packet_length tpkt
  require (not (ltb size tpkt_min_length || ltb tpkt_max_length size)) invalid_tpkt
  body ← read_full (size - tpkt_header_size) conn io_failed
  ok (tpkt ++ body.0, optional_cookie body.0, body.1)

-- The packet, the cookie if there is a good one, and the connection behind the packet.
unfoldable pub read_x224_packet : Conn → Result GateError (Text × Option ParsedCookie × Conn)
unfolding read_body
read_x224_packet conn = do
  require conn.deadline_ok io_failed
  header ← read_full tpkt_header_size conn io_failed
  read_body header.0 header.1

-- `readAndParseX224` behind the packet's body.
parse_body : Text → Text → Conn → Result GateError (Text × ParsedCookie × Conn)
parse_body tpkt body conn = do
  require (not (ltb (length body) x224_header_size)) invalid_x224
  require (bit_and (byte_at body 1) 0xf0 == x224_type_cr) invalid_x224
  cookie ← parse_cookie (drop x224_header_size body)
  ok (tpkt ++ body, cookie, conn)

-- `readAndParseX224` from the header on.
parse_packet : Text → Conn → Result GateError (Text × ParsedCookie × Conn)
unfolding parse_body
parse_packet tpkt conn = do
  require (byte_at tpkt 0 == tpkt_version) invalid_tpkt
  let size = packet_length tpkt
  require (not (ltb size tpkt_min_length)) packet_too_short
  require (not (ltb tpkt_max_length size)) invalid_tpkt
  body ← read_full (size - tpkt_header_size) conn io_failed
  parse_body tpkt body.0 body.1

-- The strict reader: it also wants a Connection Request with a good cookie.
unfoldable pub read_and_parse_x224 : Conn → Result GateError (Text × ParsedCookie × Conn)
unfolding parse_packet
read_and_parse_x224 conn = do
  require conn.deadline_ok io_failed
  header ← read_full tpkt_header_size conn (if conn.times_out then read_timeout else io_failed)
  parse_packet header.0 header.1
