-- ===== src/Session/Gatekeeper.antt =====
-- proxy/internal/session/gatekeeper.go: the listener in front of a session's proxy.
pub mod Cookie
pub mod Packet
pub mod Handler
pub mod Connections
pub mod Address
pub mod Examples

pub data GateError : Type 0 where
  gatekeeper_closed invalid_tpkt invalid_x224 packet_too_short no_cookie invalid_cookie_format
        read_timeout io_failed :
      GateError
