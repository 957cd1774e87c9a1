-- ===== src/Session.antt =====
-- proxy/internal/session: one module for each part of the broker's sessions.
pub mod PortPool
pub mod Token
pub mod RdpFile
pub mod Gatekeeper
pub mod ConfigWriter
pub mod Manager
pub mod ProxyProcess
