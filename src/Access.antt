-- ===== src/Access.antt =====
-- proxy/internal/acl and the handlers of proxy/internal/api that decide who may do what.
pub mod Store
pub mod Router
pub mod Verifier
pub mod Handlers
pub mod Admin
pub mod ClientIp
pub mod ClientIpExamples
pub mod Examples
