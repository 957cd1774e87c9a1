-- ===== src/Agent.antt =====
-- agent/internal and agent/cmd: the program on the Windows machine that records a session and sends
-- it to the broker.
pub mod Client
pub mod Filters
pub mod Events
pub mod Recorder
pub mod Screen
pub mod Sessions
pub mod Trackers
pub mod Startup
pub mod Captures
pub mod Service
pub mod Examples
pub mod SessionExamples
pub mod StoredExamples
