-- ===== src/Workload.antt =====
-- workloadtoken/: the client that exchanges a deployment's subject for workload tokens and caches them.
pub mod Slot
pub mod Config
pub mod Token
pub mod Exchange
pub mod Subject
pub mod RequestKey
pub mod Transport
mod Tests
