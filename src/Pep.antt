-- ===== src/Pep.antt =====
-- pep: the policy enforcement point client of the authorisation service.
pub mod Decision
pub mod Cache
pub mod Json
pub mod Checked
pub mod Expiry
pub mod Request
pub mod Wire
pub mod Client
mod Tests
