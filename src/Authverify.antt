-- ===== src/Authverify.antt =====
-- authverify/: the verifiers of access tokens and the source of their keys.
pub mod Patterns
pub mod Document
pub mod Compact
pub mod Access
pub mod WorkloadToken
pub mod ServiceAccount
pub mod Verdict
pub mod Verifier
pub mod Class
pub mod Verify
pub mod Keys
pub mod Fetch
pub mod Exchange
pub mod TokenReview
pub mod Jwks
mod Tests
