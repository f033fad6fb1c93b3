-- ===== src/Tests.antt =====
-- Concrete inputs at which the theorems' hypotheses hold.
pub mod Parsing
pub mod State
pub mod Policy
pub mod Cookie
pub mod Dispatch
pub mod Gates
pub mod KeySets
pub mod Jwt
pub mod Remote
pub mod Verifier
pub mod Readiness
pub mod Probe
pub mod Sql
pub mod Backed
pub mod Redis
pub mod Urls
pub mod Transport
