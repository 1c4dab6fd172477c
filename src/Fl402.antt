-- ===== src/Fl402.antt =====
-- packages/fl402-compat/src/index.ts: capabilities signed by a root key, F-L402 challenges and proofs,
-- and their headers.
pub mod Types
pub mod Capability
pub mod Proof
pub mod Headers
pub mod Caveats
pub mod Issued
pub mod Soundness
pub mod Completeness
pub mod HeaderRoundTrip
