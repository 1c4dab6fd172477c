-- ===== src/X402.antt =====
-- packages/x402-compat/src/index.ts: the x402 version 2 messages of a Fiber charge.
pub mod Types
pub mod Conversion
pub mod RoundTrip
pub mod Credential
