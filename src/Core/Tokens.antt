-- ===== src/Core/Tokens.antt =====
-- packages/core/src/encoding.ts: what a token decodes to after it was encoded, on a platform whose
-- JSON, UTF-8 and base64url functions fit together.
pub mod SameJson
pub mod Lawful
pub mod ReadBack
pub mod ChargeTokens
pub mod ReceiptTokens
