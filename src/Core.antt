-- ===== src/Core.antt =====
-- packages/core: the data model, its schemas, challenge binding, problem documents and headers.
pub mod JsonValue
pub mod Types
pub mod Json
pub mod Runtime
pub mod Schemas
pub mod Crypto
pub mod Errors
pub mod Http
pub mod Tokens
pub mod Encoding
pub mod ChargeEncoding
pub mod Resource
