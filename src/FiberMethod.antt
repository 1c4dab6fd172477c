-- ===== src/FiberMethod.antt =====
-- packages/fiber-method/src/index.ts: invoices and payments of a Fiber node, over its RPC client.
pub mod Status
pub mod Polling
pub mod Script
pub mod Invoice
pub mod Matching
pub mod Adapter
