-- ===== src/Middleware.antt =====
-- packages/server-middleware/src/index.ts: the gateway in front of a protected handler. A request
-- stops at each `await`; what the other side answers there is in `Answer`.
pub mod Config
pub mod Verify
pub mod Issue
pub mod Protect
pub mod Steps
pub mod Schedule
pub mod ServedOnce
pub mod Receipts
pub mod Admission
pub mod Acceptance
pub mod Proxy
pub mod Fl402Authorization
