-- ===== src/Cli.antt =====
-- packages/cli/src/index.ts and ops.ts: the gateway's server in front of the paid handler, and what it
-- hides in its logs.
pub mod RateLimiter
pub mod Gateway
pub mod Redaction
