-- ===== src/Lib.antt =====
-- Fiber Paid HTTP: HTTP resources that are paid for over the Fiber network.
--
-- A gateway (packages/server-middleware) answers a request without payment by status 402 and a
-- challenge in the WWW-Authenticate header. The challenge carries an invoice and is stored
-- (packages/storage). A client pays the invoice and repeats the request with a credential, which
-- echoes the challenge. The gateway checks the credential, asks the Fiber node whether the invoice is
-- paid, redeems the challenge in the store, calls the paid handler and adds a receipt to its answer.
-- packages/core has the data, their encodings and the header grammar.
--
-- Files:
--   Prelude, Tables, Sorting: texts as lists of code units, results, tables keyed by a text, sorting.
--   Core: packages/core/src. Core/Types and Core/Schemas are types.ts (a record and a Boolean test for
--     each zod schema), Core/Errors errors.ts, Core/Encoding and Core/ChargeEncoding encoding.ts,
--     Core/Json the objects that are encoded, Core/Crypto crypto.ts, Core/Resource and Core/Http
--     http.ts. Core/Runtime lists what the packages call of node, zod and the JCS library; it is a
--     parameter of all that uses it.
--   Core/Http: AuthParams is `escapeQuoted` and `parseAuthParams`; Challenge and Authorization are the
--     headers; Scanning, ParamsRoundTrip, FreshNames and ChallengeRoundTrip are proofs.
--   Storage: packages/storage/src/index.ts. Storage has the tables and the methods of `SqliteStore`,
--     Storage/Queries the ordered queries and `auditSqliteReceipts`, Storage/Schema
--     `initializeSqliteSchema`; Storage/Challenges, Redemption, Invariant and History are proofs.
--   Middleware: packages/server-middleware/src/index.ts. Config is the configuration, Verify
--     `verifyCredential`, Issue `issueChallenge`, Protect `protect` as a machine of phases that stops at
--     each await, Schedule many requests at once; Steps, ServedOnce, Receipts,
--     Admission and Acceptance are proofs.
--   FiberMethod: packages/fiber-method/src/index.ts. Status has the names of states and networks, Invoice
--     the RPC answers and what is read of them, Script the UDT scripts, Matching
--     `assertInvoiceMatches`, Polling the two waits, Adapter `FiberMethodAdapter`; Polling/Waiting and
--     Adapter/Evidence are proofs.
--   Client: packages/client/src/index.ts, `paidFetch` with the list of its calls; Client/Payments are
--     proofs.
--   Core/Tokens: encoding.ts again: IsLawful says what is needed of JSON, UTF-8 and base64url so that a
--     token decodes to what was encoded; the other files are proofs. Middleware/Acceptance uses them.
--   Middleware/Proxy: `createReverseProxyHandler`. Headers and Body are its helpers, Stripped and
--     Response proofs. Middleware/Fl402Authorization is `credentialFromFl402Authorization`.
--   F402, Fl402, X402: packages/f402-compat, fl402-compat and x402-compat, each src/index.ts. Fl402/Types
--     and X402/Types are the schemas, Fl402/Capability, Proof and Headers and X402/Conversion the
--     functions; F402/Conversion, Fl402/Caveats, Issued, Soundness, Completeness and HeaderRoundTrip and
--     X402/RoundTrip and Credential are proofs.
--   Cli: packages/cli/src/index.ts. RateLimiter is `createRateLimiter`, Gateway the server of
--     `startGateway`, with the types of packages/cli/src/bootstrap.ts. Redaction is
--     packages/cli/src/ops.ts. RateLimiter/Windows, Gateway/Metrics, Gateway/Forwarding, Redaction/Hidden
--     and Redaction/Unchanged are proofs.
--   Tests: concrete data, and the theorems applied to it.
--
-- Correspondence. A row of a table holds the record that its JSON text stands for. The SQLite
-- statements are functions on the tables; PRIMARY KEY, UNIQUE and FOREIGN KEY are tests, and a
-- statement that breaks one throws and changes nothing. A transaction is one step: the methods of the
-- store do not await. `toLowerCase` and `toUpperCase` are the ASCII mappings. Members that a schema
-- passes through are kept for credentials only.
--
-- Fuel: `parseAuthParams` loops on fuel one above the length of its input, which always suffices.
-- A wait polls on fuel two above its timeout in milliseconds, which suffices where each sleep lets at
-- least one millisecond pass. Quantities of a Fiber node are unsigned.
-- An x402 timeout is printed in decimal on fuel five, since the schema allows at most 86400.
--
-- Not modelled: SQLite's locks and I/O errors, the L402 header of a 402 response (`protect` is that of
-- a gateway without F-L402), backup and export of databases, the command line but for the
-- server of the gateway and the redaction of its logs, the evidence applications, the Rust crates.
pub mod Prelude
pub mod Tables
pub mod Sorting
pub mod Core
pub mod Storage
pub mod Middleware
pub mod FiberMethod
pub mod Client
pub mod F402
pub mod Fl402
pub mod X402
pub mod Cli
pub mod Tests
