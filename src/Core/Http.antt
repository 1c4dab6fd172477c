-- ===== src/Core/Http.antt =====
-- packages/core/src/http.ts: the Payment scheme's headers.
pub mod AuthParams
pub mod Scanning
pub mod ParamsRoundTrip
pub mod Challenge
pub mod FreshNames
pub mod ChallengeRoundTrip
pub mod Authorization
