-- ===== src/Cli/Gateway/Metrics.antt =====
-- packages/cli/src/index.ts: the counts of the gateway's metrics agree.
use fiber_paid_http.Prelude.{ℕ, ◌+◌, ◌≤◌, ◌≡◌, Bool, List, [], ◌∷◌, eqb, if◌then◌else◌}
use fiber_paid_http.Cli.Gateway.{
  CorsPolicy, Operations, NodeRequest, GatewayMetrics, ServerState, Answer, readiness_checked,
  readiness_failed, rejected, status_of, serve_request,
}

unfoldable pub total_count : List (ℕ × ℕ) → ℕ
total_count [] = 0
total_count ((status, n) ∷ rest) = n + total_count rest

-- The responses with a status.
unfoldable pub count_at : ℕ → List (ℕ × ℕ) → ℕ
count_at status [] = 0
count_at status ((s, n) ∷ rest) = (if eqb s status then n else 0) + count_at status rest

pub record IsCounted (m : GatewayMetrics) : Type 0 where
  pub every_response : total_count m.responses_by_status ≡ m.requests_total
  pub rejections : m.rate_limit_rejections ≤ count_at 429 m.responses_by_status
  pub failures : m.readiness_failures ≤ count_at 503 m.responses_by_status
  pub checks : m.readiness_failures ≤ m.readiness_checks

-- A request with what the readiness check and the paid handler answer, and its time.
pub record Arrival : Type 0 where
  pub ready : Bool
  pub handler_status : ℕ
  pub now : ℕ
  pub request : NodeRequest

abbrev pub no_requests : GatewayMetrics
no_requests = record {
  requests_total = 0;
  responses_by_status = [];
  readiness_checks = 0;
  readiness_failures = 0;
  rate_limit_rejections = 0;
}

module _ (cors : CorsPolicy) (operations : Operations) where
  record IsWeighed (handler_status : ℕ) (answer : Answer) : Type 0 where
    as_429 :
        rejected cors operations answer
        ≤ (if eqb (status_of cors operations handler_status answer) 429 then 1 else 0)
    as_503 :
        readiness_failed cors operations answer
        ≤ (if eqb (status_of cors operations handler_status answer) 503 then 1 else 0)
    as_check : readiness_failed cors operations answer ≤ readiness_checked cors operations answer

  -- The state after requests that arrive one after the other.
  unfoldable pub serve_requests : List Arrival → ServerState → ServerState
  unfolding serve_request
  serve_requests [] state = state
  serve_requests (a ∷ arrivals) state =
      serve_requests arrivals
        (serve_request cors operations a.ready a.handler_status a.now a.request state).0
