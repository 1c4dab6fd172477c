-- ===== src/Tests/Limiting.antt =====
-- The gateway's server on concrete requests.
use fiber_paid_http.Prelude.{
  ◌≡◌, ◌+◌, ◌-◌, refl, arith, text, ◌==◌, true, false, none, some, [], ◌∷◌,
}
use fiber_paid_http.Tables.{has}
use fiber_paid_http.Cli.RateLimiter.{RateLimit, RateLimiter, create_rate_limiter, limit_rate}
use fiber_paid_http.Cli.RateLimiter.Windows.{
  allowed_requests, number_of, at_most, limit_rate-window,
}
use fiber_paid_http.Cli.Gateway.{
  CorsPolicy, Operations, NodeRequest, ServerState, Forwarded, handled, or_text, route_request,
}
use fiber_paid_http.Cli.Gateway.Metrics.{Arrival, no_requests}
use fiber_paid_http.Cli.Gateway.Forwarding.{IsLetThrough, route_request-IsLetThrough}

abbrev policy_1 : RateLimit
policy_1 = record { window_ms = 1000; max_requests = 2 }

abbrev limiter_1 : RateLimiter
limiter_1 = create_rate_limiter policy_1 0

-- Of three requests of one client in a window of two, two are allowed.
limit_rate-window_example :
    allowed_requests policy_1
      (text "a")
      ((text "a", 10) ∷ (text "a", 20) ∷ (text "b", 30) ∷ (text "a", 900) ∷ [])
      limiter_1
    ≡ 1
      + at_most
          (2 - 1)
          (number_of (text "a") ((text "a", 20) ∷ (text "b", 30) ∷ (text "a", 900) ∷ []))
unfolding create_rate_limiter has
limit_rate-window_example =
    limit_rate-window policy_1 (text "a") limiter_1 refl 10
      ((text "a", 20) ∷ (text "b", 30) ∷ (text "a", 900) ∷ [])
      (omega arith, (omega arith, (omega arith, tt)))

abbrev cors_1 : CorsPolicy
cors_1 = record {
  allowed_origins = text "https://app.example" ∷ [];
  allowed_headers = text "authorization" ∷ [];
  allowed_methods = text "GET" ∷ [];
  expose_headers = [];
  allow_credentials = false;
  max_age_seconds = none;
}

abbrev operations_1 : Operations
operations_1 = record {
  health_path = text "/healthz";
  readiness_path = text "/readyz";
  metrics_path = text "/metrics";
  request_body_limit_bytes = 8;
  rate_limit = policy_1;
}

abbrev request_3 : NodeRequest
request_3 = record {
  method = some (text "POST");
  pathname = text "/report";
  origin = some (text "https://app.example");
  remote_address = some (text "a");
  chunks = text "ab" ∷ text "c" ∷ [];
}

abbrev forwarded_2 : Forwarded
forwarded_2 = record { method = text "POST"; body = some (text "abc") }

abbrev limiter_2 : RateLimiter
limiter_2 = (limit_rate policy_1 (text "a") 10 limiter_1).0

request_3-forwarded :
    route_request cors_1 operations_1 true 10 request_3 limiter_1 ≡ (limiter_2, handled forwarded_2)
unfolding route_request text ◌==◌ create_rate_limiter
request_3-forwarded = refl

route_request-IsLetThrough_example :
    IsLetThrough cors_1 operations_1 request_3
      (limit_rate policy_1 (or_text request_3.remote_address (text "unknown")) 10 limiter_1).1
      forwarded_2
route_request-IsLetThrough_example =
    route_request-IsLetThrough cors_1 operations_1 true 10 request_3 limiter_1 limiter_2 forwarded_2
      request_3-forwarded

abbrev state_1 : ServerState
state_1 = record { limiter = limiter_1; metrics = no_requests }

abbrev arrival_1 : Arrival
arrival_1 = record { ready = false; handler_status = 402; now = 10; request = request_3 }
