-- ===== src/Cli/Gateway.antt =====
-- packages/cli/src/index.ts: the server of `startGateway`: what it does with a request before and after
-- the paid handler, and its metrics. The logs, and a readiness check or a platform call that throws, are
-- not modelled; a handler that throws is one with the status 500.
pub mod Metrics
pub mod Forwarding
use fiber_paid_http.Prelude.{
  ℕ, ◌+◌, Text, text, ◌==◌, Bool, true, false, ◌&&◌, ◌||◌, not, Option, none, some, List, [], ◌∷◌,
  ◌++◌, map, length, ltb, eqb, truthy, if◌then◌else◌,
}
use fiber_paid_http.Core.Resource.{upper}
use fiber_paid_http.Cli.RateLimiter.{RateLimit, RateLimiter, Verdict, limit_rate}

pub record CorsPolicy : Type 0 where
  pub allowed_origins : List Text
  pub allowed_headers : List Text
  pub allowed_methods : List Text
  pub expose_headers : List Text
  pub allow_credentials : Bool
  -- in decimal
  pub max_age_seconds : Option Text

pub record Operations : Type 0 where
  pub health_path : Text
  pub readiness_path : Text
  pub metrics_path : Text
  pub request_body_limit_bytes : ℕ
  pub rate_limit : RateLimit

-- What is read of a request of node:http.
pub record NodeRequest : Type 0 where
  pub method : Option Text
  pub pathname : Text
  pub origin : Option Text
  pub remote_address : Option Text
  pub chunks : List Text

-- `responses_by_status` has the statuses of the map with their counts.
pub record GatewayMetrics : Type 0 where
  pub requests_total : ℕ
  pub responses_by_status : List (ℕ × ℕ)
  pub readiness_checks : ℕ
  pub readiness_failures : ℕ
  pub rate_limit_rejections : ℕ

pub record ServerState : Type 0 where
  pub limiter : RateLimiter
  pub metrics : GatewayMetrics

-- What the paid handler is given, but for the URL and the headers: none is a request without a body.
pub record Forwarded : Type 0 where
  pub method : Text
  pub body : Option Text

pub data Answer : Type 0 where
  origin_refused : Answer
  healthy : Answer
  readiness : Bool → Answer
  metrics_text : Answer
  preflight : List (Text × Text) → Answer
  rate_limited : ℕ → Answer
  body_too_large : Answer
  handled : Forwarded → Answer

abbrev pub or_text : Option Text → Text → Text
or_text none fallback = fallback
or_text (some t) fallback = t

unfoldable pub includes : Text → List Text → Bool
includes t [] = false
includes t (s ∷ ss) = s == t || includes t ss

-- `names.join(", ")`
unfoldable pub join_commas : List Text → Text
join_commas [] = []
join_commas (s ∷ []) = s
join_commas (s ∷ t ∷ rest) = s ++ (b',' ∷ b' ' ∷ join_commas (t ∷ rest))

abbrev when_true : Bool → List (Text × Text) → List (Text × Text)
when_true true headers = headers
when_true false headers = []

abbrev max_age : Option Text → List (Text × Text)
max_age none = []
max_age (some seconds) = (text "access-control-max-age", seconds) ∷ []

unfoldable pub cors_headers : CorsPolicy → Option Text → Bool × List (Text × Text)
unfolding includes join_commas
cors_headers cors origin = elim (truthy origin) [
  | none ↦ (true, [])
  | some given ↦
      if not (includes given cors.allowed_origins)
      then (false, (text "vary", text "origin") ∷ [])
      else (
        true,
        (text "access-control-allow-origin", given)
            ∷ (text "access-control-allow-headers", join_commas cors.allowed_headers)
            ∷ (text "access-control-allow-methods", join_commas cors.allowed_methods)
            ∷ (text "access-control-expose-headers", join_commas cors.expose_headers)
            ∷ (text "vary", text "origin")
            ∷ (when_true cors.allow_credentials
                  ((text "access-control-allow-credentials", text "true") ∷ [])
                ++ max_age cors.max_age_seconds),
      )
]

unfoldable pub is_operations_path : Text → Operations → Bool
is_operations_path pathname operations =
    pathname == operations.health_path
    || pathname == operations.readiness_path
    || pathname == operations.metrics_path

-- The loop of `nodeRequestToWeb`; none is the error 413.
unfoldable pub read_body : ℕ → ℕ → Text → List Text → Option Text
read_body limit received kept [] = some kept
read_body limit received kept (buffer ∷ rest) =
    let more = read_body limit (received + length buffer) (kept ++ buffer) rest in
    if ltb limit (received + length buffer) then none else more

abbrev pub handled_body : Text → Option Text → Answer
handled_body method none = body_too_large
handled_body method (some body) = handled (record { method = method; body = some body })

unfoldable pub node_request_to_web : NodeRequest → ℕ → Answer
unfolding read_body
node_request_to_web request limit =
    let method = or_text request.method (text "GET") in
    if method == text "GET" || method == text "HEAD"
    then handled (record { method = method; body = none })
    else handled_body method (read_body limit 0 [] request.chunks)

module _ (cors : CorsPolicy) (operations : Operations) where
  abbrev pub is_method : NodeRequest → Text → Bool
  is_method request name = map upper (or_text request.method (text "GET")) == name

  -- The request where the limiter has answered with this verdict.
  unfoldable pub limited : NodeRequest → RateLimiter × Verdict → RateLimiter × Answer
  unfolding is_operations_path node_request_to_web
  limited request (limiter, verdict) = (
    limiter,
    if not (is_operations_path request.pathname operations) && not verdict.allowed
        then rate_limited verdict.retry_after_seconds
        else node_request_to_web request operations.request_body_limit_bytes,
  )

  -- `client` is `clientKey(req)`; the Bool is what the readiness check reports.
  unfoldable pub route_request : Bool → ℕ → NodeRequest → RateLimiter → RateLimiter × Answer
  unfolding upper cors_headers limit_rate limited
  route_request ready now request limiter =
      let get = is_method request (text "GET") in
      let client = or_text request.remote_address (text "unknown") in
      if not (cors_headers cors request.origin).0
      then (limiter, origin_refused)
      else (if get && request.pathname == operations.health_path
          then (limiter, healthy)
          else (if get && request.pathname == operations.readiness_path
              then (limiter, readiness ready)
              else (if get && request.pathname == operations.metrics_path
                  then (limiter, metrics_text)
                  else (if is_method request (text "OPTIONS")
                      then (limiter, preflight (cors_headers cors request.origin).1)
                      else limited request (limit_rate operations.rate_limit client now limiter)))))

  -- The status of an answer, where the paid handler returns one with this status.
  unfoldable pub status_of : ℕ → Answer → ℕ
  status_of handler_status origin_refused = 403
  status_of handler_status healthy = 200
  status_of handler_status (readiness ready) = if ready then 200 else 503
  status_of handler_status metrics_text = 200
  status_of handler_status (preflight headers) = 204
  status_of handler_status (rate_limited seconds) = 429
  status_of handler_status body_too_large = 413
  status_of handler_status (handled request) = handler_status

  -- `map.set(status, (map.get(status) ?? 0) + 1)`
  unfoldable pub count_status : ℕ → List (ℕ × ℕ) → List (ℕ × ℕ)
  count_status status [] = (status, 1) ∷ []
  count_status status ((s, n) ∷ rest) =
      let later = count_status status rest in
      if eqb s status then (s, n + 1) ∷ rest else (s, n) ∷ later

  abbrev pub readiness_checked : Answer → ℕ
  readiness_checked (readiness ready) = 1
  readiness_checked _ = 0

  abbrev pub readiness_failed : Answer → ℕ
  readiness_failed (readiness false) = 1
  readiness_failed _ = 0

  abbrev pub rejected : Answer → ℕ
  rejected (rate_limited seconds) = 1
  rejected _ = 0

  unfoldable pub count_answer : ℕ → Answer → GatewayMetrics → GatewayMetrics
  unfolding count_status
  count_answer status answer m = record {
    requests_total = m.requests_total + 1;
    responses_by_status = count_status status m.responses_by_status;
    readiness_checks = m.readiness_checks + readiness_checked answer;
    readiness_failures = m.readiness_failures + readiness_failed answer;
    rate_limit_rejections = m.rate_limit_rejections + rejected answer;
  }

  -- One request from its arrival to its response.
  unfoldable pub serve_request : Bool → ℕ → ℕ → NodeRequest → ServerState → ServerState × Answer
  unfolding route_request status_of count_answer
  serve_request ready handler_status now request state =
      let (limiter, answer) = route_request ready now request state.limiter in
      (
        record {
          limiter = limiter;
          metrics = count_answer (status_of handler_status answer) answer state.metrics;
        },
        answer,
      )
