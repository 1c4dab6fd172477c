-- ===== src/Cli/Gateway/Forwarding.antt =====
-- packages/cli/src/index.ts: which requests reach the paid handler.
use fiber_paid_http.Prelude.{
  ℕ, ◌+◌, ◌≤◌, ◌≡◌, refl, sym, ap, subst, arith, Text, text, ◌==◌, Bool, true, false, ◌&&◌, ◌||◌,
  not, Option, none, some, List, [], ◌∷◌, ◌++◌, length, length-append, ltb, Bool-cases, inl, inr,
}
use fiber_paid_http.Cli.RateLimiter.{RateLimiter, Verdict, limit_rate}
use fiber_paid_http.Cli.Gateway.{
  CorsPolicy, Operations, NodeRequest, Forwarded, origin_refused, healthy, readiness, metrics_text,
  preflight, rate_limited, handled, or_text, handled_body, is_method, cors_headers,
  is_operations_path, read_body, node_request_to_web, limited, route_request,
}

read_body_lem :
    (limit received : ℕ) (kept : Text) (chunks : List Text) (body : Text)
    → received ≡ length kept
    → received ≤ limit
    → read_body limit received kept chunks ≡ some body
    → length body ≤ limit
unfolding read_body
read_body_lem limit received kept [] body e small h =
    let same : kept ≡ body = cc in subst (λ b. length b ≤ limit) same (omega arith)
read_body_lem limit received kept (buffer ∷ rest) body e small h =
    elim (Bool-cases (ltb limit (received + length buffer))) [
      | inl over ↦ let bad : none ≡ some body = rw over at h in absurd cc
      | inr under ↦
          read_body_lem limit (received + length buffer) (kept ++ buffer) rest body
            (omega (arith, length-append kept buffer)) (ground arith) (rw under at h)
    ]

abbrev pub bytes_of : Option Text → Text
bytes_of none = []
bytes_of (some body) = body

body_read :
    (limit : ℕ) (method : Text) (chunks : List Text) (o : Option Text) (f : Forwarded)
    → read_body limit 0 [] chunks ≡ o
    → handled_body method o ≡ handled f
    → length (bytes_of f.body) ≤ limit
body_read limit method chunks none f e h = absurd cc
body_read limit method chunks (some body) f e h =
    let same : f ≡ record { method = method; body = some body } = cc in
    subst (λ b. length (bytes_of b) ≤ limit) (sym (ap (λ x. x.body) same))
      (read_body_lem limit 0 [] chunks body refl (omega arith) e)

body_bounded :
    (request : NodeRequest) (limit : ℕ) (f : Forwarded)
    → node_request_to_web request limit ≡ handled f
    → length (bytes_of f.body) ≤ limit
unfolding node_request_to_web
body_bounded request limit f h =
    let method = or_text request.method (text "GET") in
    elim (Bool-cases (method == text "GET" || method == text "HEAD")) [
      | inl bare ↦
          let plain : handled (record { method = method; body = none }) ≡ handled f =
            rw bare at h in
          let same : f ≡ record { method = method; body = none } = cc in
          subst (λ b. length (bytes_of b) ≤ limit) (sym (ap (λ x. x.body) same)) (omega arith)
      | inr with_body ↦
          body_read limit method request.chunks (read_body limit 0 [] request.chunks) f refl
            (rw with_body at h)
    ]

module _ (cors : CorsPolicy) (operations : Operations) where
  -- What is known of a request that reaches the paid handler.
  pub record IsLetThrough (request : NodeRequest) (verdict : Verdict) (f : Forwarded) : Type 0 where
    pub origin_allowed : (cors_headers cors request.origin).0 ≡ true
    pub no_preflight : is_method cors operations request (text "OPTIONS") ≡ false
    pub within_rate : (is_operations_path request.pathname operations || verdict.allowed) ≡ true
    pub within_limit : length (bytes_of f.body) ≤ operations.request_body_limit_bytes

  limited_lem :
      (request : NodeRequest) (step : RateLimiter × Verdict) (limiter : RateLimiter) (f : Forwarded)
      → limited cors operations request step ≡ (limiter, handled f)
      → ((is_operations_path request.pathname operations || step.1.allowed) ≡ true)
        × (length (bytes_of f.body) ≤ operations.request_body_limit_bytes)
  unfolding limited
  limited_lem request step limiter f h =
      let answered = ap (λ p. p.1) h in
      let blocked = not (is_operations_path request.pathname operations) && not step.1.allowed in
      elim (Bool-cases blocked) [
        | inl stop ↦
            let refused : rate_limited step.1.retry_after_seconds ≡ handled f =
              rw stop at answered in
            absurd cc
        | inr go ↦ (
          ground arith,
          body_bounded request operations.request_body_limit_bytes f (rw go at answered),
        )
      ]

  -- A request reaches the paid handler only if its origin is allowed, its method in upper case is not
  -- OPTIONS, the rate limiter allows it or its path is one of the server's own, and its body is within the
  -- limit.
  pub route_request-IsLetThrough :
      (ready : Bool) (now : ℕ) (request : NodeRequest) (limiter next : RateLimiter) (f : Forwarded)
      → route_request cors operations ready now request limiter ≡ (next, handled f)
      → IsLetThrough request
          (limit_rate operations.rate_limit
            (or_text request.remote_address (text "unknown"))
            now
            limiter).1
          f
  unfolding route_request
  route_request-IsLetThrough ready now request limiter next f h =
      let get = is_method cors operations request (text "GET") in
      elim (Bool-cases (cors_headers cors request.origin).0) [
        | inr refused ↦
            let bad : origin_refused ≡ handled f = ap (λ p. p.1) (rw refused at h) in absurd cc
        | inl origin ↦ elim (Bool-cases (get && request.pathname == operations.health_path)) [
          | inl hit ↦
              let bad : healthy ≡ handled f = ap (λ p. p.1) (rw (origin, hit) at h) in absurd cc
          | inr no_health ↦
              elim (Bool-cases (get && request.pathname == operations.readiness_path)) [
                | inl hit ↦
                    let bad : readiness ready ≡ handled f =
                      ap (λ p. p.1) (rw (origin, no_health, hit) at h) in
                    absurd cc
                | inr no_ready ↦
                    elim (Bool-cases (get && request.pathname == operations.metrics_path)) [
                      | inl hit ↦
                          let bad : metrics_text ≡ handled f =
                            ap (λ p. p.1) (rw (origin, no_health, no_ready, hit) at h) in
                          absurd cc
                      | inr no_metrics ↦
                          elim (Bool-cases (is_method cors operations request (text "OPTIONS"))) [
                            | inl hit ↦
                                let bad : preflight (cors_headers cors request.origin).1
                                    ≡ handled f =
                                  ap (λ p. p.1)
                                    (rw (origin, no_health, no_ready, no_metrics, hit) at h) in
                                absurd cc
                            | inr no_options ↦
                                let passed =
                                  limited_lem request
                                    (limit_rate operations.rate_limit
                                      (or_text request.remote_address (text "unknown")) now limiter)
                                    next f
                                    (rw (origin, no_health, no_ready, no_metrics, no_options) at
                                      h) in
                                record {
                                  origin_allowed = origin;
                                  no_preflight = no_options;
                                  within_rate = passed.0;
                                  within_limit = passed.1;
                                }
                          ]
                    ]
              ]
        ]
      ]
