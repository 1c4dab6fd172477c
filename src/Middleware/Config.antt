-- ===== src/Middleware/Config.antt =====
-- packages/server-middleware/src/index.ts: the configuration and its checks. `fl402` is absent.
use fiber_paid_http.Prelude.{
  ℕ, Text, text, ◌==◌, Bool, true, ◌&&◌, ◌||◌, not, Option, none, some, List, [], ◌∷◌, length, ltb,
  is_empty, Result, ok, err, plain_error, ensure, ◌>>=◌, ◌>>◌,
}
use fiber_paid_http.Core.Types.{FiberUdtTypeScript}
use fiber_paid_http.Core.Schemas.{is_positive_decimal}
use fiber_paid_http.Core.Http.Authorization.{trim}

pub record FiberChargeConfig : Type 0 where
  pub amount : Text
  pub currency : Option Text
  pub description : Option Text
  pub external_id : Option Text
  pub udt_type_script : Option FiberUdtTypeScript

-- `ttlSeconds` is a number that is a safe integer; any other is refused before it is used.
pub record PaidRouteConfig : Type 0 where
  pub charge : FiberChargeConfig
  pub ttl_seconds : Option ℕ

-- The parsed parts of `new URL(publicBaseUrl)` that are checked; `origin` is its text without the
-- final slash.
pub record BaseUrl : Type 0 where
  pub protocol : Text
  pub hostname : Text
  pub username : Text
  pub password : Text
  pub pathname : Text
  pub search : Text
  pub hash : Text
  pub origin : Text

pub record MiddlewareConfig : Type 0 where
  pub secret : Text
  pub previous_secrets : List Text
  pub realm : Text
  pub server_id : Text
  pub public_base_url : Option BaseUrl
  pub allow_insecure_http : Bool
  pub durable_store : Bool
  pub challenge_ttl_seconds : ℕ
  pub clock_skew_seconds : ℕ

pub is_loopback : BaseUrl → Bool
is_loopback url =
    url.hostname == text "localhost"
    || url.hostname == text "127.0.0.1"
    || url.hostname == text "[::1]"

-- `validatePublicBaseUrl`; none is a text that `new URL` refuses
unfoldable pub validate_public_base_url : Option BaseUrl → Bool → Result Text
unfolding is_loopback
validate_public_base_url none allow_insecure_http =
    err (plain_error (text "Fiber Paid HTTP middleware requires an absolute publicBaseUrl"))
validate_public_base_url (some url) allow_insecure_http = do
  ensure
      (url.protocol == text "https:"
        || (allow_insecure_http && url.protocol == text "http:" && is_loopback url))
      (plain_error (text "Fiber Paid HTTP middleware requires HTTPS"))
  ensure
      (is_empty url.username
        && is_empty url.password
        && url.pathname == text "/"
        && is_empty url.search
        && is_empty url.hash)
      (plain_error (text "Fiber Paid HTTP publicBaseUrl must be an origin"))
  ok url.origin

abbrev is_secret : Text → Bool
is_secret secret = not (ltb (length secret) 32)

unfoldable pub all_secrets : List Text → Bool
all_secrets [] = true
all_secrets (s ∷ secrets) = is_secret s && all_secrets secrets

-- What `createFiberPaidHttpMiddleware` computes before it serves requests.
pub record Gateway : Type 0 where
  pub realm : Text
  pub server_id : Text
  pub secret : Text
  pub verification_secrets : List Text
  pub public_base_url : Text
  pub challenge_ttl_seconds : ℕ
  pub clock_skew_seconds : ℕ

unfoldable pub create_middleware : MiddlewareConfig → Result Gateway
unfolding validate_public_base_url all_secrets trim
create_middleware c = do
  ensure (is_secret c.secret)
      (plain_error (text "Fiber Paid HTTP middleware requires a secret of at least 32 characters"))
  ensure (not (is_empty (trim c.realm)))
      (plain_error (text "Fiber Paid HTTP middleware requires an MPP realm"))
  ensure (not (is_empty (trim c.server_id)))
      (plain_error (text "Fiber Paid HTTP middleware requires a serverId"))
  public_base_url ← validate_public_base_url c.public_base_url c.allow_insecure_http
  ensure (all_secrets c.previous_secrets) (
      plain_error
        (text "Fiber Paid HTTP middleware previous secrets must be at least 32 characters"))
  ensure c.durable_store (plain_error (text "Durable Fiber Paid HTTP storage is required."))
  ensure (ltb 0 c.challenge_ttl_seconds)
      (plain_error (text "Fiber Paid HTTP challenge TTL must be positive"))
  ok (record {
    realm = c.realm;
    server_id = c.server_id;
    secret = c.secret;
    verification_secrets = c.secret ∷ c.previous_secrets;
    public_base_url = public_base_url;
    challenge_ttl_seconds = c.challenge_ttl_seconds;
    clock_skew_seconds = c.clock_skew_seconds;
  })

abbrev currency_ok : Option Text → Bool
currency_ok none = true
currency_ok (some currency) = not (is_empty (trim currency))

abbrev ttl_ok : Option ℕ → Bool
ttl_ok none = true
ttl_ok (some ttl) = ltb 0 ttl && ltb ttl 9007199254740992

unfoldable pub validate_paid_route : PaidRouteConfig → Result (Unit {0})
validate_paid_route route = do
  ensure (is_positive_decimal route.charge.amount)
      (plain_error (text "Fiber Paid HTTP route amount must be a positive decimal integer"))
  ensure (currency_ok route.charge.currency)
      (plain_error (text "Fiber Paid HTTP route currency must not be empty"))
  ensure (ttl_ok route.ttl_seconds)
      (plain_error (text "Fiber Paid HTTP route TTL must be a positive integer"))
