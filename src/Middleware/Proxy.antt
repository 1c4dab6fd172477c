-- ===== src/Middleware/Proxy.antt =====
-- packages/server-middleware/src/index.ts: `createReverseProxyHandler`. A body that streams is the list
-- of its chunks; the upstream server's answer is an argument.
pub mod Headers
pub mod Body
pub mod Stripped
pub mod Response
use fiber_paid_http.Prelude.{
  ℕ, ◌+◌, ◌*◌, ◌-◌, ◌^◌, Text, text, ◌==◌, Bool, true, false, ◌&&◌, ◌||◌, not, Option, none, some,
  List, [], ◌∷◌, ltb, eqb, is_empty, if◌then◌else◌, Result, ok, err, plain_error, fail_with, ensure,
  ◌>>=◌, ◌>>◌,
}
use fiber_paid_http.Core.Runtime.{Runtime}
use fiber_paid_http.Core.Schemas.{is_digit}
use fiber_paid_http.Core.Http.AuthParams.{is_space, drop_while}
use fiber_paid_http.Middleware.Config.{BaseUrl}
use fiber_paid_http.Middleware.Proxy.Headers.{
  HeaderList, get_header, delete_header, strip_hop_by_hop_headers, strip_proxy_request_headers,
}
use fiber_paid_http.Middleware.Proxy.Body.{read_response_body_with_limit, too_large}

pub record ReverseProxyConfig : Type 0 where
  pub upstream : BaseUrl
  pub upstream_timeout_ms : Option ℕ
  pub upstream_response_limit_bytes : Option ℕ

pub record ProxyRequest : Type 0 where
  pub method : Text
  pub url : Text
  pub headers : HeaderList
  pub body : Text

-- What is sent upstream: no body where it is none.
pub record UpstreamRequest : Type 0 where
  pub method : Text
  pub url : Text
  pub headers : HeaderList
  pub body : Option Text

-- `chunks` is none where the response has no body.
pub record UpstreamResponse : Type 0 where
  pub status : ℕ
  pub status_text : Text
  pub headers : HeaderList
  pub chunks : Option (List Text)

pub record ProxyResponse : Type 0 where
  pub status : ℕ
  pub status_text : Text
  pub headers : HeaderList
  pub body : Option Text

abbrev pub or_default : Option ℕ → ℕ → ℕ
or_default none d = d
or_default (some n) d = n

-- The checks before the handler is made; the limit that it works with.
unfoldable pub check_proxy_config : ReverseProxyConfig → Result ℕ
check_proxy_config c = do
  let timeout = or_default c.upstream_timeout_ms 30000
  let limit = or_default c.upstream_response_limit_bytes 8388608
  ensure (ltb 0 timeout) (plain_error (text "Fiber Paid HTTP upstream timeout must be positive"))
  ensure (not (ltb limit 1024) && ltb limit 9007199254740992)
      (plain_error (text "Fiber Paid HTTP upstream response limit must be at least 1024 bytes"))
  ensure
      ((c.upstream.protocol == text "http:" || c.upstream.protocol == text "https:")
        && is_empty c.upstream.username
        && is_empty c.upstream.password
        && c.upstream.pathname == text "/"
        && is_empty c.upstream.search
        && is_empty c.upstream.hash)
      (plain_error (
        text
          "Fiber Paid HTTP upstream must be an HTTP(S) origin without credentials, path, query, or fragment"))
  ok limit

abbrev has_body : Text → Bool
has_body method = not (method == text "GET" || method == text "HEAD")

module _ (rt : Runtime) (upstream : Text) where
  -- From the request to the call of `fetchImpl`.
  unfoldable pub upstream_request : ProxyRequest → Result UpstreamRequest
  unfolding strip_proxy_request_headers
  upstream_request request = do
    headers ← strip_proxy_request_headers request.headers
    ok (record {
      method = request.method;
      url = rt.resolve_url (rt.path_and_search request.url) upstream;
      headers = headers;
      body = if has_body request.method then some request.body else none;
    })

-- `Number.parseInt(text, 10)` where that is a finite natural number; any other is not above a limit. A
-- number that rounds to 2 ^ 1024 is infinite.
unfoldable pub number_of : ℕ → Text → ℕ
number_of seen [] = seen
number_of seen (c ∷ s) =
    let more = number_of (seen * 10 + (c - b'0')) s in if is_digit c then more else seen

abbrev finite : ℕ → Option ℕ
finite n = if ltb n (2 ^ 1024 - 2 ^ 970) then some n else none

abbrev pub digits_number : Text → Option ℕ
digits_number [] = none
digits_number (c ∷ s) = if is_digit c then finite (number_of 0 (c ∷ s)) else none

abbrev without_plus : Text → Text
without_plus [] = []
without_plus (c ∷ s) = if eqb c b'+' then s else c ∷ s

unfoldable pub parse_int : Text → Option ℕ
unfolding number_of drop_while is_space
parse_int s = digits_number (without_plus (drop_while is_space s))

abbrev pub or_empty : Option Text → Text
or_empty none = []
or_empty (some s) = s

abbrev pub is_within : Option ℕ → ℕ → Bool
is_within none limit = true
is_within (some n) limit = not (ltb limit n)

-- From the answer of `fetchImpl` to the response.
unfoldable pub proxy_response : ℕ → Text → UpstreamResponse → Result ProxyResponse
unfolding get_header parse_int read_response_body_with_limit strip_hop_by_hop_headers delete_header
proxy_response limit method response = do
  ensure
      (is_within (parse_int (or_empty (get_header (text "content-length") response.headers))) limit)
      too_large
  bytes ← read_response_body_with_limit limit response.chunks
  stripped ← strip_hop_by_hop_headers response.headers
  headers ← delete_header (text "content-length") stripped
  ok (record {
    status = response.status;
    status_text = response.status_text;
    headers = headers;
    body =
        if method == text "HEAD" || eqb response.status 204 || eqb response.status 304
        then none
        else some bytes;
  })
