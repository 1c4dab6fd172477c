-- ===== src/Middleware/Proxy/Response.antt =====
-- packages/server-middleware/src/index.ts: what the reverse proxy answers.
use fiber_paid_http.Prelude.{
  ℕ, ◌≤◌, ◌≡◌, Text, text, ◌==◌, Bool, ◌&&◌, ◌||◌, not, Option, none, some, List, [], length, eqb,
  if◌then◌else◌,
}
use fiber_paid_http.Middleware.Proxy.Headers.{HeaderList, connection_tokens, hop_by_hop_headers}
use fiber_paid_http.Middleware.Proxy.Body.{concatenated}
use fiber_paid_http.Middleware.Proxy.Stripped.{keep, among}
use fiber_paid_http.Middleware.Proxy.{UpstreamResponse, ProxyResponse}

-- The bytes of a body, empty where there is none.
unfoldable pub bytes_of : Option (List Text) → Text
unfolding concatenated
bytes_of none = []
bytes_of (some chunks) = concatenated chunks

-- Which headers of a response are passed on.
unfoldable pub passes_back : HeaderList → Text → Bool
unfolding among connection_tokens
passes_back headers key =
    not (among key (connection_tokens headers) || among key hop_by_hop_headers)
    && not (text "content-length" == key)

abbrev pub has_no_body : Text → ℕ → Bool
has_no_body method status = method == text "HEAD" || eqb status 204 || eqb status 304

-- What is known of a response that the proxy makes of the upstream server's.
pub record IsForwarded (limit : ℕ) (method : Text) (response : UpstreamResponse)
    (out : ProxyResponse) : Type 0 where
  pub same_status : out.status ≡ response.status
  pub same_body :
      out.body
      ≡ (if has_no_body method response.status then none else some (bytes_of response.chunks))
  pub within_limit : length (bytes_of response.chunks) ≤ limit
  pub kept_headers : out.headers ≡ keep (passes_back response.headers) response.headers

-- The response for a body and headers.
abbrev made : Text → UpstreamResponse → Text → HeaderList → ProxyResponse
made method response bytes headers = record {
  status = response.status;
  status_text = response.status_text;
  headers = headers;
  body = if has_no_body method response.status then none else some bytes;
}
