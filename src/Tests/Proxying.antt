-- ===== src/Tests/Proxying.antt =====
-- A request and a response that the reverse proxy passes on.
use fiber_paid_http.Prelude.{
  ◌≡◌, refl, Text, text, ◌==◌, some, List, [], ◌∷◌, length, ltb, not, if◌then◌else◌, ok, err,
  plain_error,
}
use fiber_paid_http.Middleware.Proxy.Headers.{
  HeaderList, connection_tokens, strip_proxy_request_headers,
}
use fiber_paid_http.Middleware.Proxy.Body.{
  too_large, concatenated, read_response_body_with_limit, read_response_body_lem,
}
use fiber_paid_http.Middleware.Proxy.Stripped.{
  keep, all_tokens, stripped, strip_proxy_request_headers_lem,
}
use fiber_paid_http.Middleware.Proxy.{UpstreamResponse, ProxyResponse}

abbrev headers_1 : HeaderList
headers_1 =
    (text "accept", text "text/plain")
    ∷ (text "connection", text "x-trace, Close")
    ∷ (text "authorization", text "Payment e30")
    ∷ (text "x-trace", text "1")
    ∷ []

strip_proxy_request_headers_lem_example : strip_proxy_request_headers headers_1 ≡ (
    if all_tokens (connection_tokens headers_1)
    then ok (keep (λ key. not (stripped headers_1 key)) headers_1)
    else err (plain_error (text "TypeError")))
strip_proxy_request_headers_lem_example = strip_proxy_request_headers_lem headers_1

-- Only `accept` is left.
headers_1-left :
    strip_proxy_request_headers headers_1 ≡ ok ((text "accept", text "text/plain") ∷ [])
unfolding strip_proxy_request_headers text ◌==◌
headers_1-left = refl

abbrev chunks_1 : List Text
chunks_1 = text "one " ∷ text "two" ∷ []

read_response_body_lem_example : read_response_body_with_limit 1024 (some chunks_1) ≡ (
    if ltb 1024 (length (concatenated chunks_1)) then err too_large else ok (concatenated chunks_1))
read_response_body_lem_example = read_response_body_lem 1024 chunks_1

abbrev response_1 : UpstreamResponse
response_1 = record {
  status = 200;
  status_text = text "OK";
  headers =
      (text "content-type", text "text/plain")
      ∷ (text "content-length", text "7")
      ∷ (text "keep-alive", text "timeout=5")
      ∷ [];
  chunks = some chunks_1;
}

abbrev forwarded_1 : ProxyResponse
forwarded_1 = record {
  status = 200;
  status_text = text "OK";
  headers = (text "content-type", text "text/plain") ∷ [];
  body = some (text "one two");
}
