-- ===== src/Middleware/Proxy/Headers.antt =====
-- packages/server-middleware/src/index.ts: `stripProxyRequestHeaders` and `stripHopByHopHeaders`, on
-- the headers of Fetch: pairs of a name in lower case and a value.
use fiber_paid_http.Prelude.{
  ℕ, Text, text, ◌==◌, Bool, ◌&&◌, ◌||◌, not, Option, none, some, List, [], ◌∷◌, ◌++◌, eqb, lower,
  to_lower, is_empty, if◌then◌else◌, Result, ok, err, plain_error, ◌>>=◌,
}
use fiber_paid_http.Core.Schemas.{all, between, is_digit, is_lower_alpha, is_upper_alpha}
use fiber_paid_http.Core.Http.Authorization.{trim}

abbrev pub HeaderList : Type 0
HeaderList = List (Text × Text)

-- The values of a name, in their order.
unfoldable pub values : Text → HeaderList → List Text
values name [] = []
values name ((key, value) ∷ rest) =
    let later = values name rest in if key == name then value ∷ later else later

abbrev pub combined : List Text → Option Text
combined [] = none
combined (v ∷ vs) = elim (combined vs) [
  | none ↦ some v
  | some later ↦ some (v ++ (b',' ∷ b' ' ∷ later))
]

-- `headers.get(name)` for a name in lower case
unfoldable pub get_header : Text → HeaderList → Option Text
unfolding values
get_header name headers = combined (values name headers)

-- The names that Fetch allows: the tokens of HTTP.
unfoldable pub is_token_char : ℕ → Bool
is_token_char c =
    is_lower_alpha c
    || is_upper_alpha c
    || is_digit c
    || eqb c b'!'
    || between b'#' 39 c
    || eqb c b'*'
    || eqb c b'+'
    || eqb c b'-'
    || eqb c b'.'
    || between b'^' b'`' c
    || eqb c b'|'
    || eqb c b'~'

unfoldable pub is_token : Text → Bool
unfolding is_token_char
is_token name = not (is_empty name) && all is_token_char name

unfoldable pub without : Text → HeaderList → HeaderList
without name [] = []
without name ((key, value) ∷ rest) =
    let later = without name rest in if key == name then later else (key, value) ∷ later

-- `headers.delete(name)`, which throws on a name that is no token
unfoldable pub delete_header : Text → HeaderList → Result HeaderList
unfolding is_token without
delete_header name headers =
    if is_token name
    then ok (without (lower name) headers)
    else err (plain_error (text "TypeError"))

unfoldable pub delete_headers : List Text → HeaderList → Result HeaderList
unfolding delete_header
delete_headers [] headers = ok headers
delete_headers (name ∷ names) headers =
    delete_header name headers >>= λ rest. delete_headers names rest

-- `split(",")`
unfoldable pub split_commas : Text → List Text
split_commas [] = [] ∷ []
split_commas (c ∷ s) =
    let rest = split_commas s in
    if eqb c b',' then [] ∷ rest else elim rest [ [] ↦ (c ∷ []) ∷ [] | (t ∷ ts) ↦ (c ∷ t) ∷ ts ]

-- `.map((name) => name.trim().toLowerCase()).filter(Boolean)`
unfoldable pub token_names : List Text → List Text
unfolding trim to_lower
token_names [] = []
token_names (name ∷ names) =
    let later = token_names names in
    let token = lower (trim name) in if is_empty token then later else token ∷ later

abbrev or_empty : Option Text → Text
or_empty none = []
or_empty (some s) = s

unfoldable pub connection_tokens : HeaderList → List Text
unfolding get_header split_commas token_names
connection_tokens headers =
    token_names (split_commas (or_empty (get_header (text "connection") headers)))

abbrev pub hop_by_hop_headers : List Text
hop_by_hop_headers =
    text "connection"
    ∷ text "keep-alive"
    ∷ text "proxy-authenticate"
    ∷ text "proxy-authorization"
    ∷ text "proxy-connection"
    ∷ text "te"
    ∷ text "trailer"
    ∷ text "transfer-encoding"
    ∷ text "upgrade"
    ∷ []

unfoldable pub strip_hop_by_hop_headers : HeaderList → Result HeaderList
unfolding connection_tokens delete_headers
strip_hop_by_hop_headers headers = delete_headers (connection_tokens headers) headers >>= λ rest.
    delete_headers hop_by_hop_headers rest

abbrev pub request_headers : List Text
request_headers =
    text "authorization" ∷ text "host" ∷ text "content-length" ∷ text "Payment-Receipt" ∷ []

unfoldable pub strip_proxy_request_headers : HeaderList → Result HeaderList
unfolding delete_headers strip_hop_by_hop_headers
strip_proxy_request_headers headers =
    delete_headers request_headers headers >>= λ rest. strip_hop_by_hop_headers rest
