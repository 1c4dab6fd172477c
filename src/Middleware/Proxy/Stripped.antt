-- ===== src/Middleware/Proxy/Stripped.antt =====
-- packages/server-middleware/src/index.ts: which headers the reverse proxy passes on.
use fiber_paid_http.Prelude.{
  ◌≡◌, refl, sym, ap, ◌∙◌, arith, Text, text, ◌==◌, ==_iff, ==_sym, Bool, true, false, ◌&&◌, ◌||◌,
  not, List, [], ◌∷◌, ◌++◌, lower, to_lower, if◌then◌else◌, Bool-cases, inl, inr, Result, ok, err,
  plain_error,
}
use fiber_paid_http.Middleware.Proxy.Headers.{
  HeaderList, values, get_header, is_token, is_token_char, without, delete_header, delete_headers,
  connection_tokens, hop_by_hop_headers, strip_hop_by_hop_headers, request_headers,
  strip_proxy_request_headers,
}

-- The headers whose name passes a test.
unfoldable pub keep : (Text → Bool) → HeaderList → HeaderList
keep p [] = []
keep p ((key, value) ∷ rest) =
    let later = keep p rest in if p key then (key, value) ∷ later else later

-- Is a name in lower case among names in any case?
unfoldable pub among : Text → List Text → Bool
among key [] = false
among key (name ∷ names) = lower name == key || among key names

unfoldable pub all_tokens : List Text → Bool
all_tokens [] = true
all_tokens (name ∷ names) = is_token name && all_tokens names

pub keep_same :
    (p q : Text → Bool) (h : HeaderList) → ((key : Text) → p key ≡ q key) → keep p h ≡ keep q h
unfolding keep
keep_same p q [] e = refl
keep_same p q ((key, value) ∷ rest) e = rw (e key, keep_same p q rest e) refl

keep_all : (h : HeaderList) → keep (λ key. true) h ≡ h
unfolding keep
keep_all [] = refl
keep_all ((key, value) ∷ rest) = ap (λ t. (key, value) ∷ t) (keep_all rest)

pub keep-keep :
    (p q : Text → Bool) (h : HeaderList) → keep p (keep q h) ≡ keep (λ key. q key && p key) h
unfolding keep
keep-keep p q [] = refl
keep-keep p q ((key, value) ∷ rest) = elim (Bool-cases (q key)) [
  | inl hit ↦ rw (hit, keep-keep p q rest) refl
  | inr miss ↦ rw (miss, keep-keep p q rest) refl
]

pub without-keep :
    (name : Text) (h : HeaderList) → without name h ≡ keep (λ key. not (name == key)) h
unfolding keep without
without-keep name [] = refl
without-keep name ((key, value) ∷ rest) =
    let swap = ==_sym key name in
    elim (Bool-cases (name == key)) [
      | inl hit ↦ rw (swap, hit, without-keep name rest) refl
      | inr miss ↦ rw (swap, miss, without-keep name rest) refl
    ]

values-keep :
    (name : Text) (p : Text → Bool) (h : HeaderList)
    → p name ≡ true
    → values name (keep p h) ≡ values name h
unfolding keep values
values-keep name p [] e = refl
values-keep name p ((key, value) ∷ rest) e =
    let same = ==_iff key name in
    let later = values-keep name p rest e in
    elim (Bool-cases (key == name)) [
      | inl hit ↦ let kept = ap p (same.0 hit) ∙ e in rw (kept, hit, later) refl
      | inr miss ↦ elim (Bool-cases (p key)) [
        | inl stays ↦ rw (stays, miss, later) refl
        | inr goes ↦ rw (goes, miss, later) refl
      ]
    ]

or_assoc : (a b c : Bool) → (a || (b || c)) ≡ ((a || b) || c)
or_assoc a b c = ground arith

or_swap : (a b c : Bool) → (a || (b || c)) ≡ ((a || c) || b)
or_swap a b c = ground arith

pub not_or : (a b : Bool) → (not a && not b) ≡ not (a || b)
not_or a b = ground arith

abbrev pub type_error : Result HeaderList
type_error = err (plain_error (text "TypeError"))

-- What deleting several names comes to.
pub delete_headers_lem :
    (names : List Text) (h : HeaderList)
    → delete_headers names h
      ≡ (if all_tokens names then ok (keep (λ key. not (among key names)) h) else type_error)
unfolding delete_headers delete_header all_tokens among
delete_headers_lem [] h = ap ok (sym (keep_all h))
delete_headers_lem (name ∷ names) h = elim (Bool-cases (is_token name)) [
  | inr bad ↦ rw bad refl
  | inl good ↦
      let once = without-keep (lower name) h in
      let twice = keep-keep (λ key. not (among key names)) (λ key. not (lower name == key)) h in
      let merge : (key : Text)
          → (not (lower name == key) && not (among key names))
            ≡ not (lower name == key || among key names) =
        λ key. not_or (lower name == key) (among key names) in
      rw good (
        delete_headers_lem names (without (lower name) h)
        ∙ rw (once, twice, keep_same _ _ h merge) refl)
]

-- The names that are never passed on: those of the gateway's own exchange and those of one hop.
abbrev pub fixed_names : List Text
fixed_names =
    text "authorization"
    ∷ text "host"
    ∷ text "content-length"
    ∷ text "payment-receipt"
    ∷ text "connection"
    ∷ text "keep-alive"
    ∷ text "proxy-authenticate"
    ∷ text "proxy-authorization"
    ∷ text "proxy-connection"
    ∷ text "te"
    ∷ text "trailer"
    ∷ text "transfer-encoding"
    ∷ text "upgrade"
    ∷ []

-- A request header is stripped if its name is one of these or `Connection` lists it.
unfoldable pub stripped : HeaderList → Text → Bool
unfolding among connection_tokens
stripped headers key = among key fixed_names || among key (connection_tokens headers)

among-append :
    (key : Text) (names more : List Text)
    → among key (names ++ more) ≡ (among key names || among key more)
unfolding among
among-append key [] more = refl
among-append key (name ∷ names) more =
    rw (among-append key names more)
      (or_assoc (lower name == key) (among key names) (among key more))

fixed_lem : (key : Text) → among key (request_headers ++ hop_by_hop_headers) ≡ among key fixed_names
unfolding among text to_lower
fixed_lem key = refl

stripped_lem :
    (headers : HeaderList) (key : Text)
    → (among key request_headers
        || (among key (connection_tokens headers) || among key hop_by_hop_headers))
      ≡ stripped headers key
unfolding stripped
stripped_lem headers key =
    or_swap (among key request_headers) (among key (connection_tokens headers))
      (among key hop_by_hop_headers)
    ∙ ap (λ b. b || among key (connection_tokens headers))
        (sym (among-append key request_headers hop_by_hop_headers) ∙ fixed_lem key)

connection_tokens-keep :
    (p : Text → Bool) (h : HeaderList)
    → p (text "connection") ≡ true
    → connection_tokens (keep p h) ≡ connection_tokens h
unfolding connection_tokens get_header
connection_tokens-keep p h e = rw (values-keep (text "connection") p h e) refl

hop_names_tokens : all_tokens hop_by_hop_headers ≡ true
unfolding all_tokens is_token is_token_char text
hop_names_tokens = refl

request_names_tokens : all_tokens request_headers ≡ true
unfolding all_tokens is_token is_token_char text
request_names_tokens = refl

connection_stays : not (among (text "connection") request_headers) ≡ true
unfolding among text ◌==◌ to_lower
connection_stays = refl

pub hop_lem :
    (h : HeaderList)
    → strip_hop_by_hop_headers h ≡ (
        if all_tokens (connection_tokens h)
        then ok
            (keep (λ key. not (among key (connection_tokens h) || among key hop_by_hop_headers)) h)
        else type_error)
unfolding strip_hop_by_hop_headers
hop_lem h = elim (Bool-cases (all_tokens (connection_tokens h))) [
  | inr bad ↦ rw (delete_headers_lem (connection_tokens h) h) (rw bad refl)
  | inl good ↦
      let tokens = connection_tokens h in
      let rest = keep (λ key. not (among key tokens)) h in
      let twice =
        keep-keep (λ key. not (among key hop_by_hop_headers)) (λ key. not (among key tokens)) h in
      let merge =
        keep_same _ _ h (λ key. not_or (among key tokens) (among key hop_by_hop_headers)) in
      rw (delete_headers_lem tokens h) (
        rw good (
          delete_headers_lem hop_by_hop_headers rest ∙ rw hop_names_tokens (ap ok (twice ∙ merge))))
]

-- The proxy passes on the headers whose names are not stripped, in their order and with their values, if every name
-- that `Connection` lists is a header name; otherwise deleting that name throws.
pub strip_proxy_request_headers_lem :
    (headers : HeaderList)
    → strip_proxy_request_headers headers ≡ (
        if all_tokens (connection_tokens headers)
        then ok (keep (λ key. not (stripped headers key)) headers)
        else err (plain_error (text "TypeError")))
unfolding strip_proxy_request_headers stripped
strip_proxy_request_headers_lem h =
    let tokens = connection_tokens h in
    let rest = keep (λ key. not (among key request_headers)) h in
    let same = connection_tokens-keep (λ key. not (among key request_headers)) h connection_stays in
    let twice =
      keep-keep (λ key. not (among key tokens || among key hop_by_hop_headers))
        (λ key. not (among key request_headers)) h in
    let merge = keep_same _ _ h (λ key.
      not_or (among key request_headers) (among key tokens || among key hop_by_hop_headers)
      ∙ ap not (stripped_lem h key)) in
    rw (delete_headers_lem request_headers h)
      (rw request_names_tokens (hop_lem rest ∙ rw same (rw (twice ∙ merge) refl)))
