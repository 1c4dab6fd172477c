-- ===== src/Core/Http/AuthParams.antt =====
-- packages/core/src/http.ts: `escapeQuoted`, `parseAuthParams` and the printing of parameters. The index into the input is the
-- rest of the input.
use fiber_paid_http.Prelude.{
  ℕ, zero, suc, Text, text, ◌==◌, Bool, true, false, ◌&&◌, ◌||◌, not, Option, none, some, List, [],
  ◌∷◌, ◌++◌, length, ltb, eqb, is_empty, if◌then◌else◌, lower, Result, ok, err, plain_error,
}
use fiber_paid_http.Core.Schemas.{between, is_digit, is_lower_alpha, is_upper_alpha}

abbrev pub Params : Type 0
Params = List (Text × Text)

-- /\s/
unfoldable pub is_space : ℕ → Bool
is_space c =
    between 9 13 c
    || eqb c 32
    || eqb c 160
    || eqb c 0x1680
    || between 0x2000 0x200a c
    || between 0x2028 0x2029 c
    || eqb c 0x202f
    || eqb c 0x205f
    || eqb c 0x3000
    || eqb c 0xfeff

-- /[\s,]/
unfoldable pub is_separator : ℕ → Bool
unfolding is_space
is_separator c = is_space c || eqb c b','

-- /[A-Za-z0-9_-]/
unfoldable pub is_name : ℕ → Bool
is_name c = is_upper_alpha c || is_lower_alpha c || is_digit c || eqb c b'_' || eqb c b'-'

unfoldable pub take_while : (ℕ → Bool) → Text → Text
take_while p [] = []
take_while p (c ∷ s) = if p c then c ∷ take_while p s else []

unfoldable pub drop_while : (ℕ → Bool) → Text → Text
drop_while p [] = []
drop_while p (c ∷ s) = let rest = drop_while p s in if p c then rest else c ∷ s

-- `replace(/(["\\])/g, "\\$1")`
unfoldable pub escape_quoted : Text → Text
escape_quoted [] = []
escape_quoted (c ∷ s) =
    if eqb c b'"' || eqb c 92 then 92 ∷ c ∷ escape_quoted s else c ∷ escape_quoted s

abbrev pub push : ℕ → Option (Text × Text) → Option (Text × Text)
push c none = none
push c (some (value, rest)) = some (c ∷ value, rest)

-- The loop over a quoted value; the flag says that a backslash was just read. None where the
-- closing quote is missing.
unfoldable pub quoted : Bool → Text → Option (Text × Text)
quoted after_backslash [] = none
quoted true (c ∷ s) = push c (quoted false s)
quoted false (c ∷ s) =
    let escaped = quoted true s in
    let plain = push c (quoted false s) in
    if eqb c b'"' then some ([], s) else (if eqb c 92 then escaped else plain)

abbrev is_value_char : ℕ → Bool
is_value_char c = not (is_separator c)

unfoldable pub read_value : Text → Option (Text × Text)
unfolding quoted take_while drop_while is_separator
read_value [] = some ([], [])
read_value (c ∷ s) =
    if eqb c b'"'
    then quoted false s
    else some (take_while is_value_char (c ∷ s), drop_while is_value_char (c ∷ s))

abbrev pub starts_with_equals : Text → Bool
starts_with_equals [] = false
starts_with_equals (c ∷ s) = eqb c b'='

abbrev pub after_first : Text → Text
after_first [] = []
after_first (c ∷ s) = s

-- /^[A-Za-z][A-Za-z0-9_-]*\s*=/
unfoldable pub is_next_scheme : Text → Bool
unfolding is_name is_space drop_while
is_next_scheme [] = false
is_next_scheme (c ∷ s) =
    (is_upper_alpha c || is_lower_alpha c)
    && starts_with_equals (drop_while is_space (drop_while is_name s))

-- `Object.hasOwn(result, key)`
unfoldable pub has_own : Text → Params → Bool
has_own key [] = false
has_own key ((k, v) ∷ params) = k == key || has_own key params

-- `result[key] = value` for a key that `result` lacks. A text put under `__proto__` is ignored.
unfoldable pub assign : Text → Text → Params → Params
assign key value params = if key == text "__proto__" then params else params ++ (key, value) ∷ []

abbrev invalid_trailing : Result Params
invalid_trailing = err (plain_error (text "invalid trailing auth parameter"))

-- `break` at the next scheme of the header, or throw
unfoldable pub stop_or_fail : Bool → Params → Option (Result Params)
stop_or_fail true params = some (ok params)
stop_or_fail false params = some invalid_trailing

-- The end of a round: the value was read, and `next` is called on what was read so far and the
-- rest of the input.
unfoldable pub add_param :
    (Params → Text → Option (Result Params))
    → Params
    → Text
    → Option (Text × Text)
    → Option (Result Params)
unfolding has_own assign
add_param next params key none =
    some (err (plain_error (text "unterminated quoted auth parameter")))
add_param next params key (some (value, tail)) =
    if has_own key params
    then some (err (plain_error (text "duplicate auth parameter")))
    else next (assign key value params) tail

-- One round of the loop.
unfoldable pub auth_param :
    (Params → Text → Option (Result Params)) → Params → Text → Option (Result Params)
unfolding is_space is_name take_while drop_while is_next_scheme stop_or_fail add_param read_value
auth_param next params input =
    let start = drop_while is_separator input in
    let raw_key = take_while is_name start in
    let key_end = drop_while is_name start in
    let rest = drop_while is_space key_end in
    if is_empty raw_key || not (starts_with_equals rest)
    then stop_or_fail
        (not (is_empty raw_key) && ltb (length rest) (length key_end) && is_next_scheme rest) params
    else add_param next params (lower raw_key) (read_value (drop_while is_space (after_first rest)))

-- The loop, with fuel; none where the fuel runs out.
unfoldable pub auth_params : ℕ → Params → Text → Option (Result Params)
unfolding auth_param
auth_params zero params input = none
auth_params (suc fuel) params [] = some (ok params)
auth_params (suc fuel) params (c ∷ s) = auth_param (auth_params fuel) params (c ∷ s)

abbrev pub or_out_of_fuel : Option (Result Params) → Result Params
or_out_of_fuel none = err (plain_error (text "out of fuel"))
or_out_of_fuel (some r) = r

unfoldable pub parse_auth_params : Text → Result Params
unfolding auth_params
parse_auth_params input = or_out_of_fuel (auth_params (suc (length input)) [] input)

-- `${key}="${escapeQuoted(value)}"`
unfoldable pub field : Text × Text → Text
unfolding escape_quoted
field (key, value) = key ++ b'=' ∷ b'"' ∷ (escape_quoted value ++ b'"' ∷ [])

-- `fields.map(…).join(", ")`
unfoldable pub join_fields : Params → Text
unfolding field
join_fields [] = []
join_fields (f ∷ []) = field f
join_fields (f ∷ g ∷ fields) = field f ++ b',' ∷ 32 ∷ join_fields (g ∷ fields)
