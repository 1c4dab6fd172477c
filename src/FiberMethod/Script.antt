-- ===== src/FiberMethod/Script.antt =====
-- packages/fiber-method/src/index.ts: UDT type scripts and their Molecule encoding. Bytes are numbers
-- below 256.
use fiber_paid_http.Prelude.{
  ℕ, ◌+◌, ◌-◌, ◌*◌, ◌/◌, ◌%◌, Text, text, ◌==◌, Bool, ◌||◌, Option, none, some, List, [], ◌∷◌, ◌++◌,
  length, drop, lower, leb, if◌then◌else◌, Result, ok, err, ◌>>=◌, ◌>>◌, ensure, plain_error,
  truthy,
}
use fiber_paid_http.Core.Types.{FiberUdtTypeScript}
use fiber_paid_http.Core.Schemas.{is_digit, is_udt_type_script, is_hex_text, is_hash}

unfoldable pub hex_value : ℕ → ℕ
hex_value c = if is_digit c then c - b'0' else (if leb b'a' c then c - 87 else c - 55)

unfoldable pub hex_digit : ℕ → ℕ
hex_digit n = if leb 10 n then n + 87 else n + b'0'

-- `Buffer.from(s, "hex")` of hex digits; an odd last digit is dropped
unfoldable pub hex_decode : Text → List ℕ
unfolding hex_value
hex_decode [] = []
hex_decode (c ∷ []) = []
hex_decode (c ∷ d ∷ s) = (hex_value c * 16 + hex_value d) ∷ hex_decode s

-- `bytes.toString("hex")`
unfoldable pub hex_encode : List ℕ → Text
unfolding hex_digit
hex_encode [] = []
hex_encode (b ∷ bytes) = hex_digit (b / 16) ∷ hex_digit (b % 16) ∷ hex_encode bytes

-- `writeUInt32LE`
abbrev pub uint32_le : ℕ → List ℕ
uint32_le n = n % 256 ∷ n / 256 % 256 ∷ n / 65536 % 256 ∷ n / 16777216 % 256 ∷ []

unfoldable pub hash_type_byte : Text → Option ℕ
hash_type_byte hash_type =
    if hash_type == text "data"
    then some 0
    else (if hash_type == text "type"
        then some 1
        else (if hash_type == text "data1"
            then some 2
            else (if hash_type == text "data2" then some 4 else none)))

abbrev pub script_bytes : List ℕ → ℕ → List ℕ → List ℕ
script_bytes code_hash hash_type args =
    uint32_le (4 + 3 * 4 + length code_hash + 1 + (4 + length args))
    ++ (uint32_le 16
        ++ (uint32_le 48
            ++ (uint32_le 49 ++ (code_hash ++ (hash_type ∷ (uint32_le (length args) ++ args))))))

abbrev with_hash_type : FiberUdtTypeScript → Option ℕ → Result Text
with_hash_type script none = err (plain_error (text "Unsupported CKB script hash_type"))
with_hash_type script (some hash_type) = ok (
    text "0x"
    ++ hex_encode (
        script_bytes (hex_decode (drop 2 script.code_hash)) hash_type
          (hex_decode (drop 2 script.args))))

unfoldable pub serialize_fiber_udt_type_script : FiberUdtTypeScript → Result Text
unfolding hash_type_byte hex_decode hex_encode is_udt_type_script
serialize_fiber_udt_type_script script =
    ensure (is_udt_type_script (some script)) (plain_error (text "ZodError"))
    >> with_hash_type script (hash_type_byte (lower script.hash_type))

-- `record.x.toLowerCase()` of a member; an empty text counts as absent in the tests that follow
abbrev lowered : Option Text → Option Text
lowered none = none
lowered (some s) = truthy (some (lower s))

abbrev is_hash_type : Text → Bool
is_hash_type s = s == text "data" || s == text "data1" || s == text "data2" || s == text "type"

abbrev checked_part : (Text → Bool) → Text → Option Text → Result Text
checked_part test message none = err (plain_error message)
checked_part test message (some s) = ensure (test s) (plain_error message) >> ok s

abbrev normalized : Option Text → Option Text → Option Text → Result (Option FiberUdtTypeScript)
normalized none none none = ok none
normalized c h a = do
  code_hash ←
      checked_part is_hash (text "Fiber UDT type script code_hash must be a 32-byte hex string") c
  hash_type ←
      checked_part is_hash_type
        (text "Fiber UDT type script hash_type must be data, data1, data2, or type") h
  args ← checked_part is_hex_text (text "Fiber UDT type script args must be hex") a
  ok (some (record { code_hash = code_hash; hash_type = hash_type; args = args }))

-- The members `code_hash`, `hash_type` and `args` that are texts; none where all are missing.
unfoldable pub normalize_fiber_udt_type_script :
    Option Text → Option Text → Option Text → Result (Option FiberUdtTypeScript)
unfolding is_hash is_hex_text
normalize_fiber_udt_type_script code_hash hash_type args =
    normalized (lowered code_hash) (lowered hash_type) (lowered args)
