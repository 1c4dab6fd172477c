-- ===== src/Core/Runtime.antt =====
-- What the packages call and do not implement: node:crypto, Buffer, Date, JSON.parse, zod's datetime
-- test and the JCS library. Bytes are lists of numbers. What a proof needs of one of these is a
-- hypothesis of that proof.
use fiber_paid_http.Prelude.{ℕ, Text, Bool, Option}
use fiber_paid_http.Core.JsonValue.{Json}

pub record Runtime : Type 0 where
  -- `canonicalize` of json-canonicalize
  pub canonical_json : Json → Text
  -- `JSON.parse`; none where it throws
  pub parse_json : Text → Option Json
  -- `createHmac("sha256", secret).update(input).digest("base64url")`
  pub hmac_base64url : Text → Text → Text
  -- `createHash("sha256").update(input).digest("hex")`
  pub sha256_hex : Text → Text
  -- `createHash("sha256").update(bytes).digest("base64")`
  pub sha256_base64 : Text → Text
  -- `Buffer.from(s)` and `bytes.toString("utf8")`
  pub utf8_encode : Text → Text
  pub utf8_decode : Text → Text
  -- `Buffer.from(s, "base64url")` and `bytes.toString("base64url")`
  pub base64url_decode : Text → Text
  pub base64url_encode : Text → Text
  -- `Buffer.from(s, "base64")` and `bytes.toString("base64")`
  pub base64_decode : Text → Text
  pub base64_encode : Text → Text
  -- `z.string().datetime({ offset: true })`
  pub is_datetime : Text → Bool
  -- `new Date(s).getTime()`; none where it is NaN
  pub get_time : Text → Option ℕ
  -- `new Date(ms).toISOString()`
  pub to_iso_string : ℕ → Text
  -- `left.localeCompare(right) <= 0`
  pub locale_le : Text → Text → Bool
  -- `new URL(url)`: its `pathname` followed by its `search`
  pub path_and_search : Text → Text
  -- `new URL(path, base).toString()`
  pub resolve_url : Text → Text → Text
