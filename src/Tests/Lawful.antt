-- ===== src/Tests/Lawful.antt =====
-- A lawful platform, and the theorems on tokens applied to it.
use fiber_paid_http.Prelude.{◌≡◌, refl, arith, Text, text, ◌==◌, ℕ, [], ◌∷◌, Option, some, none, ok}
use fiber_paid_http.Core.Types.{FiberChargeRequest}
use fiber_paid_http.Core.Json.{charge_json, receipt_json}
use fiber_paid_http.Core.Runtime.{Runtime}
use fiber_paid_http.Core.Schemas.{
  is_hash, is_hex_text, is_positive_decimal, is_payment_receipt, parse_payment_receipt,
  is_charge_request, parse_charge_request,
}
use fiber_paid_http.Core.Encoding.{encode_json_base64url, encode_receipt, decode_receipt}
use fiber_paid_http.Core.ChargeEncoding.{encode_fiber_charge_request, decode_fiber_charge_request}
use fiber_paid_http.Core.Tokens.SameJson.{SameJson-refl}
use fiber_paid_http.Core.Tokens.Lawful.{IsLawful}
use fiber_paid_http.Core.Tokens.ChargeTokens.{decode-encode_charge}
use fiber_paid_http.Core.Tokens.ReceiptTokens.{decode-encode_receipt}
use fiber_paid_http.Tests.{platform, receipt_1, charge_1}
use fiber_paid_http.Tests.Postfix.{write, read, read-write, write_nonempty}
use fiber_paid_http.Tests.Unary.{
  to_letters, of_letters, of_letters-to_letters, all-to_letters, to_letters_nonempty,
}

-- A time is written as one number.
abbrev pub read_time : Text → Option ℕ
read_time [] = none
read_time (n ∷ s) = some n

abbrev pub lawful_platform : Runtime
lawful_platform = record platform {
  canonical_json = write;
  parse_json = read;
  base64url_encode = to_letters;
  base64url_decode = of_letters;
  to_iso_string = λ n. n ∷ [];
  get_time = read_time;
}

pub lawful_platform-IsLawful : IsLawful lawful_platform
lawful_platform-IsLawful = record {
  read_back = λ j. j;
  parses = read-write;
  same = SameJson-refl;
  canonical = λ j. refl;
  utf8 = λ j. refl;
  base64url = of_letters-to_letters;
  base64url_text = all-to_letters;
  base64url_some = λ j. to_letters_nonempty (write j) (write_nonempty j);
}

abbrev receipt_token : Text
receipt_token = encode_json_base64url lawful_platform (receipt_json receipt_1)

receipt_1-encoded : encode_receipt lawful_platform receipt_1 ≡ ok receipt_token
unfolding encode_receipt parse_payment_receipt is_payment_receipt is_hash is_hex_text text ◌==◌
receipt_1-encoded = refl

decode-encode_receipt_example : decode_receipt lawful_platform receipt_token ≡ ok receipt_1
unfolding write to_letters receipt_json encode_json_base64url text
decode-encode_receipt_example =
    decode-encode_receipt lawful_platform receipt_1 receipt_token lawful_platform-IsLawful
      receipt_1-encoded (omega arith)

abbrev pub charge_2 : FiberChargeRequest
charge_2 = record charge_1 {
  description = some (text "one report");
  method_details = record charge_1.method_details {
    udt_type_script = some (record {
      code_hash = charge_1.method_details.payment_hash;
      hash_type = text "type";
      args = text "0x";
    });
  };
}

abbrev pub charge_token : Text
charge_token = encode_json_base64url lawful_platform (charge_json charge_2)

charge_2-encoded : encode_fiber_charge_request lawful_platform charge_2 ≡ ok charge_token
unfolding encode_fiber_charge_request parse_charge_request is_charge_request is_hash is_hex_text
    is_positive_decimal text ◌==◌
charge_2-encoded = refl

decode-encode_charge_example :
    decode_fiber_charge_request lawful_platform charge_token ≡ ok charge_2
decode-encode_charge_example =
    decode-encode_charge lawful_platform charge_2 charge_token lawful_platform-IsLawful
      charge_2-encoded
