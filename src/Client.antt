-- ===== src/Client.antt =====
-- packages/client/src/index.ts: `paidFetch`. What it calls (fetch, the payment policy and the payer's
-- adapter) is a record of answers; the calls it makes are listed.
pub mod Payments
use fiber_paid_http.Prelude.{
  ℕ, Text, text, ◌==◌, Bool, true, false, ◌&&◌, ◌||◌, not, Option, none, some, List, [], ◌∷◌, ◌++◌,
  lower, ltb, leb, eqb, truthy, if◌then◌else◌, Result, ok, err, ◌>>=◌, ◌>>◌, ensure, fail_with,
}
use fiber_paid_http.Core.JsonValue.{end}
use fiber_paid_http.Core.Types.{
  PaymentChallenge, PaymentCredential, FiberChargeRequest, FiberCredentialPayload, PaymentReceipt,
}
use fiber_paid_http.Core.Runtime.{Runtime}
use fiber_paid_http.Core.Schemas.{parse_payment_credential}
use fiber_paid_http.Core.Encoding.{decode_receipt}
use fiber_paid_http.Core.ChargeEncoding.{decode_fiber_charge_request}
use fiber_paid_http.Core.Http.Authorization.{build_authorization_payment_header}
use fiber_paid_http.Core.Http.Challenge.{parse_www_authenticate_payment_header}

pub record FetchResponse : Type 0 where
  pub status : ℕ
  pub redirected : Bool
  pub www_authenticate : Option Text
  pub payment_receipt : Option Text

-- `authorizePayment` of the options may be absent.
pub record Surroundings : Type 0 where
  pub first_fetch : Result FetchResponse
  pub now : ℕ
  pub authorize_payment : Option (PaymentChallenge → FiberChargeRequest → Result Bool)
  pub pay_charge : FiberChargeRequest → Result FiberCredentialPayload
  -- with this authorization header
  pub second_fetch : Text → Result FetchResponse

pub record PaidFetchResult : Type 0 where
  pub response : FetchResponse
  pub receipt : Option PaymentReceipt
  pub challenge : Option PaymentChallenge

-- The calls with an effect.
pub data Action : Type 0 where
  fetches : Action
  pays : FiberChargeRequest → Action
  fetches_with : Text → Action

abbrev pub found_challenge : Option PaymentChallenge → Result PaymentChallenge
found_challenge none = err (
    fail_with (text "missing-challenge")
      (text "402 response did not contain a valid Payment challenge") 402)
found_challenge (some challenge) = ok challenge

abbrev pub policy : {A : Type 0} → Option A → Result A
policy none = err (
    fail_with (text "payment-authorization-required")
      (text "An explicit payment authorization policy is required before paying a challenge") 403)
policy (some authorize) = ok authorize

-- what stands for a challenge that is paid, and the header of the second request
pub record Paid : Type 0 where
  pub payload : FiberCredentialPayload
  pub header : Text

module _ (rt : Runtime) where
  unfoldable pub parse_challenge_response : FetchResponse → Result PaymentChallenge
  parse_challenge_response response =
      found_challenge (parse_www_authenticate_payment_header rt response.www_authenticate)

  abbrev receipt_in : FetchResponse → Option Text → Result (Option PaymentReceipt)
  receipt_in response none = ok none
  receipt_in response (some header) = do
    ensure (not (ltb response.status 200 || leb 300 response.status)) (
        fail_with (text "receipt-on-error-response")
          (text "Payment-Receipt is forbidden on non-2xx responses") 502)
    receipt ← decode_receipt rt header
    ok (some receipt)

  unfoldable pub parse_receipt_for_response : FetchResponse → Result (Option PaymentReceipt)
  parse_receipt_for_response response = receipt_in response (truthy response.payment_receipt)

  -- `Date.now() > new Date(expires).getTime()`
  abbrev is_past : Option ℕ → ℕ → Bool
  is_past none now = false
  is_past (some expires_at) now = ltb expires_at now

  abbrev pub is_expired : Option Text → ℕ → Bool
  is_expired none now = false
  is_expired (some expires) now = is_past (rt.get_time expires) now

  -- From the first response with status 402 to the policy's answer.
  unfoldable pub admit :
      Surroundings → FetchResponse → Result (PaymentChallenge × FiberChargeRequest)
  unfolding parse_challenge_response
  admit s first = do
    ensure (not first.redirected) (
        fail_with (text "payment-after-redirect-forbidden")
          (text
            "Payment authorization requires a direct 402 response; redirects must be resolved explicitly first")
          403)
    challenge ← parse_challenge_response first
    ensure (challenge.method == text "fiber" && challenge.intent == text "charge")
        (fail_with (text "method-unsupported") (text "Challenge is not a Fiber charge request") 400)
    ensure (not (is_expired (truthy challenge.expires) s.now))
        (fail_with (text "payment-expired") (text "Payment challenge is expired") 402)
    charge ← decode_fiber_charge_request rt challenge.request
    authorize ← policy s.authorize_payment
    authorized ← authorize challenge charge
    ensure authorized (
        fail_with (text "payment-not-authorized")
          (text "Payment was not authorized by the client policy") 403)
    ok (challenge, charge)

  -- the call of `payCharge` and the credential's header
  unfoldable pub fulfil : Surroundings → PaymentChallenge → FiberChargeRequest → Result Paid
  fulfil s challenge charge = do
    payload ← s.pay_charge charge
    credential ←
        parse_payment_credential rt
          (record { challenge = challenge; source = none; payload = payload; extra = end })
    header ← build_authorization_payment_header rt credential
    ok (record { payload = payload; header = header })

  abbrev pub receipt_matches :
      Option PaymentReceipt → PaymentChallenge → FiberCredentialPayload → Bool
  receipt_matches none challenge payload = true
  receipt_matches (some receipt) challenge payload =
      lower receipt.reference == lower payload.payment_hash && receipt.challenge_id == challenge.id

  unfoldable pub finish : PaymentChallenge → Paid → Result FetchResponse → Result PaidFetchResult
  unfolding parse_receipt_for_response
  finish challenge paid second = do
    retry ← second
    receipt ← parse_receipt_for_response retry
    ensure (receipt_matches receipt challenge paid.payload) (
        fail_with (text "invalid-receipt")
          (text "Payment receipt does not match the fulfilled challenge") 502)
    ok (record { response = retry; receipt = receipt; challenge = some challenge })

  abbrev pub after_payment :
      Surroundings
      → PaymentChallenge
      → FiberChargeRequest
      → Result Paid
      → List Action × Result PaidFetchResult
  after_payment s challenge charge (err e) = (fetches ∷ pays charge ∷ [], err e)
  after_payment s challenge charge (ok paid) = (
    fetches ∷ pays charge ∷ fetches_with paid.header ∷ [],
    finish challenge paid (s.second_fetch paid.header),
  )

  abbrev pub after_admission :
      Surroundings
      → Result (PaymentChallenge × FiberChargeRequest)
      → List Action × Result PaidFetchResult
  after_admission s (err e) = (fetches ∷ [], err e)
  after_admission s (ok (challenge, charge)) =
      after_payment s challenge charge (fulfil s challenge charge)

  unfoldable pub unpaid : FetchResponse → Result PaidFetchResult
  unfolding parse_receipt_for_response
  unpaid first = do
    receipt ← parse_receipt_for_response first
    ok (record { response = first; receipt = receipt; challenge = none })

  abbrev pub after_first :
      Surroundings → FetchResponse → Bool → List Action × Result PaidFetchResult
  after_first s first false = (fetches ∷ [], unpaid first)
  after_first s first true = after_admission s (admit s first)

  abbrev pub after_fetch :
      Surroundings → Result FetchResponse → List Action × Result PaidFetchResult
  after_fetch s (err e) = (fetches ∷ [], err e)
  after_fetch s (ok first) = after_first s first (eqb first.status 402)

  unfoldable pub paid_fetch : Surroundings → List Action × Result PaidFetchResult
  unfolding admit fulfil finish unpaid
  paid_fetch s = after_fetch s s.first_fetch

  abbrev inspected : FetchResponse → Bool → Result (Option PaymentChallenge)
  inspected response false = ok none
  inspected response true = parse_challenge_response response >>= λ challenge. ok (some challenge)

  unfoldable pub inspect_challenge : Result FetchResponse → Result (Option PaymentChallenge)
  unfolding parse_challenge_response
  inspect_challenge fetched = fetched >>= λ response. inspected response (eqb response.status 402)
