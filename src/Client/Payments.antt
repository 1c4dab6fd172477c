-- ===== src/Client/Payments.antt =====
-- What `paidFetch` pays for, and which receipts it passes on.
use fiber_paid_http.Prelude.{
  ◌≡◌, refl, ◌==◌, Bool, true, false, ◌&&◌, not, Option, none, some, List, [], ◌∷◌, ==_iff, lower,
  eqb, arith, Result, ok, err, truthy, text, returned, passed,
}
use fiber_paid_http.Core.Types.{
  PaymentChallenge, FiberChargeRequest, FiberCredentialPayload, PaymentReceipt,
}
use fiber_paid_http.Core.Runtime.{Runtime}
use fiber_paid_http.Core.JsonValue.{end}
use fiber_paid_http.Core.Schemas.{parse_payment_credential}
use fiber_paid_http.Core.Http.Authorization.{build_authorization_payment_header}
use fiber_paid_http.Core.ChargeEncoding.{decode_fiber_charge_request}
use fiber_paid_http.Client.{
  FetchResponse, Surroundings, PaidFetchResult, Action, fetches, pays, fetches_with, Paid, admit,
  fulfil, finish, parse_challenge_response, after_payment, after_admission, after_first,
  after_fetch, paid_fetch, policy, is_expired, parse_receipt_for_response, receipt_matches, unpaid,
}

-- The payments among the calls.
unfoldable pub payments : List Action → List FiberChargeRequest
payments [] = []
payments (fetches ∷ actions) = payments actions
payments (pays charge ∷ actions) = charge ∷ payments actions
payments (fetches_with header ∷ actions) = payments actions

-- What is known of a charge that is paid.
pub record IsAuthorized (rt : Runtime) (s : Surroundings) (charge : FiberChargeRequest)
    : Type 0 where
  pub first : FetchResponse
  pub challenge : PaymentChallenge
  pub authorize : PaymentChallenge → FiberChargeRequest → Result Bool
  pub fetched : s.first_fetch ≡ ok first
  pub direct : first.redirected ≡ false
  pub challenged : parse_challenge_response rt first ≡ ok challenge
  pub asked : s.authorize_payment ≡ some authorize
  pub agreed : authorize challenge charge ≡ ok true

policy_lem : {A : Type 0} (o : Option A) (a : A) → policy o ≡ ok a → o ≡ some a
policy_lem none a h = absurd cc
policy_lem (some b) a h = cc

module _ (rt : Runtime) (s : Surroundings) where
  admit-IsAuthorized :
      (first : FetchResponse) (c : PaymentChallenge) (charge : FiberChargeRequest)
      → s.first_fetch ≡ ok first
      → admit rt s first ≡ ok (c, charge)
      → IsAuthorized rt s charge
  unfolding admit
  admit-IsAuthorized first c charge e h =
      let (direct, h1) = passed (not first.redirected) _ _ h in
      let (challenge, challenged, h2) = returned _ (parse_challenge_response rt first) h1 in
      let (fiber, h3) =
        passed (challenge.method == text "fiber" && challenge.intent == text "charge") _ _ h2 in
      let (current, h4) = passed (not (is_expired rt (truthy challenge.expires) s.now)) _ _ h3 in
      let (charge', decoded, h5) =
        returned _ (decode_fiber_charge_request rt challenge.request) h4 in
      let (authorize, asked, h6) = returned _ (policy s.authorize_payment) h5 in
      let (authorized, agreed, h7) = returned _ (authorize challenge charge') h6 in
      let (granted, h8) = passed authorized _ _ h7 in
      let same : charge' ≡ charge = ground arith in
      record {
        first = first;
        challenge = challenge;
        authorize = authorize;
        fetched = e;
        direct = ground arith;
        challenged = challenged;
        asked = policy_lem s.authorize_payment authorize asked;
        agreed = cc;
      }

  after_payment-payments :
      (challenge : PaymentChallenge) (charge : FiberChargeRequest) (p : Result Paid)
      → payments (after_payment rt s challenge charge p).0 ≡ charge ∷ []
  unfolding payments
  after_payment-payments challenge charge (err e) = refl
  after_payment-payments challenge charge (ok paid) = refl

  abbrev Explained : List FiberChargeRequest → Type 0
  Explained paid =
      (charge : FiberChargeRequest) (rest : List FiberChargeRequest)
      → paid ≡ charge ∷ rest
      → (rest ≡ []) × IsAuthorized rt s charge

  admission-Explained :
      (first : FetchResponse) (r : Result (PaymentChallenge × FiberChargeRequest))
      → s.first_fetch ≡ ok first
      → admit rt s first ≡ r
      → Explained (payments (after_admission rt s r).0)
  unfolding payments
  admission-Explained first (err e) fetched admitted charge rest h = absurd cc
  admission-Explained first (ok (c, paid)) fetched admitted charge rest h =
      let one = after_payment-payments c paid (fulfil rt s c paid) in
      let same : paid ≡ charge = cc in
      (cc, admit-IsAuthorized first c charge fetched (rw (← same) admitted))

  first-Explained :
      (first : FetchResponse) (b : Bool)
      → s.first_fetch ≡ ok first
      → Explained (payments (after_first rt s first b).0)
  unfolding payments
  first-Explained first false fetched charge rest h = absurd cc
  first-Explained first true fetched charge rest h =
      admission-Explained first (admit rt s first) fetched refl charge rest h

  fetch-Explained :
      (r : Result FetchResponse) → s.first_fetch ≡ r → Explained (payments (after_fetch rt s r).0)
  unfolding payments
  fetch-Explained (err e) fetched charge rest h = absurd cc
  fetch-Explained (ok first) fetched charge rest h =
      first-Explained first (eqb first.status 402) fetched charge rest h

  -- `paidFetch` pays at most one charge, and only if the first response was not redirected and carries
  -- a challenge, and the policy, which must be given, agreed to that challenge with that charge.
  pub paid_fetch-IsAuthorized :
      (charge : FiberChargeRequest) (rest : List FiberChargeRequest)
      → payments (paid_fetch rt s).0 ≡ charge ∷ rest
      → (rest ≡ []) × IsAuthorized rt s charge
  unfolding paid_fetch
  paid_fetch-IsAuthorized = fetch-Explained s.first_fetch refl

  -- What a receipt of a paid response says.
  abbrev Receipted : PaymentChallenge → FiberChargeRequest → PaymentReceipt → Type 0
  Receipted challenge charge receipt =
      (payload : FiberCredentialPayload) × (s.pay_charge charge ≡ ok payload)
      × (receipt.challenge_id ≡ challenge.id)
      × (lower receipt.reference ≡ lower payload.payment_hash)

  finish-Receipted :
      (c challenge : PaymentChallenge) (charge : FiberChargeRequest) (paid : Paid)
      (second : Result FetchResponse) (out : PaidFetchResult) (receipt : PaymentReceipt)
      → s.pay_charge charge ≡ ok paid.payload
      → finish rt c paid second ≡ ok out
      → out.challenge ≡ some challenge
      → out.receipt ≡ some receipt
      → Receipted challenge charge receipt
  unfolding finish
  finish-Receipted c challenge charge paid second out receipt done h e1 e2 =
      let (retry, fetched, h1) = returned _ second h in
      let (found, parsed, h2) = returned _ (parse_receipt_for_response rt retry) h1 in
      let (good, h3) = passed (receipt_matches rt found c paid.payload) _ _ h2 in
      let is_receipt : found ≡ some receipt = ground arith in
      let good' : receipt_matches rt (some receipt) c paid.payload ≡ true = rw is_receipt at good in
      (
        paid.payload,
        done,
        ground (arith, ==_iff receipt.challenge_id c.id),
        ground (arith, ==_iff (lower receipt.reference) (lower paid.payload.payment_hash)),
      )

  fulfil_lem :
      (c : PaymentChallenge) (charge : FiberChargeRequest) (paid : Paid)
      → fulfil rt s c charge ≡ ok paid
      → s.pay_charge charge ≡ ok paid.payload
  unfolding fulfil
  fulfil_lem c charge paid h =
      let (payload, done, h1) = returned _ (s.pay_charge charge) h in
      let (credential, parsed, h2) =
        returned _
          (parse_payment_credential rt
            (record { challenge = c; source = none; payload = payload; extra = end }))
          h1 in
      let (header, built, h3) = returned _ (build_authorization_payment_header rt credential) h2 in
      let same : payload ≡ paid.payload = ground arith in rw (← same) done

  -- A run that ends with a challenge and a receipt.
  abbrev Delivered : List Action × Result PaidFetchResult → Type 0
  Delivered (actions, r) =
      (out : PaidFetchResult) (challenge : PaymentChallenge) (receipt : PaymentReceipt)
      → r ≡ ok out
      → out.challenge ≡ some challenge
      → out.receipt ≡ some receipt
      → (charge : FiberChargeRequest) × (payments actions ≡ charge ∷ [])
        × Receipted challenge charge receipt

  payment-Delivered :
      (c : PaymentChallenge) (charge : FiberChargeRequest) (p : Result Paid)
      → fulfil rt s c charge ≡ p
      → Delivered (after_payment rt s c charge p)
  unfolding payments
  payment-Delivered c charge (err e) f out challenge receipt h e1 e2 = absurd cc
  payment-Delivered c charge (ok paid) f out challenge receipt h e1 e2 = (
    charge,
    refl,
    finish-Receipted c challenge charge paid (s.second_fetch paid.header) out receipt
        (fulfil_lem c charge paid f) h e1 e2,
  )

  admission-Delivered :
      (r : Result (PaymentChallenge × FiberChargeRequest)) → Delivered (after_admission rt s r)
  admission-Delivered (err e) out challenge receipt h e1 e2 = absurd cc
  admission-Delivered (ok (c, charge)) out challenge receipt h e1 e2 =
      payment-Delivered c charge (fulfil rt s c charge) refl out challenge receipt h e1 e2

  first-Delivered : (first : FetchResponse) (b : Bool) → Delivered (after_first rt s first b)
  unfolding unpaid
  first-Delivered first false out challenge receipt h e1 e2 =
      let (found, parsed, h1) = returned _ (parse_receipt_for_response rt first) h in
      absurd (ground arith)
  first-Delivered first true out challenge receipt h e1 e2 =
      admission-Delivered (admit rt s first) out challenge receipt h e1 e2

  fetch-Delivered : (r : Result FetchResponse) → Delivered (after_fetch rt s r)
  fetch-Delivered (err e) out challenge receipt h e1 e2 = absurd cc
  fetch-Delivered (ok first) out challenge receipt h e1 e2 =
      first-Delivered first (eqb first.status 402) out challenge receipt h e1 e2

  -- A receipt that `paidFetch` returns with a challenge names that challenge, and its reference is,
  -- but for the case of letters, the payment hash that the adapter returned for the one charge paid.
  pub paid_receipt :
      (out : PaidFetchResult) (challenge : PaymentChallenge) (receipt : PaymentReceipt)
      → (paid_fetch rt s).1 ≡ ok out
      → out.challenge ≡ some challenge
      → out.receipt ≡ some receipt
      → (charge : FiberChargeRequest) × (payments (paid_fetch rt s).0 ≡ charge ∷ [])
        × Receipted challenge charge receipt
  unfolding paid_fetch
  paid_receipt = fetch-Delivered s.first_fetch
