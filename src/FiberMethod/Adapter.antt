-- ===== src/FiberMethod/Adapter.antt =====
-- packages/fiber-method/src/index.ts: `FiberMethodAdapter`, over the answers of its RPC client.
pub mod Evidence
use fiber_paid_http.Prelude.{
  ℕ, Text, text, ◌==◌, Bool, true, false, Option, none, some, lower, truthy, Result, ok, err, ◌>>=◌,
  ◌>>◌, ensure, fail_with, ◌++◌, Failure, plain_error,
}
use fiber_paid_http.Core.JsonValue.{end}
use fiber_paid_http.Core.Types.{
  FiberChargeRequest, FiberCredentialPayload, FiberUdtTypeScript, Settlement, settled,
}
use fiber_paid_http.Core.Runtime.{Runtime}
use fiber_paid_http.Core.Schemas.{parse_charge_request, parse_credential_payload}
use fiber_paid_http.FiberMethod.Status.{
  FiberMode, local_mode, testnet_mode, network_of_mode, same_network, fiber_network_from_currency,
  is_payment_success_status, is_invoice_paid_status,
}
use fiber_paid_http.FiberMethod.Invoice.{
  FiberInvoiceResult, FiberInvoiceStatusResult, FiberPaymentResult, Numerals,
  extract_invoice_payment_hash, extract_invoice_expires_at, extract_invoice_udt_script,
  invoice_hash_algorithm,
}
use fiber_paid_http.FiberMethod.Matching.{Expected, same_hex_32, assert_invoice_matches}
use fiber_paid_http.FiberMethod.Polling.{
  wait_for_fiber_payment_success, wait_for_fiber_invoice_paid, assert_polling_configuration,
}

pub record FiberCreateChargeInput : Type 0 where
  pub amount : Text
  pub currency : Option Text
  pub description : Option Text
  pub external_id : Option Text
  pub udt_type_script : Option FiberUdtTypeScript

pub record FiberReceiptEvidence : Type 0 where
  pub payment_hash : Text
  pub amount_shannons : Text
  pub settlement : Settlement

pub record FiberMethodAdapter : Type 0 where
  pub mode : FiberMode
  pub asset : Text
  pub currency : Text
  pub node_id : Option Text
  pub rpc_label : Option Text
  pub udt_type_script : Option FiberUdtTypeScript
  pub settlement_timeout_ms : ℕ
  pub settlement_poll_ms : ℕ

abbrev pub or_else {ℓ} : {A : Type ℓ} → Option A → Option A → Option A
or_else none default = default
or_else (some a) default = some a

abbrev pub or_text : Option Text → Text → Text
or_text none default = default
or_text (some s) default = s

pub record AdapterOptions : Type 0 where
  pub mode : FiberMode
  -- the label of the RPC client, where there is a client
  pub rpc : Option (Option Text)
  pub asset : Option Text
  pub currency : Option Text
  pub node_id : Option Text
  pub rpc_label : Option Text
  pub udt_type_script : Option FiberUdtTypeScript
  pub settlement_timeout_ms : Option ℕ
  pub settlement_poll_ms : Option ℕ

abbrev or_number : Option ℕ → ℕ → ℕ
or_number none default = default
or_number (some n) default = n

abbrev default_currency : FiberMode → Text
default_currency local_mode = text "Fibd"
default_currency testnet_mode = text "Fibt"

abbrev client_of : Option (Option Text) → Result (Option Text)
client_of none = err (plain_error (text "Fiber local/testnet mode requires a FiberRpcClient"))
client_of (some label) = ok label

-- the constructor
unfoldable pub create_adapter : AdapterOptions → Result FiberMethodAdapter
unfolding assert_polling_configuration
create_adapter options = do
  label ← client_of options.rpc
  assert_polling_configuration (or_number options.settlement_timeout_ms 30000)
      (or_number options.settlement_poll_ms 250)
  ok (record {
    mode = options.mode;
    asset = or_text options.asset (text "CKB");
    currency = or_text options.currency (default_currency options.mode);
    node_id = options.node_id;
    rpc_label = or_else options.rpc_label label;
    udt_type_script = options.udt_type_script;
    settlement_timeout_ms = or_number options.settlement_timeout_ms 30000;
    settlement_poll_ms = or_number options.settlement_poll_ms 250;
  })

abbrev address_of : Option Text → Result Text
address_of none = err (
    fail_with (text "fiber-invoice-missing")
      (text "Fiber new_invoice did not return invoice_address") 502)
address_of (some s) = ok s

abbrev wrong_hash : Text → ℕ → Failure
wrong_hash message status = fail_with (text "wrong-payment-hash") message status

module _ (rt : Runtime) (numerals : Numerals) (adapter : FiberMethodAdapter) where
  -- `created` is the answer of `rpc.newInvoice`
  unfoldable pub create_charge_request :
      FiberCreateChargeInput → Result FiberInvoiceResult → ℕ → Result FiberChargeRequest
  unfolding extract_invoice_payment_hash assert_invoice_matches fiber_network_from_currency
  create_charge_request input created now = do
    invoice ← created
    payment_hash ← extract_invoice_payment_hash invoice
    address ← address_of (truthy invoice.invoice_address)
    assert_invoice_matches rt numerals invoice
        (record {
          invoice_address = none;
          payment_hash = payment_hash;
          amount = input.amount;
          currency = adapter.currency;
          network = network_of_mode adapter.mode;
          hash_algorithm = invoice_hash_algorithm invoice;
          udt_type_script = or_else input.udt_type_script adapter.udt_type_script;
          invoice_expires_at = none;
          invoice_udt_script = none;
          require_unexpired = true;
        })
        now
    network ← fiber_network_from_currency adapter.currency
    parse_charge_request rt (record {
      amount = input.amount;
      currency = or_text input.currency (lower adapter.asset);
      recipient = adapter.node_id;
      description = input.description;
      external_id = input.external_id;
      method_details = record {
        invoice = address;
        payment_hash = payment_hash;
        network = network;
        hash_algorithm = invoice_hash_algorithm invoice;
        invoice_currency = some adapter.currency;
        invoice_expires_at = extract_invoice_expires_at rt numerals invoice;
        invoice_udt_script = extract_invoice_udt_script invoice;
        udt_type_script = or_else input.udt_type_script adapter.udt_type_script;
      };
    })

  -- what `payCharge` expects of the decoded invoice
  abbrev pub expected_before_payment : FiberChargeRequest → Expected
  expected_before_payment request = record {
    invoice_address = none;
    payment_hash = request.method_details.payment_hash;
    amount = request.amount;
    currency = or_text request.method_details.invoice_currency adapter.currency;
    network = network_of_mode adapter.mode;
    hash_algorithm = request.method_details.hash_algorithm;
    udt_type_script = request.method_details.udt_type_script;
    invoice_expires_at = request.method_details.invoice_expires_at;
    invoice_udt_script = request.method_details.invoice_udt_script;
    require_unexpired = true;
  }

  -- The checks of `payCharge` before it calls `rpc.sendPayment`; `decoded` is the answer of
  -- `rpc.parseInvoice`.
  unfoldable pub check_charge :
      FiberChargeRequest → Result FiberInvoiceResult → ℕ → Result FiberChargeRequest
  unfolding assert_invoice_matches
  check_charge request decoded now = do
    parsed ← parse_charge_request rt request
    ensure (same_network parsed.method_details.network (network_of_mode adapter.mode)) (
        fail_with (text "wrong-network")
          (text "Fiber invoice network does not match the configured payer") 402)
    invoice ← decoded
    assert_invoice_matches rt numerals invoice (expected_before_payment parsed) now
    ok parsed

  -- The rest; `sent` is the answer of `rpc.sendPayment`, `ask` are those of `rpc.getPayment`.
  unfoldable pub confirm_payment :
      FiberChargeRequest
      → Result FiberPaymentResult
      → (ℕ → ℕ)
      → (ℕ → Result FiberPaymentResult)
      → Result FiberCredentialPayload
  unfolding same_hex_32 wait_for_fiber_payment_success
  confirm_payment parsed sent clock ask = do
    result ← sent
    let payment_hash = or_text result.payment_hash parsed.method_details.payment_hash
    ensure (same_hex_32 payment_hash parsed.method_details.payment_hash)
        (wrong_hash (text "Fiber send_payment returned a different payment hash") 502)
    last ←
        wait_for_fiber_payment_success payment_hash clock ask adapter.settlement_timeout_ms
          adapter.settlement_poll_ms
    ensure (is_payment_success_status last.status) (
        fail_with (text "fiber-payment-not-settled") (text "Fiber payment did not reach Success")
          402)
    parse_credential_payload (record { payment_hash = payment_hash; extra = end })

  unfoldable pub pay_charge :
      FiberChargeRequest
      → Result FiberInvoiceResult
      → ℕ
      → Result FiberPaymentResult
      → (ℕ → ℕ)
      → (ℕ → Result FiberPaymentResult)
      → Result FiberCredentialPayload
  unfolding check_charge confirm_payment
  pay_charge request decoded now sent clock ask = do
    parsed ← check_charge request decoded now
    confirm_payment parsed sent clock ask

  -- what `verifyPayload` expects of the paid invoice
  abbrev pub expected_after_payment : FiberChargeRequest → Expected
  expected_after_payment request = record {
    invoice_address = some request.method_details.invoice;
    payment_hash = request.method_details.payment_hash;
    amount = request.amount;
    currency = or_text request.method_details.invoice_currency adapter.currency;
    network = request.method_details.network;
    hash_algorithm = request.method_details.hash_algorithm;
    udt_type_script = request.method_details.udt_type_script;
    invoice_expires_at = request.method_details.invoice_expires_at;
    invoice_udt_script = request.method_details.invoice_udt_script;
    require_unexpired = false;
  }

  -- `ask` are the answers of `rpc.getInvoice`
  unfoldable pub verify_payload :
      FiberChargeRequest
      → FiberCredentialPayload
      → (ℕ → ℕ)
      → (ℕ → Result FiberInvoiceStatusResult)
      → ℕ
      → Result FiberReceiptEvidence
  unfolding wait_for_fiber_invoice_paid assert_invoice_matches
  verify_payload request payload clock ask now = do
    parsed ← parse_charge_request rt request
    normalized ← parse_credential_payload payload
    ensure (normalized.payment_hash == parsed.method_details.payment_hash)
        (wrong_hash (text "Fiber payment hash does not match the challenge") 402)
    invoice ←
        wait_for_fiber_invoice_paid parsed.method_details.payment_hash clock ask
          adapter.settlement_timeout_ms adapter.settlement_poll_ms
    ensure (is_invoice_paid_status invoice.status) (
        fail_with (text "fiber-payment-not-settled")
          (text "Fiber invoice is not paid; invoice status is "
            ++ or_text invoice.status (text "unknown"))
          402)
    assert_invoice_matches rt numerals invoice.result (expected_after_payment parsed) now
    ok (record {
      payment_hash = parsed.method_details.payment_hash;
      amount_shannons = parsed.amount;
      settlement = record {
        status = settled;
        payment_hash = some parsed.method_details.payment_hash;
        invoice_id = some parsed.method_details.invoice;
        tx_hash = none;
        provider = some (or_text adapter.rpc_label (text "fiber-rpc"));
        observed_at = rt.to_iso_string now;
      };
    })
