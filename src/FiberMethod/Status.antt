-- ===== src/FiberMethod/Status.antt =====
-- packages/fiber-method/src/index.ts: the names of states, modes and networks.
use fiber_paid_http.Prelude.{
  Text, text, ◌==◌, Bool, true, false, ◌||◌, Option, none, some, lower, if◌then◌else◌, Result, ok,
  err, plain_error, ◌++◌, fail_with,
}
use fiber_paid_http.Core.Types.{FiberNetwork, mainnet, testnet, dev}

pub data FiberMode : Type 0 where
  local_mode testnet_mode : FiberMode

unfoldable pub parse_fiber_mode : Option Text → Result FiberMode
parse_fiber_mode none = err (plain_error (text "FIBER_MODE must be set to local or testnet"))
parse_fiber_mode (some value) =
    if value == text "local"
    then ok local_mode
    else (if value == text "testnet"
        then ok testnet_mode
        else err (plain_error (text "FIBER_MODE must be set to local or testnet")))

-- `mode === "testnet" ? "testnet" : "dev"`
abbrev pub network_of_mode : FiberMode → FiberNetwork
network_of_mode local_mode = dev
network_of_mode testnet_mode = testnet

abbrev pub same_network : FiberNetwork → FiberNetwork → Bool
same_network mainnet mainnet = true
same_network testnet testnet = true
same_network dev dev = true
same_network _ _ = false

-- A status is none where the member is no string.
abbrev pub is_settled_status : Option Text → Bool
is_settled_status none = false
is_settled_status (some value) =
    lower value == text "settled"
    || lower value == text "success"
    || lower value == text "succeeded"
    || lower value == text "paid"

abbrev pub is_payment_success_status : Option Text → Bool
is_payment_success_status none = false
is_payment_success_status (some value) = value == text "Success"

abbrev pub is_invoice_paid_status : Option Text → Bool
is_invoice_paid_status none = false
is_invoice_paid_status (some value) = value == text "Paid"

pub data PaymentState : Type 0 where
  settled_state pending_state failed_state : PaymentState

abbrev is_failure_status : Option Text → Bool
is_failure_status none = false
is_failure_status (some value) =
    lower value == text "failed"
    || lower value == text "failure"
    || lower value == text "cancelled"
    || lower value == text "expired"

unfoldable pub normalize_fiber_payment_status : Option Text → PaymentState
normalize_fiber_payment_status value =
    if is_settled_status value
    then settled_state
    else (if is_failure_status value then failed_state else pending_state)

unfoldable pub fiber_network_from_currency : Text → Result FiberNetwork
fiber_network_from_currency currency =
    if lower currency == text "fibb"
    then ok mainnet
    else (if lower currency == text "fibt"
        then ok testnet
        else (if lower currency == text "fibd"
            then ok dev
            else err (
                fail_with (text "wrong-network")
                  (text "Unknown Fiber invoice currency " ++ currency) 402)))
