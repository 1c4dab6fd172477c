-- ===== src/Core/Types.antt =====
-- packages/core/src/types.ts: the types that the zod schemas infer. An optional member is an
-- `Option`; `custom` holds a challenge's members beyond the named ones (`catchall`), `extra` those of
-- a credential (`passthrough`).
use fiber_paid_http.Prelude.{Text, Option, List}
use fiber_paid_http.Core.JsonValue.{Members}

pub record ResourceDescriptor : Type 0 where
  pub method : Text
  pub url : Text
  pub digest : Option Text
  pub content_type : Option Text

pub record FiberUdtTypeScript : Type 0 where
  pub code_hash : Text
  pub hash_type : Text
  pub args : Text

pub data FiberNetwork : Type 0 where
  mainnet testnet dev : FiberNetwork

pub data FiberHashAlgorithm : Type 0 where
  ckb_hash sha256 : FiberHashAlgorithm

pub record FiberChargeMethodDetails : Type 0 where
  pub invoice : Text
  pub payment_hash : Text
  pub network : FiberNetwork
  pub hash_algorithm : FiberHashAlgorithm
  pub invoice_currency : Option Text
  pub invoice_expires_at : Option Text
  pub invoice_udt_script : Option Text
  pub udt_type_script : Option FiberUdtTypeScript

pub record FiberChargeRequest : Type 0 where
  pub amount : Text
  pub currency : Text
  pub recipient : Option Text
  pub description : Option Text
  pub external_id : Option Text
  pub method_details : FiberChargeMethodDetails

pub record PaymentChallenge : Type 0 where
  pub id : Text
  pub realm : Text
  pub method : Text
  pub intent : Text
  pub request : Text
  pub expires : Option Text
  pub digest : Option Text
  pub description : Option Text
  pub opaque : Option Text
  pub custom : List (Text × Text)

pub record FiberCredentialPayload : Type 0 where
  pub payment_hash : Text
  pub extra : Members

pub record PaymentCredential : Type 0 where
  pub challenge : PaymentChallenge
  pub source : Option Text
  pub payload : FiberCredentialPayload
  pub extra : Members

pub data SettlementStatus : Type 0 where
  settled failed : SettlementStatus

pub record Settlement : Type 0 where
  pub status : SettlementStatus
  pub payment_hash : Option Text
  pub invoice_id : Option Text
  pub tx_hash : Option Text
  pub provider : Option Text
  pub observed_at : Text

pub record PaymentReceipt : Type 0 where
  pub status : Text
  pub method : Text
  pub timestamp : Text
  pub reference : Text
  pub challenge_id : Text
