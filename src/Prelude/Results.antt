-- ===== src/Prelude/Results.antt =====
-- Exceptions as values. packages/core/src/errors.ts: `FiberPaidHttpError` carries a code and an HTTP
-- status; any other `Error` carries its message alone.
use Prim.Native.Nat.{ℕ}
use mathlib.Core.Path.{◌≡◌, refl}
use mathlib.Core.Bool.{Bool, true, false}
use fiber_paid_http.Prelude.Texts.{Text}

pub record FiberPaidHttpError : Type 0 where
  pub code : Text
  pub message : Text
  pub status : ℕ

pub data Failure : Type 0 where
  http_error : FiberPaidHttpError → Failure
  plain_error : Text → Failure

pub data Result {ℓ} (Value : Type ℓ) : Type ℓ where
  ok : Value → Result Value
  err : Failure → Result Value

-- The code after a call that may throw.
infixl 5 ◌>>=◌ ◌>>◌
abbrev pub ◌>>=◌ {ℓ κ} :
    {Value : Type ℓ} {Next : Type κ} → Result Value → (Value → Result Next) → Result Next
err failure >>= next = err failure
ok value >>= next = next value

abbrev pub ◌>>◌ {ℓ} : {Next : Type ℓ} → Result (Unit {0}) → Result Next → Result Next
done >> next = done >>= λ _. next

-- `if (!test) throw e`
abbrev pub ensure : Bool → Failure → Result (Unit {0})
ensure true e = ok tt
ensure false e = err e

abbrev pub fail_with : Text → Text → ℕ → Failure
fail_with code message status =
    http_error (record { code = code; message = message; status = status })

-- A chain that returns went through its first call.
pub returned {ℓ κ} :
    {Value : Type ℓ} {Next : Type κ} (next : Value → Result Next) (call : Result Value) {out : Next}
    → (call >>= next) ≡ ok out
    → (value : Value) × (call ≡ ok value) × (next value ≡ ok out)
returned next (err failure) e = absurd cc
returned next (ok value) e = (value, refl, e)

pub passed {ℓ} :
    {Next : Type ℓ} (test : Bool) (failure : Failure) (next : Result Next) {out : Next}
    → (ensure test failure >> next) ≡ ok out
    → (test ≡ true) × (next ≡ ok out)
passed false failure next e = absurd cc
passed true failure next e = (refl, e)

-- A chain whose first call returns goes on with what it returned.
pub goes_on {ℓ κ} :
    {Value : Type ℓ} {Next : Type κ} (next : Value → Result Next) {call : Result Value}
    {value : Value} {out : Result Next}
    → call ≡ ok value
    → next value ≡ out
    → (call >>= next) ≡ out
goes_on next e rest = rw e rest

pub goes_past {ℓ} :
    {Next : Type ℓ} {test : Bool} (failure : Failure) (next : Result Next) {out : Result Next}
    → test ≡ true
    → next ≡ out
    → (ensure test failure >> next) ≡ out
goes_past failure next e rest = rw e rest
