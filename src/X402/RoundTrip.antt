-- ===== src/X402/RoundTrip.antt =====
-- packages/x402-compat/src/index.ts: a charge as x402 requirements and back.
use fiber_paid_http.Prelude.{
  ℕ, ◌≡◌, sym, ap, ◌∙◌, subst, arith, Text, true, Option, none, some, [], ◌∷◌, lower, ok, returned,
}
use fiber_paid_http.Core.Types.{FiberChargeRequest}
use fiber_paid_http.Core.Runtime.{Runtime}
use fiber_paid_http.Core.Schemas.{is_charge_request, parse_charge_request}
use fiber_paid_http.X402.Types.{X402FiberRequirements, parse_x402_requirements}
use fiber_paid_http.X402.Conversion.{
  required_recipient, requirements_for, fiber_charge_to_x402_requirements,
}

required_recipient_lem : (o : Option Text) (r : Text) → required_recipient o ≡ ok r → o ≡ some r
required_recipient_lem none r h = absurd cc
required_recipient_lem (some []) r h = absurd cc
required_recipient_lem (some (c ∷ s)) r h = let same : c ∷ s ≡ r = cc in ap some same

-- A charge with its currency in lower case.
abbrev pub lower_currency : FiberChargeRequest → FiberChargeRequest
lower_currency charge = record charge { currency = lower charge.currency }

module _ (rt : Runtime) where
  parse_charge_lem :
      (r parsed : FiberChargeRequest)
      → parse_charge_request rt r ≡ ok parsed
      → (parsed ≡ r) × (is_charge_request rt r ≡ true)
  unfolding parse_charge_request
  parse_charge_lem r parsed h = ground arith

  parse_requirements_lem :
      (r parsed : X402FiberRequirements)
      → parse_x402_requirements rt r ≡ ok parsed
      → (parsed ≡ r) × (parse_x402_requirements rt r ≡ ok r)
  unfolding parse_x402_requirements
  parse_requirements_lem r parsed h = ground arith

  -- What is known of the requirements of a charge.
  pub record IsRequired (charge : FiberChargeRequest) (n : ℕ) (req : X402FiberRequirements)
      : Type 0 where
    pub recipient : Text
    pub has_recipient : charge.recipient ≡ some recipient
    pub allowed : is_charge_request rt charge ≡ true
    pub made : req ≡ requirements_for rt charge recipient n
    pub valid : parse_x402_requirements rt req ≡ ok req

  pack :
      (charge c : FiberChargeRequest) (n : ℕ) (req : X402FiberRequirements) (r : Text)
      → parse_charge_request rt charge ≡ ok c
      → required_recipient c.recipient ≡ ok r
      → parse_x402_requirements rt (requirements_for rt c r n) ≡ ok req
      → IsRequired charge n req
  pack charge c n req r h k last =
      let (same, allowed) = parse_charge_lem charge c h in
      let (made, valid) = parse_requirements_lem (requirements_for rt c r n) req last in
      record {
        recipient = r;
        has_recipient = ap (λ x. x.recipient) (sym same) ∙ required_recipient_lem c.recipient r k;
        allowed = allowed;
        made = made ∙ ap (λ x. requirements_for rt x r n) same;
        valid = subst (λ x. parse_x402_requirements rt x ≡ ok x) (sym made) valid;
      }

  pub requirements-IsRequired :
      (charge : FiberChargeRequest) (n : ℕ) (req : X402FiberRequirements)
      → fiber_charge_to_x402_requirements rt charge n ≡ ok req
      → IsRequired charge n req
  unfolding fiber_charge_to_x402_requirements
  requirements-IsRequired charge n req h =
      let (c, h0, h1) = returned _ (parse_charge_request rt charge) h in
      let (r, h2, last) = returned _ (required_recipient c.recipient) h1 in
      pack charge c n req r h0 h2 last
