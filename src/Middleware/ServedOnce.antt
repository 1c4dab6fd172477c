-- ===== src/Middleware/ServedOnce.antt =====
-- Under every schedule the handler runs at most once for each redemption.
use fiber_paid_http.Prelude.{
  ℕ, zero, suc, ◌+◌, ◌≤◌, ◌≡◌, refl, ap, Text, ◌==◌, true, false, List, [], ◌∷◌, if◌then◌else◌,
  arith, Result, ok, err, Bool-cases, inl, inr,
}
use fiber_paid_http.Core.Types.{Settlement}
use fiber_paid_http.Core.Runtime.{Runtime}
use fiber_paid_http.Core.Resource.{HttpRequest}
use fiber_paid_http.Tables.{count, count-le-one, count-append}
use fiber_paid_http.Storage.Invariant.{IsWellFormed}
use fiber_paid_http.Storage.Redemption.{consume-IsWellFormed, consume_success, consume_failure}
use fiber_paid_http.Storage.{
  RedemptionRecord, Database, consume_redemption, redeemed_id, redeemed_credential,
  redeemed_payment,
}
use fiber_paid_http.Middleware.Config.{Gateway, PaidRouteConfig}
use fiber_paid_http.Middleware.Verify.{
  VerifiedRedemption, Checked, redemption_of, redeem, replay, verified,
}
use fiber_paid_http.Middleware.Protect.{
  Phase, arrived, issuing, verifying, redeemed, handling, recorded, receipted, finished, Answer,
  settle, redeemed_phase, advance,
}
use fiber_paid_http.Middleware.Steps.{
  Quiet, is_redeemed, issue_challenge-Keeps, observe-Keeps, deliver-Quiet, give_receipt-Quiet,
  respond-Quiet, refuse-quiet, arrive-quiet,
}
use fiber_paid_http.Middleware.Schedule.{
  World, Event, accepts, resumes, called, resume, handle, serve, opened, served_challenge,
  served_payment, served_credential,
}

module _ (rt : Runtime) (gateway : Gateway) (route : PaidRouteConfig)
    (key : VerifiedRedemption → Text) (row_key : RedemptionRecord → Text)
    (same : (checked : Checked) (settlement : Settlement) (now : ℕ)
      → row_key (redemption_of rt gateway checked settlement now)
        ≡ key (verified rt gateway checked settlement))
    (k : Text) where
  -- the redemptions of `k` that are held for a call of the handler
  abbrev claim : Phase → ℕ
  claim (redeemed request v now) = if key v == k then 1 else 0
  claim _ = 0

  claims : List Phase → ℕ
  claims [] = 0
  claims (p ∷ phases) = claim p + claims phases

  claim_of_quiet : (p : Phase) → is_redeemed p ≡ false → claim p ≡ 0
  claim_of_quiet (redeemed request v now) h = absurd (cc)
  claim_of_quiet _ h = refl

  -- What a step adds to the claims and to the calls is covered by the redemptions.
  record IsCovered (db : Database) (p : Phase) (out : Database × Phase) : Type 0 where
    valid : IsWellFormed db → IsWellFormed out.0
    covered :
        count row_key k db.redemptions + claim out.1 + count key k (called p)
        ≤ count row_key k out.0.redemptions + claim p

  Quiet-IsCovered :
      (db : Database) (p : Phase) (out : Database × Phase)
      → count key k (called p) ≤ claim p
      → Quiet db out
      → IsCovered db p out
  Quiet-IsCovered db p out h q = record {
    valid = q.kept.valid;
    covered =
        omega (arith, ap (count row_key k) q.kept.redemptions, claim_of_quiet out.1 q.no_claim);
  }

  won_lem :
      (r : RedemptionRecord) (db : Database)
      → (consume_redemption r db).1 ≡ true
      → count row_key k (consume_redemption r db).0.redemptions
        ≡ (if row_key r == k then 1 else 0) + count row_key k db.redemptions
  unfolding count
  won_lem r db won = rw (consume_success r db won) (ground arith)

  redeem-IsCovered :
      (request : HttpRequest) (checked : Checked) (settlement : Settlement) (db : Database)
      (now : ℕ)
      → IsCovered db (verifying request checked) (
          redeemed_phase rt gateway route request now (redeem rt gateway checked settlement db now))
  unfolding redeem count
  redeem-IsCovered request checked settlement db now =
      let r = redemption_of rt gateway checked settlement now in
      elim (Bool-cases (consume_redemption r db).1) [
        | inl won ↦ rw won (record {
          valid = consume-IsWellFormed r db;
          covered =
              let counted = won_lem r db won in
              let same_key = same checked settlement now in ground (arith, counted, same_key);
        })
        | inr lost ↦ rw lost (record {
          valid = consume-IsWellFormed r db;
          covered = omega (
            arith,
            ap (λ (d : Database). count row_key k d.redemptions) (consume_failure r db lost),
            claim_of_quiet _ (refuse-quiet rt gateway route request now replay),
          );
        })
      ]

  settle-IsCovered :
      (request : HttpRequest) (checked : Checked) (settled : Result Settlement) (db : Database)
      (now : ℕ)
      → IsCovered db
          (verifying request checked)
          (settle rt gateway route request checked settled db now)
  unfolding settle count
  settle-IsCovered request checked (ok settlement) db now =
      redeem-IsCovered request checked settlement db now
  settle-IsCovered request checked (err e) db now = record {
    valid = λ v. v;
    covered = omega (arith, claim_of_quiet _ (refuse-quiet rt gateway route request now e));
  }

  advance-IsCovered :
      (a : Answer) (db : Database) (p : Phase) → IsCovered db p (advance rt gateway route a db p)
  unfolding advance count
  advance-IsCovered a db (arrived request) = record {
    valid = λ v. v;
    covered = omega (arith, claim_of_quiet _ (arrive-quiet rt gateway route request db a.now));
  }
  advance-IsCovered a db (issuing request now) = record {
    valid = (issue_challenge-Keeps rt gateway route request now a.created db).valid;
    covered = omega (
      arith,
      ap (count row_key k)
          (issue_challenge-Keeps rt gateway route request now a.created db).redemptions,
    );
  }
  advance-IsCovered a db (verifying request checked) =
      settle-IsCovered request checked a.settled db a.now
  advance-IsCovered a db (redeemed request v now) = record {
    valid = (observe-Keeps rt gateway route v db now).valid;
    covered =
        ground (arith, ap (count row_key k) (observe-Keeps rt gateway route v db now).redemptions);
  }
  advance-IsCovered a db (handling v) =
      Quiet-IsCovered db (handling v) _ (omega arith)
        (deliver-Quiet rt gateway route v a.upstream db a.now)
  advance-IsCovered a db (recorded v upstream receipt) =
      Quiet-IsCovered db (recorded v upstream receipt) _ (omega arith)
        (give_receipt-Quiet rt gateway route v upstream receipt db a.now)
  advance-IsCovered a db (receipted v upstream receipt) =
      Quiet-IsCovered db (receipted v upstream receipt) _ (omega arith)
        (respond-Quiet rt gateway route v upstream receipt db a.now)
  advance-IsCovered a db (finished reply) = record { valid = λ v. v; covered = omega arith }

  -- The calls of the handler and the claims to it are covered by the stored redemptions; `n` counts
  -- the claims of requests that are not looked at.
  record IsAccounted (n : ℕ) (phases : List Phase) (w : World) : Type 0 where
    valid : IsWellFormed w.db
    covered : count key k w.served + claims phases + n ≤ count row_key k w.db.redemptions

  resume-IsAccounted :
      (i : ℕ) (a : Answer) (w : World) (phases : List Phase) (n : ℕ)
      → w.phases ≡ phases
      → IsAccounted n phases w
      → IsAccounted n
          (resume rt gateway route i a w phases).phases
          (resume rt gateway route i a w phases)
  unfolding resume claims
  resume-IsAccounted i a w [] n e h = record {
    valid = h.valid;
    covered = omega (arith, h.covered, ap claims e);
  }
  resume-IsAccounted zero a w (p ∷ phases) n e h =
      let step = advance-IsCovered a w.db p in
      record {
        valid = step.valid h.valid;
        covered = omega (arith, h.covered, step.covered, count-append key k (called p) w.served);
      }
  resume-IsAccounted (suc i) a w (p ∷ phases) n e h =
      let rest =
        resume-IsAccounted i a (record w { phases = phases }) phases (n + claim p) refl
          (record { valid = h.valid; covered = omega (arith, h.covered) }) in
      record { valid = rest.valid; covered = omega (arith, rest.covered) }

  handle-IsAccounted :
      (w : World) (e : Event)
      → IsAccounted 0 w.phases w
      → IsAccounted 0 (handle rt gateway route w e).phases (handle rt gateway route w e)
  unfolding handle claims
  handle-IsAccounted w (accepts request) h = record {
    valid = h.valid;
    covered = omega (arith, h.covered);
  }
  handle-IsAccounted w (resumes i a) h = resume-IsAccounted i a w w.phases 0 refl h

  serve-IsAccounted :
      (w : World) (events : List Event)
      → IsAccounted 0 w.phases w
      → IsAccounted 0 (serve rt gateway route w events).phases (serve rt gateway route w events)
  unfolding serve
  serve-IsAccounted w [] h = h
  serve-IsAccounted w (e ∷ events) h =
      serve-IsAccounted (handle rt gateway route w e) events (handle-IsAccounted w e h)

  -- The handler was called at most as often as a redemption is stored.
  served-le-redeemed :
      (db : Database) (events : List Event)
      → IsWellFormed db
      → (count key k (serve rt gateway route (opened db) events).served
          ≤ count row_key k (serve rt gateway route (opened db) events).db.redemptions)
        × IsWellFormed (serve rt gateway route (opened db) events).db
  unfolding claims count
  served-le-redeemed db events v =
      let h = serve-IsAccounted (opened db) events (record { valid = v; covered = omega arith }) in
      (omega (arith, h.covered), h.valid)

-- Under every schedule of requests, from a well-formed database and with no request under way, the
-- handler is called at most once for each challenge, at most once for each payment hash and at most
-- once for each credential, and only if a redemption of that challenge is stored.
pub served_once :
    (rt : Runtime) (gateway : Gateway) (route : PaidRouteConfig) (db : Database)
    (events : List Event) (k : Text)
    → IsWellFormed db
    → (count served_challenge k (serve rt gateway route (opened db) events).served ≤ 1)
      × (count served_payment k (serve rt gateway route (opened db) events).served ≤ 1)
      × (count served_credential k (serve rt gateway route (opened db) events).served ≤ 1)
      × (count served_challenge k (serve rt gateway route (opened db) events).served
          ≤ count redeemed_id k (serve rt gateway route (opened db) events).db.redemptions)
served_once rt gateway route db events k v =
    let (by_id, w) =
      served-le-redeemed rt gateway route served_challenge redeemed_id (λ c s now. refl) k db events
        v in
    let (by_payment, w2) =
      served-le-redeemed rt gateway route served_payment redeemed_payment (λ c s now. refl) k db
        events v in
    let (by_credential, w3) =
      served-le-redeemed rt gateway route served_credential redeemed_credential (λ c s now. refl) k
        db events v in
    let rows = (serve rt gateway route (opened db) events).db.redemptions in
    (
      omega (arith, by_id, count-le-one redeemed_id k rows w.redeemed_ids),
      omega (arith, by_payment, count-le-one redeemed_payment k rows w.payments),
      omega (arith, by_credential, count-le-one redeemed_credential k rows w.credentials),
      by_id,
    )
