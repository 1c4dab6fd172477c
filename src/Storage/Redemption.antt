-- ===== src/Storage/Redemption.antt =====
-- `consumeRedemption`: when the transaction commits, and what it leaves.
use fiber_paid_http.Prelude.{
  ◌≡◌, ◌↔◌, Text, ◌==◌, ==_iff, ==_refl, Bool-cases, inl, inr, Bool, true, false, ◌&&◌, not, none,
  some, ◌∷◌, eqb, if◌then◌else◌, arith,
}
use fiber_paid_http.Tables.{has, find}
use fiber_paid_http.Storage.Challenges.{
  has-mark_consumed, mark_consumed-Unique, is_consumed-mark_consumed, changes_lem,
  changes_of_has-false, challenge_state_lem,
}
use fiber_paid_http.Storage.Invariant.{IsWellFormed}
use fiber_paid_http.Storage.{
  RedemptionRecord, Database, redeemed_id, redeemed_credential, redeemed_payment, outcome_id,
  pending_outcome, mark_consumed, changes, redemption_transaction, consume_redemption,
  get_redemption, consumed, issued, challenge_state,
}

-- The database that a committed transaction leaves.
abbrev pub redeemed_db : RedemptionRecord → Database → Database
redeemed_db r db = record db {
  challenges = mark_consumed r.challenge_id r.consumed_at db.challenges;
  redemptions = r ∷ db.redemptions;
  delivery_outcomes = pending_outcome r ∷ db.delivery_outcomes;
}

abbrev can_redeem : RedemptionRecord → Database → Bool
can_redeem r db =
    eqb (changes r.challenge_id db.challenges) 1
    && not (has redeemed_id r.challenge_id db.redemptions)
    && not (has redeemed_credential r.credential_hash db.redemptions)
    && not (has redeemed_payment r.payment_hash db.redemptions)
    && not (has outcome_id r.challenge_id db.delivery_outcomes)

module _ (r : RedemptionRecord) (db : Database) where
  transaction_lem :
      redemption_transaction r db ≡ (if can_redeem r db then some (redeemed_db r db) else none)
  unfolding redemption_transaction
  transaction_lem = ground (
    arith,
    has-mark_consumed r.challenge_id r.challenge_id r.consumed_at db.challenges,
    changes_of_has-false r.challenge_id db.challenges,
  )

  consume_lem :
      consume_redemption r db ≡ (if can_redeem r db then (redeemed_db r db, true) else (db, false))
  unfolding consume_redemption
  consume_lem = ground (arith, transaction_lem)

  pub consume_success :
      (consume_redemption r db).1 ≡ true → (consume_redemption r db).0 ≡ redeemed_db r db
  consume_success h = ground (arith, consume_lem)

  pub consume_failure : (consume_redemption r db).1 ≡ false → (consume_redemption r db).0 ≡ db
  consume_failure h = ground (arith, consume_lem)

  -- On a well-formed database a redemption commits exactly if its challenge is issued and not yet
  -- consumed, its credential and its payment were never redeemed, and the challenge has no delivery
  -- outcome.
  pub consume_iff :
      IsWellFormed db
      → ((consume_redemption r db).1 ≡ true) ↔ (
          (challenge_state r.challenge_id db ≡ issued)
          × (has redeemed_credential r.credential_hash db.redemptions ≡ false)
          × (has redeemed_payment r.payment_hash db.redemptions ≡ false)
          × (has outcome_id r.challenge_id db.delivery_outcomes ≡ false))
  consume_iff v = ground (
    arith,
    consume_lem,
    changes_lem r.challenge_id db.challenges v.ids,
    challenge_state_lem r.challenge_id db v.ids,
    v.consumed_iff r.challenge_id,
  )

  redeemed-IsWellFormed : IsWellFormed db → can_redeem r db ≡ true → IsWellFormed (redeemed_db r db)
  unfolding has
  redeemed-IsWellFormed v h = record {
    ids = mark_consumed-Unique r.challenge_id r.consumed_at db.challenges v.ids;
    redeemed_ids = (ground arith, v.redeemed_ids);
    credentials = (ground arith, v.credentials);
    payments = (ground arith, v.payments);
    references = v.references;
    receipt_challenges = v.receipt_challenges;
    observations = v.observations;
    outcomes = (ground arith, v.outcomes);
    consumed_iff = λ k. ground (
      arith,
      is_consumed-mark_consumed k r.challenge_id r.consumed_at db.challenges,
      v.consumed_iff k,
      ==_iff r.challenge_id k,
      changes_of_has-false r.challenge_id db.challenges,
    );
    receipt_keys = λ k e.
        ground
          (arith, has-mark_consumed k r.challenge_id r.consumed_at db.challenges, v.receipt_keys k);
    outcome_keys = λ k e. ground (
      arith,
      has-mark_consumed k r.challenge_id r.consumed_at db.challenges,
      v.outcome_keys k,
      ==_iff r.challenge_id k,
      changes_of_has-false r.challenge_id db.challenges,
    );
  }

  pub consume-IsWellFormed : IsWellFormed db → IsWellFormed (consume_redemption r db).0
  consume-IsWellFormed v = elim (Bool-cases (can_redeem r db)) [
    | inl able ↦ rw (consume_lem, able) (redeemed-IsWellFormed v able)
    | inr refused ↦ rw (consume_lem, refused) v
  ]

  -- After a committed redemption its challenge is consumed and no other challenge has changed state;
  -- the redemption can be read back, and the delivery outcome of its challenge is pending.
  pub consume_effect :
      (j : Text)
      → IsWellFormed db
      → (consume_redemption r db).1 ≡ true
      → (challenge_state j (consume_redemption r db).0
          ≡ (if j == r.challenge_id then consumed else challenge_state j db))
        × (get_redemption r.challenge_id (consume_redemption r db).0 ≡ some r)
        × (find outcome_id r.challenge_id (consume_redemption r db).0.delivery_outcomes
            ≡ some (pending_outcome r))
  unfolding get_redemption
  consume_effect j v h =
      let v' = consume-IsWellFormed v in
      let e = consume_success h in
      let w : IsWellFormed (redeemed_db r db) = rw e at v' in
      rw e (
        ground (
          arith,
          challenge_state_lem j (redeemed_db r db) w.ids,
          challenge_state_lem j db v.ids,
          is_consumed-mark_consumed j r.challenge_id r.consumed_at db.challenges,
          has-mark_consumed j r.challenge_id r.consumed_at db.challenges,
          ==_iff r.challenge_id j,
          ==_iff j r.challenge_id,
          changes_of_has-false r.challenge_id db.challenges,
          consume_lem,
        ),
        ground (arith, ==_refl r.challenge_id),
        ground (arith, ==_refl r.challenge_id),
      )
