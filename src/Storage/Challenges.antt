-- ===== src/Storage/Challenges.antt =====
-- The table of challenges under the UPDATE of `consumeRedemption`.
use fiber_paid_http.Prelude.{
  ◌≡◌, refl, Text, ◌==◌, ==_iff, ==_refl, Bool, false, ◌&&◌, ◌||◌, not, List, [], ◌∷◌,
  if◌then◌else◌, is_some, arith,
}
use fiber_paid_http.Tables.{has, find, Unique}
use fiber_paid_http.Storage.{
  ChallengeRecord, Database, id, mark_consumed, changes, unknown, issued, consumed, challenge_state,
  state_of,
}

-- Is some challenge with this id consumed?
unfoldable pub is_consumed : Text → List ChallengeRecord → Bool
is_consumed k [] = false
is_consumed k (row ∷ rows) =
    (row.challenge.id == k && is_some row.consumed_at) || is_consumed k rows

pub has-mark_consumed :
    (j k at : Text) (rows : List ChallengeRecord)
    → has id j (mark_consumed k at rows) ≡ has id j rows
unfolding has mark_consumed
has-mark_consumed j k at [] = refl
has-mark_consumed j k at (row ∷ rows) = ground (arith, has-mark_consumed j k at rows)

pub mark_consumed-Unique :
    (k at : Text) (rows : List ChallengeRecord)
    → Unique id rows
    → Unique id (mark_consumed k at rows)
unfolding mark_consumed
mark_consumed-Unique k at [] u = tt
mark_consumed-Unique k at (row ∷ rows) u =
    ground (arith, has-mark_consumed row.challenge.id k at rows, mark_consumed-Unique k at rows)

pub is_consumed_of_has-false :
    (k : Text) (rows : List ChallengeRecord) → has id k rows ≡ false → is_consumed k rows ≡ false
unfolding has is_consumed
is_consumed_of_has-false k [] h = refl
is_consumed_of_has-false k (row ∷ rows) h = ground (arith, is_consumed_of_has-false k rows)

pub changes_of_has-false :
    (k : Text) (rows : List ChallengeRecord) → has id k rows ≡ false → changes k rows ≡ 0
unfolding has changes
changes_of_has-false k [] h = refl
changes_of_has-false k (row ∷ rows) h = ground (arith, changes_of_has-false k rows)

-- With unique ids the UPDATE changes one row or none.
pub changes_lem :
    (k : Text) (rows : List ChallengeRecord)
    → Unique id rows
    → changes k rows ≡ (if has id k rows && not (is_consumed k rows) then 1 else 0)
unfolding has changes is_consumed
changes_lem k [] u = refl
changes_lem k (row ∷ rows) u = ground (
  arith,
  ==_iff row.challenge.id k,
  changes_of_has-false k rows,
  is_consumed_of_has-false k rows,
  changes_lem k rows,
)

pub is_consumed-mark_consumed :
    (j k at : Text) (rows : List ChallengeRecord)
    → is_consumed j (mark_consumed k at rows) ≡ (is_consumed j rows || (k == j && has id j rows))
unfolding has is_consumed mark_consumed
is_consumed-mark_consumed j k at [] = ground arith
is_consumed-mark_consumed j k at (row ∷ rows) = ground (
  arith,
  ==_iff row.challenge.id j,
  ==_iff row.challenge.id k,
  ==_iff k j,
  ==_refl k,
  is_consumed-mark_consumed j k at rows,
)

state_of-find :
    (k : Text) (rows : List ChallengeRecord)
    → Unique id rows
    → state_of (find id k rows)
      ≡ (if is_consumed k rows then consumed else (if has id k rows then issued else unknown))
unfolding find has is_consumed
state_of-find k [] u = refl
state_of-find k (row ∷ rows) u =
    ground (arith, ==_iff row.challenge.id k, is_consumed_of_has-false k rows, state_of-find k rows)

-- The abstract state, read off two tests.
pub challenge_state_lem :
    (k : Text) (db : Database)
    → Unique id db.challenges
    → challenge_state k db ≡ (
        if is_consumed k db.challenges
        then consumed
        else (if has id k db.challenges then issued else unknown))
unfolding challenge_state
challenge_state_lem k db u = state_of-find k db.challenges u
