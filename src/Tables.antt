-- ===== src/Tables.antt =====
-- Tables of the SQLite database as lists of rows, newest first, with a text key for each row. The
-- constraints PRIMARY KEY and UNIQUE are tests on such keys.
use fiber_paid_http.Prelude.{
  ℕ, suc, ◌≤◌, ◌≡◌, refl, Text, ◌==◌, ==_iff, Bool, true, false, ◌||◌, Option, none, some, List, [],
  ◌∷◌, ◌++◌, ◌+◌, if◌then◌else◌, arith, ◌≢◌, Bool-cases, inl, inr,
}

module _ {A : Type 0} (key : A → Text) where
  -- does a row with this key exist
  unfoldable pub has : Text → List A → Bool
  has k [] = false
  has k (r ∷ rows) = key r == k || has k rows

  -- `SELECT … WHERE key = ?` and `.get`: the first row that fits
  unfoldable pub find : Text → List A → Option A
  find k [] = none
  find k (r ∷ rows) = if key r == k then some r else find k rows

  -- `DELETE … WHERE key = ?`, the first half of `INSERT OR REPLACE`
  unfoldable pub remove : Text → List A → List A
  remove k [] = []
  remove k (r ∷ rows) = let rest = remove k rows in if key r == k then rest else r ∷ rest

  -- the number of rows with this key
  unfoldable pub count : Text → List A → ℕ
  count k [] = 0
  count k (r ∷ rows) = if key r == k then suc (count k rows) else count k rows

  -- no two rows share the key
  abbrev pub Unique : List A → Type 0
  Unique [] = Unit {0}
  Unique (r ∷ rows) = (has (key r) rows ≡ false) × Unique rows

  pub find_of_has :
      (k : Text) (rows : List A) → has k rows ≡ true → (r : A) × (find k rows ≡ some r)
  unfolding has find
  find_of_has k [] h = absurd (cc)
  find_of_has k (r ∷ rows) h = elim (Bool-cases (key r == k)) [
    | inl hit ↦ (r, rw hit)
    | inr miss ↦ let (found, e) = find_of_has k rows (ground arith) in (found, rw miss e)
  ]

  pub has_of_find : (k : Text) (rows : List A) {r : A} → find k rows ≡ some r → has k rows ≡ true
  unfolding has find
  has_of_find k [] {r} h = cc
  has_of_find k (x ∷ rows) {r} h = ground (arith, has_of_find k rows {r = r})

  pub find-none_of_has : (k : Text) (rows : List A) → has k rows ≡ false → find k rows ≡ none
  unfolding has find
  find-none_of_has k [] h = refl
  find-none_of_has k (r ∷ rows) h = ground (arith, find-none_of_has k rows)

  pub key-find : (k : Text) (rows : List A) {r : A} → find k rows ≡ some r → key r ≡ k
  unfolding find
  key-find k [] {r} h = cc
  key-find k (x ∷ rows) {r} h = ground (arith, ==_iff (key x) k, key-find k rows {r = r})

  pub count_of_has-false : (k : Text) (rows : List A) → has k rows ≡ false → count k rows ≡ 0
  unfolding has count
  count_of_has-false k [] h = refl
  count_of_has-false k (r ∷ rows) h = ground (arith, count_of_has-false k rows)

  pub count-le-one : (k : Text) (rows : List A) → Unique rows → count k rows ≤ 1
  unfolding count
  count-le-one k [] u = omega arith
  count-le-one k (r ∷ rows) u =
      ground (arith, ==_iff (key r) k, count_of_has-false k rows, count-le-one k rows)

  pub has-false-remove_self : (k : Text) (rows : List A) → has k (remove k rows) ≡ false
  unfolding has remove
  has-false-remove_self k [] = refl
  has-false-remove_self k (r ∷ rows) = ground (arith, has-false-remove_self k rows)

  pub has-false-remove :
      (j k : Text) (rows : List A) → has j rows ≡ false → has j (remove k rows) ≡ false
  unfolding has remove
  has-false-remove j k [] h = refl
  has-false-remove j k (r ∷ rows) h = ground (arith, has-false-remove j k rows)

  pub remove-Unique : (k : Text) (rows : List A) → Unique rows → Unique (remove k rows)
  unfolding remove
  remove-Unique k [] u = tt
  remove-Unique k (r ∷ rows) u =
      ground (arith, has-false-remove (key r) k rows, remove-Unique k rows)

  pub find-remove_ne : (j k : Text) (rows : List A) → j ≢ k → find j (remove k rows) ≡ find j rows
  unfolding find remove
  find-remove_ne j k [] h = refl
  find-remove_ne j k (r ∷ rows) h =
      ground (arith, ==_iff (key r) j, ==_iff (key r) k, find-remove_ne j k rows)

  pub count-append : (k : Text) (xs ys : List A) → count k (xs ++ ys) ≡ count k xs + count k ys
  unfolding count
  count-append k [] ys = omega arith
  count-append k (x ∷ xs) ys = ground (arith, count-append k xs ys)
