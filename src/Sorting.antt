-- ===== src/Sorting.antt =====
-- `ORDER BY` on text columns: SQLite's BINARY collation, and a sort of rows by it.
use mathlib.Core.List.{Perm}
use mathlib.Core.List.Perm
use fiber_paid_http.Prelude.{
  ◌≡◌, refl, Text, Bool, true, false, ◌&&◌, ◌||◌, List, [], ◌∷◌, if◌then◌else◌, ltb, eqb, arith,
  Bool-cases, inl, inr, All,
}

unfoldable pub text_le : Text → Text → Bool
text_le [] t = true
text_le (c ∷ s) [] = false
text_le (c ∷ s) (d ∷ t) = ltb c d || (eqb c d && text_le s t)

pub text_le_total : (s t : Text) → text_le s t ≡ false → text_le t s ≡ true
unfolding text_le
text_le_total [] t h = cc
text_le_total (c ∷ s) [] h = refl
text_le_total (c ∷ s) (d ∷ t) h = ground (arith, text_le_total s t)

pub text_le_trans : (s t u : Text) → text_le s t ≡ true → text_le t u ≡ true → text_le s u ≡ true
unfolding text_le
text_le_trans [] t u h k = refl
text_le_trans (c ∷ s) [] u h k = cc
text_le_trans (c ∷ s) (d ∷ t) [] h k = cc
text_le_trans (c ∷ s) (d ∷ t) (e ∷ u) h k = ground (arith, text_le_trans s t u)

-- A test on rows that orders them.
module _ {A : Type 0} (le : A → A → Bool) where
  unfoldable pub insert_row : A → List A → List A
  insert_row r [] = r ∷ []
  insert_row r (x ∷ rows) =
      let later = x ∷ insert_row r rows in if le r x then r ∷ x ∷ rows else later

  unfoldable pub order_by : List A → List A
  unfolding insert_row
  order_by [] = []
  order_by (r ∷ rows) = insert_row r (order_by rows)

  -- every row stands below the ones behind it
  abbrev pub Ordered : List A → Type 0
  Ordered [] = Unit {0}
  Ordered (r ∷ rows) = All (λ x. le r x ≡ true) rows × Ordered rows

  insert_row-perm : (r : A) (rows : List A) → Perm (insert_row r rows) (r ∷ rows)
  unfolding insert_row
  insert_row-perm r [] = Perm.refl (r ∷ [])
  insert_row-perm r (x ∷ rows) = elim (Bool-cases (le r x)) [
    | inl below ↦ rw below (Perm.refl _)
    | inr above ↦ rw above (Perm.trans (Perm.cons x (insert_row-perm r rows)) (Perm.swap r x rows))
  ]

  pub order_by-perm : (rows : List A) → Perm (order_by rows) rows
  unfolding order_by
  order_by-perm [] = Perm.refl []
  order_by-perm (r ∷ rows) =
      Perm.trans (insert_row-perm r (order_by rows)) (Perm.cons r (order_by-perm rows))

  insert_row-All :
      (P : A → Type 0) (r : A) (rows : List A) → P r → All P rows → All P (insert_row r rows)
  unfolding insert_row
  insert_row-All P r [] h a = (h, tt)
  insert_row-All P r (x ∷ rows) h a = elim (Bool-cases (le r x)) [
    | inl below ↦ rw below (h, a)
    | inr above ↦ rw above (a.0, insert_row-All P r rows h a.1)
  ]

  pub order_by-All : (P : A → Type 0) (rows : List A) → All P rows → All P (order_by rows)
  unfolding order_by
  order_by-All P [] a = tt
  order_by-All P (r ∷ rows) a = insert_row-All P r (order_by rows) a.0 (order_by-All P rows a.1)

  module _ (total : (x y : A) → le x y ≡ false → le y x ≡ true)
      (trans : (x y z : A) → le x y ≡ true → le y z ≡ true → le x z ≡ true) where
    All-below :
        (r x : A) (rows : List A)
        → le r x ≡ true
        → All (λ y. le x y ≡ true) rows
        → All (λ y. le r y ≡ true) rows
    All-below r x [] h a = tt
    All-below r x (y ∷ rows) h a = (trans r x y h a.0, All-below r x rows h a.1)

    All-insert_row :
        (b r : A) (rows : List A)
        → le b r ≡ true
        → All (λ y. le b y ≡ true) rows
        → All (λ y. le b y ≡ true) (insert_row r rows)
    unfolding insert_row
    All-insert_row b r [] h a = (h, tt)
    All-insert_row b r (x ∷ rows) h a = elim (Bool-cases (le r x)) [
      | inl below ↦ rw below (h, a)
      | inr above ↦ rw above (a.0, All-insert_row b r rows h a.1)
    ]

    insert_row-Ordered : (r : A) (rows : List A) → Ordered rows → Ordered (insert_row r rows)
    unfolding insert_row
    insert_row-Ordered r [] o = (tt, tt)
    insert_row-Ordered r (x ∷ rows) o = elim (Bool-cases (le r x)) [
      | inl below ↦ rw below ((below, All-below r x rows below o.0), o)
      | inr above ↦
          rw above (All-insert_row x r rows (total r x above) o.0, insert_row-Ordered r rows o.1)
    ]

    pub order_by-Ordered : (rows : List A) → Ordered (order_by rows)
    unfolding order_by
    order_by-Ordered [] = tt
    order_by-Ordered (r ∷ rows) = insert_row-Ordered r (order_by rows) (order_by-Ordered rows)
