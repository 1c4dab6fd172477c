-- ===== src/Core/Tokens/SameJson.antt =====
-- JSON values that differ at most in the order of the members of objects.
use fiber_paid_http.Prelude.{
  ◌≡◌, refl, ap, Text, ◌==◌, Bool, Option, none, some, Bool-cases, inl, inr, ok,
}
use fiber_paid_http.Core.JsonValue.{
  Json, null, boolean, number, string, array, object, Items, nil, item, Members, end, member,
}
use fiber_paid_http.Core.Encoding.{get, text_of, optional_text_of}

mutual
  pub data SameJson : Json → Json → Type 0 where
    same_null : SameJson null null
    same_boolean : (b : Bool) → SameJson (boolean b) (boolean b)
    same_number : (n : Text) → SameJson (number n) (number n)
    same_string : (s : Text) → SameJson (string s) (string s)
    same_array : (xs ys : Items) → SameItems xs ys → SameJson (array xs) (array ys)
    same_object :
        (m n : Members)
        → ((key : Text) → SameMember (get key m) (get key n))
        → SameJson (object m) (object n)

  pub data SameItems : Items → Items → Type 0 where
    same_nil : SameItems nil nil
    same_item :
        (v w : Json) (xs ys : Items)
        → SameJson v w
        → SameItems xs ys
        → SameItems (item v xs) (item w ys)

  pub data SameMember : Option Json → Option Json → Type 0 where
    neither : SameMember none none
    both : (v w : Json) → SameJson v w → SameMember (some v) (some w)

-- A value is the same as itself.
mutual
  unfolding get

  pub SameJson-refl : (v : Json) → SameJson v v
  SameJson-refl null = same_null
  SameJson-refl (boolean b) = same_boolean b
  SameJson-refl (number n) = same_number n
  SameJson-refl (string s) = same_string s
  SameJson-refl (array xs) = same_array xs xs (SameItems-refl xs)
  SameJson-refl (object m) = same_object m m (SameMember-refl m)

  SameItems-refl : (xs : Items) → SameItems xs xs
  SameItems-refl nil = same_nil
  SameItems-refl (item v xs) = same_item v v xs xs (SameJson-refl v) (SameItems-refl xs)

  SameMember-refl : (m : Members) (key : Text) → SameMember (get key m) (get key m)
  SameMember-refl end key = neither
  SameMember-refl (member k v rest) key = elim (Bool-cases (k == key)) [
    | inl hit ↦ rw hit (both v v (SameJson-refl v))
    | inr miss ↦ rw miss (SameMember-refl rest key)
  ]

-- The members of an object that is the same as another.
pub same_members :
    (m : Members) (w : Json)
    → SameJson (object m) w
    → (n : Members) × (w ≡ object n) × ((key : Text) → SameMember (get key m) (get key n))
same_members m w (same_object _ n h) = (n, refl, h)

same_text : (s : Text) (w : Json) → SameJson (string s) w → w ≡ string s
same_text s w (same_string _) = refl

-- A text member reads the same.
pub read_text :
    (s : Text) (o p : Option Json) → SameMember o p → o ≡ some (string s) → text_of p ≡ ok s
read_text s o p neither e = absurd cc
read_text s o p (both v w h) e =
    let v' : v ≡ string s = cc in let w' = same_text s w (rw v' at h) in rw w' refl

abbrev pub string_option : Option Text → Option Json
string_option none = none
string_option (some s) = some (string s)

-- An optional text member reads the same.
pub read_optional :
    (t : Option Text) (o p : Option Json)
    → SameMember o p
    → o ≡ string_option t
    → optional_text_of p ≡ ok t
read_optional none o p neither e = refl
read_optional none o p (both v w h) e = absurd cc
read_optional (some s) o p neither e = absurd cc
read_optional (some s) o p (both v w h) e =
    let v' : v ≡ string s = cc in let w' = same_text s w (rw v' at h) in rw w' refl

-- A member that is an object has the same members.
pub read_object :
    (m : Members) (o p : Option Json)
    → SameMember o p
    → o ≡ some (object m)
    → (n : Members) × (p ≡ some (object n)) × ((key : Text) → SameMember (get key m) (get key n))
read_object m o p neither e = absurd cc
read_object m o p (both v w h) e =
    let v' : v ≡ object m = cc in
    let (n, same, members) = same_members m w (rw v' at h) in (n, ap some same, members)

pub read_none : (o p : Option Json) → SameMember o p → o ≡ none → p ≡ none
read_none o p neither e = refl
read_none o p (both v w h) e = absurd cc
