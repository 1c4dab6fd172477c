-- ===== src/Tests/Postfix.antt =====
-- A JSON codec for the concrete platform: a value is written in postfix form, one number per step,
-- and read back on a stack.
use fiber_paid_http.Prelude.{
  ℕ, zero, suc, ◌≡◌, ◌∙◌, refl, ap, Text, Bool, true, false, Option, none, some, List, [], ◌∷◌,
  ◌++◌, is_empty,
}
use fiber_paid_http.Core.JsonValue.{
  Json, null, boolean, number, string, array, object, Items, nil, item, Members, end, member,
}

pub data Slot : Type 0 where
  a_text : Text → Slot
  a_value : Json → Slot
  some_items : Items → Slot
  some_members : Members → Slot

abbrev pub Stack : Type 0
Stack = List Slot

unfoldable pub pop_text : (Text → Slot) → Stack → Stack
pop_text f (a_text s ∷ st) = f s ∷ st
pop_text f st = st

unfoldable pub pop_items : Stack → Stack
pop_items (some_items xs ∷ st) = a_value (array xs) ∷ st
pop_items st = st

unfoldable pub pop_members : Stack → Stack
pop_members (some_members m ∷ st) = a_value (object m) ∷ st
pop_members st = st

unfoldable pub pop_item : Stack → Stack
pop_item (a_value v ∷ some_items xs ∷ st) = some_items (item v xs) ∷ st
pop_item st = st

unfoldable pub pop_member : Stack → Stack
pop_member (a_value v ∷ a_text k ∷ some_members m ∷ st) = some_members (member k v m) ∷ st
pop_member st = st

unfoldable pub steps : List (Stack → Stack)
unfolding pop_text pop_items pop_members pop_item pop_member
steps =
    (λ st. a_text [] ∷ st)
    ∷ (λ st. a_value (boolean false) ∷ st)
    ∷ (λ st. a_value (boolean true) ∷ st)
    ∷ (λ st. a_value null ∷ st)
    ∷ pop_text (λ s. a_value (number s))
    ∷ pop_text (λ s. a_value (string s))
    ∷ pop_items
    ∷ pop_members
    ∷ (λ st. some_items nil ∷ st)
    ∷ pop_item
    ∷ (λ st. some_members end ∷ st)
    ∷ pop_member
    ∷ []

-- A number beyond the steps is a character of the text on top.
unfoldable pub step_at : ℕ → List (Stack → Stack) → Stack → Stack
unfolding pop_text
step_at c [] st = pop_text (λ s. a_text (c ∷ s)) st
step_at zero (f ∷ fs) st = f st
step_at (suc c) (f ∷ fs) st = step_at c fs st

unfoldable pub run : Text → Stack → Stack
unfolding step_at
run [] st = st
run (c ∷ s) st = run s (step_at c steps st)

unfoldable pub finish : Stack → Option Json
finish (a_value v ∷ []) = some v
finish _ = none

unfoldable pub read : Text → Option Json
unfolding run finish
read s = finish (run s [])

unfoldable pub write_text : Text → Text
write_text [] = 0 ∷ []
write_text (c ∷ s) =
    write_text s ++ suc (suc (suc (suc (suc (suc (suc (suc (suc (suc (suc (suc c))))))))))) ∷ []

unfoldable pub write_bool : Bool → ℕ
write_bool false = 1
write_bool true = 2

unfoldable mutual
  unfolding write_text write_bool

  pub write : Json → Text
  write null = 3 ∷ []
  write (boolean b) = write_bool b ∷ []
  write (number s) = write_text s ++ 4 ∷ []
  write (string s) = write_text s ++ 5 ∷ []
  write (array xs) = write_items xs ++ 6 ∷ []
  write (object m) = write_members m ++ 7 ∷ []

  pub write_items : Items → Text
  write_items nil = 8 ∷ []
  write_items (item v xs) = write_items xs ++ (write v ++ 9 ∷ [])

  pub write_members : Members → Text
  write_members end = 10 ∷ []
  write_members (member k v rest) = write_members rest ++ (write_text k ++ (write v ++ 11 ∷ []))

run-append : (s t : Text) (st st' : Stack) → run s st ≡ st' → run (s ++ t) st ≡ run t st'
unfolding run
run-append [] t st st' h = ap (run t) h
run-append (c ∷ s) t st st' h = run-append s t (step_at c steps st) st' h

run-write_text : (s : Text) (st : Stack) → run (write_text s) st ≡ a_text s ∷ st
unfolding write_text run step_at pop_text steps
run-write_text [] st = refl
run-write_text (c ∷ s) st = run-append (write_text s) _ st _ (run-write_text s st)

mutual
  unfolding write write_items write_members write_bool run steps step_at pop_text pop_items
      pop_members pop_item pop_member

  run-write : (v : Json) (st : Stack) → run (write v) st ≡ a_value v ∷ st
  run-write null st = refl
  run-write (boolean false) st = refl
  run-write (boolean true) st = refl
  run-write (number s) st = run-append (write_text s) _ st _ (run-write_text s st)
  run-write (string s) st = run-append (write_text s) _ st _ (run-write_text s st)
  run-write (array xs) st = run-append (write_items xs) _ st _ (run-write_items xs st)
  run-write (object m) st = run-append (write_members m) _ st _ (run-write_members m st)

  run-write_items : (xs : Items) (st : Stack) → run (write_items xs) st ≡ some_items xs ∷ st
  run-write_items nil st = refl
  run-write_items (item v xs) st =
      run-append (write_items xs) (write v ++ 9 ∷ []) st _ (run-write_items xs st)
      ∙ run-append (write v) (9 ∷ []) (some_items xs ∷ st) _ (run-write v (some_items xs ∷ st))

  run-write_members : (m : Members) (st : Stack) → run (write_members m) st ≡ some_members m ∷ st
  run-write_members end st = refl
  run-write_members (member k v m) st =
      let with_name = a_text k ∷ some_members m ∷ st in
      run-append (write_members m) (write_text k ++ (write v ++ 11 ∷ [])) st _
        (run-write_members m st)
      ∙ run-append (write_text k) (write v ++ 11 ∷ []) (some_members m ∷ st) _
          (run-write_text k (some_members m ∷ st))
      ∙ run-append (write v) (11 ∷ []) with_name _ (run-write v with_name)

pub read-write : (v : Json) → read (write v) ≡ some v
unfolding read finish
read-write v = rw (run-write v []) refl

nonempty_of_read : (s : Text) (v : Json) → read s ≡ some v → is_empty s ≡ false
unfolding read finish run
nonempty_of_read [] v h = absurd cc
nonempty_of_read (c ∷ s) v h = refl

pub write_nonempty : (v : Json) → is_empty (write v) ≡ false
write_nonempty v = nonempty_of_read (write v) v (read-write v)
