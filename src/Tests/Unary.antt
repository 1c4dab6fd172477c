-- ===== src/Tests/Unary.antt =====
-- A base64url codec for the concrete platform: a number is its sixteenths, each an `A`, and the rest
-- as one of the letters from `a` to `p`.
use fiber_paid_http.Prelude.{
  ℕ, zero, suc, ◌+◌, ◌-◌, ◌*◌, ◌/◌, ◌%◌, ◌<◌, ◌≡◌, ◌∙◌, refl, ap, arith, Text, true, false, [], ◌∷◌,
  is_empty, eqb, if◌then◌else◌,
}
use fiber_paid_http.Core.Schemas.{all}
use fiber_paid_http.Core.Encoding.{is_base64url_char}

unfoldable pub sixteenths : ℕ → Text → Text
sixteenths zero s = s
sixteenths (suc q) s = b'A' ∷ sixteenths q s

unfoldable pub to_letters : Text → Text
unfolding sixteenths
to_letters [] = []
to_letters (n ∷ s) = sixteenths (n / 16) ((b'a' + n % 16) ∷ to_letters s)

unfoldable pub read_letters : ℕ → Text → Text
read_letters seen [] = []
read_letters seen (c ∷ s) =
    let more = read_letters (seen + 16) s in
    let next = read_letters 0 s in if eqb c b'A' then more else (seen + (c - b'a')) ∷ next

unfoldable pub of_letters : Text → Text
unfolding read_letters
of_letters s = read_letters 0 s

read-sixteenths :
    (seen q d : ℕ) (s : Text)
    → read_letters seen (sixteenths q ((b'a' + d) ∷ s)) ≡ (seen + q * 16 + d) ∷ read_letters 0 s
unfolding read_letters sixteenths
read-sixteenths seen zero d s = ground arith
read-sixteenths seen (suc q) d s =
    read-sixteenths (seen + 16) q d s ∙ ap (λ n. n ∷ read_letters 0 s) (omega arith)

pub of_letters-to_letters : (s : Text) → of_letters (to_letters s) ≡ s
unfolding to_letters of_letters read_letters
of_letters-to_letters [] = refl
of_letters-to_letters (n ∷ s) =
    let whole : 0 + n / 16 * 16 + n % 16 ≡ n = omega arith in
    rw (read-sixteenths 0 (n / 16) (n % 16) (to_letters s), whole, of_letters-to_letters s) refl

letters_sixteenths :
    (q d : ℕ) (s : Text)
    → d < 16
    → all is_base64url_char s ≡ true
    → all is_base64url_char (sixteenths q ((b'a' + d) ∷ s)) ≡ true
unfolding sixteenths
letters_sixteenths zero d s small h = ground arith
letters_sixteenths (suc q) d s small h = letters_sixteenths q d s small h

pub all-to_letters : (s : Text) → all is_base64url_char (to_letters s) ≡ true
unfolding to_letters
all-to_letters [] = refl
all-to_letters (n ∷ s) =
    letters_sixteenths (n / 16) (n % 16) (to_letters s) (omega arith) (all-to_letters s)

sixteenths_nonempty : (q d : ℕ) (s : Text) → is_empty (sixteenths q (d ∷ s)) ≡ false
unfolding sixteenths
sixteenths_nonempty zero d s = refl
sixteenths_nonempty (suc q) d s = refl

pub to_letters_nonempty : (s : Text) → is_empty s ≡ false → is_empty (to_letters s) ≡ false
unfolding to_letters
to_letters_nonempty [] h = absurd cc
to_letters_nonempty (n ∷ s) h = sixteenths_nonempty (n / 16) (b'a' + n % 16) (to_letters s)
