-- ===== src/Middleware/Proxy/Body.antt =====
-- packages/server-middleware/src/index.ts: `readResponseBodyWithLimit`.
use fiber_paid_http.Prelude.{
  ℕ, ◌+◌, ◌≤◌, ◌≡◌, refl, sym, ap, ◌∙◌, arith, Text, text, true, false, Option, none, some, List,
  [], ◌∷◌, ◌++◌, length, length-append, append_assoc, append-nil, ltb, if◌then◌else◌, Bool-cases,
  inl, inr, Failure, Result, ok, err, fail_with,
}

abbrev pub too_large : Failure
too_large =
    fail_with (text "upstream-response-too-large")
      (text "Upstream response exceeds configured limit") 502

-- The chunks one after the other, as they are copied into the output.
unfoldable pub concatenated : List Text → Text
concatenated [] = []
concatenated (chunk ∷ chunks) = chunk ++ concatenated chunks

-- The loop: `kept` holds the chunks that were pushed, `total` their bytes.
unfoldable pub read_chunks : ℕ → ℕ → List Text → List Text → Result (List Text)
read_chunks limit total kept [] = ok kept
read_chunks limit total kept (value ∷ rest) =
    let total' = total + length value in
    let more = read_chunks limit total' (kept ++ value ∷ []) rest in
    if ltb limit total' then err too_large else more

abbrev joined : Result (List Text) → Result Text
joined (err e) = err e
joined (ok chunks) = ok (concatenated chunks)

unfoldable pub read_response_body_with_limit : ℕ → Option (List Text) → Result Text
unfolding read_chunks concatenated
read_response_body_with_limit limit none = ok []
read_response_body_with_limit limit (some chunks) = joined (read_chunks limit 0 [] chunks)

concatenated-push :
    (kept : List Text) (value : Text)
    → concatenated (kept ++ value ∷ []) ≡ concatenated kept ++ value
unfolding concatenated
concatenated-push [] value = append-nil value
concatenated-push (k ∷ kept) value =
    ap (λ s. k ++ s) (concatenated-push kept value) ∙ sym (append_assoc k (concatenated kept) value)

read_lem :
    (limit total : ℕ) (kept chunks : List Text)
    → total ≡ length (concatenated kept)
    → total ≤ limit
    → joined (read_chunks limit total kept chunks) ≡ (
        if ltb limit (total + length (concatenated chunks))
        then err too_large
        else ok (concatenated kept ++ concatenated chunks))
unfolding read_chunks concatenated
read_lem limit total kept [] e small =
    let fits : ltb limit (total + 0) ≡ false = ground arith in
    rw (fits, append-nil (concatenated kept)) refl
read_lem limit total kept (value ∷ rest) e small =
    let whole = length-append value (concatenated rest) in
    elim (Bool-cases (ltb limit (total + length value))) [
      | inl over ↦
          let all_over : ltb limit (total + length (value ++ concatenated rest)) ≡ true =
            ground (arith, whole) in
          rw (over, all_over) refl
      | inr under ↦
          let kept_bytes : total + length value ≡ length (concatenated (kept ++ value ∷ [])) =
            omega (
              arith,
              e,
              ap length (concatenated-push kept value),
              length-append (concatenated kept) value,
            ) in
          let sum : total + length value + length (concatenated rest)
              ≡ total + length (value ++ concatenated rest) =
            omega (arith, whole) in
          let bytes : concatenated (kept ++ value ∷ []) ++ concatenated rest
              ≡ concatenated kept ++ (value ++ concatenated rest) =
            ap (λ s. s ++ concatenated rest) (concatenated-push kept value)
            ∙ append_assoc (concatenated kept) value (concatenated rest) in
          let later =
            read_lem limit (total + length value) (kept ++ value ∷ []) rest kept_bytes
              (ground arith) in
          rw under (later ∙ rw (sum, bytes) refl)
    ]

-- Reading a body returns its bytes if they are within the limit, and is refused otherwise.
pub read_response_body_lem :
    (limit : ℕ) (chunks : List Text)
    → read_response_body_with_limit limit (some chunks) ≡ (
        if ltb limit (length (concatenated chunks))
        then err too_large
        else ok (concatenated chunks))
unfolding read_response_body_with_limit concatenated
read_response_body_lem limit chunks =
    let whole : 0 + length (concatenated chunks) ≡ length (concatenated chunks) = omega arith in
    read_lem limit 0 [] chunks refl (omega arith)
    ∙ ap (λ n. if ltb limit n then err too_large else ok (concatenated chunks)) whole
