-- ===== src/Lex/Total.antt =====
-- Every turn of the loop of crates/engine/src/lex.rs moves on, so that the loop ends.
use bydesigns_db.Base.{
  ℕ, zero, suc, ◌≤◌, ◌≡◌, refl, Bool, true, false, not, ◌||◌, ◌==◌, Bool-cases, Option, none, some,
  ◌⊎◌, inl, inr, List, [], ◌∷◌, ◌++◌, length, arith,
}
use bydesigns_db.Lex.{
  Tok, LexError, Lexed, skipped, token, failed, open_quote, open_backtick, simple_token, lex_lt,
  lex_operator, lex_pipe, lex_colon, lex_numparam, lex_closed, string_token, lex_string, lex_word,
  real_token, lex_number, lex_name, lex_other, simple_or, lex_token, lex_turn, emit, continue_with,
  lex_loop, lex,
}
use bydesigns_db.Lex.Bytes.{
  Text, tail, span_while, is_digit, begins_word, in_word, scan_string, push, sign, exponent,
}

span_shorter : (p : ℕ → Bool) (b : List ℕ) → length (span_while p b).1 ≤ length b
unfolding span_while
span_shorter p [] = omega arith
span_shorter p (c ∷ b) =
    let ih = span_shorter p b in
    elim (Bool-cases (p c)) [ inl e ↦ rw e (omega arith) | inr e ↦ rw e (omega arith) ]

tail_shorter : (b : List ℕ) → length (tail b) ≤ length b
tail_shorter [] = omega arith
tail_shorter (c ∷ b) = omega arith

-- How much is left.
abbrev left : {R : Type 0} → Lexed R → ℕ
left (skipped b) = length b
left (token t b) = length b
left (failed e) = 0

module _ (R : Type 0) where
  left-lex_lt : (b : List ℕ) → left (lex_lt {R = R} b) ≤ length b
  unfolding lex_lt
  left-lex_lt b = ground (arith, tail_shorter b, tail_shorter (tail b))

  left-lex_operator : (c : ℕ) (b : List ℕ) → left (lex_operator {R = R} c b) ≤ length b
  unfolding lex_operator
  left-lex_operator c b = ground (arith, left-lex_lt b, tail_shorter b)

  left-lex_pipe : (b : List ℕ) → left (lex_pipe {R = R} b) ≤ length b
  unfolding lex_pipe
  left-lex_pipe b = ground (arith, tail_shorter b)

  left-lex_colon : (b : List ℕ) → left (lex_colon {R = R} b) ≤ length b
  unfolding lex_colon
  left-lex_colon b = ground (arith, tail_shorter b, span_shorter in_word b)

  left-lex_numparam : (b : List ℕ) → left (lex_numparam {R = R} b) ≤ length b
  unfolding lex_numparam
  left-lex_numparam b = ground (arith, span_shorter is_digit b)

  left-lex_closed : (q : ℕ) (e : LexError) (b : List ℕ) → left (lex_closed {R = R} q e b) ≤ length b
  unfolding lex_closed
  left-lex_closed q e b =
      let p = λ (c : ℕ). not (c == q) in
      ground (arith, tail_shorter (span_while p b).1, span_shorter p b)

  left-push :
      (c n : ℕ) (o : Option (List ℕ × List ℕ))
      → left (string_token {R = R} o) ≤ n
      → left (string_token {R = R} (push c o)) ≤ n
  left-push c n none h = h
  left-push c n (some (s, b)) h = h

  left-scan_string :
      (quoted : Bool) (b : List ℕ) → left (string_token {R = R} (scan_string quoted b)) ≤ length b
  unfolding scan_string
  left-scan_string false [] = omega arith
  left-scan_string true [] = omega arith
  left-scan_string false (c ∷ b) = elim (Bool-cases (c == 39)) [
    | inl e ↦ rw e (omega (arith, left-scan_string true b))
    | inr e ↦
        rw e
          (omega (arith, left-push c (length b) (scan_string false b) (left-scan_string false b)))
  ]
  left-scan_string true (c ∷ b) = elim (Bool-cases (c == 39)) [
    | inl e ↦
        rw e
          (omega (arith, left-push c (length b) (scan_string false b) (left-scan_string false b)))
    | inr e ↦ rw e (omega arith)
  ]

  left-real_token : (o : Option R) (b : List ℕ) → left (real_token o b) ≤ length b
  left-real_token none b = omega arith
  left-real_token (some x) b = omega arith

sign_shorter : (b : List ℕ) → length (sign b).1 ≤ length b
unfolding sign
sign_shorter [] = omega arith
sign_shorter (c ∷ b) = ground arith

exponent_shorter : (b : List ℕ) → length (exponent b).1 ≤ length b
unfolding exponent
exponent_shorter [] = omega arith
exponent_shorter (c ∷ b) =
    let digits = span_shorter is_digit (sign b).1 in
    let unsigned = sign_shorter b in
    elim (Bool-cases (c == b'e' || c == b'E')) [
      | inl e ↦ rw e (omega arith)
      | inr e ↦ rw e (omega arith)
    ]

-- A byte that a span takes is gone from what is left.
span_moves :
    (p : ℕ → Bool) (c : ℕ) (b : List ℕ) → p c ≡ true → length (span_while p (c ∷ b)).1 ≤ length b
unfolding span_while
span_moves p c b e = rw e (span_shorter p b)

module _ {R : Type 0} (parse_real : Text → Option R) where
  left-lex_number :
      (c : ℕ) (b : List ℕ) → is_digit c ≡ true → left (lex_number parse_real (c ∷ b)) ≤ length b
  unfolding lex_number
  left-lex_number c b digit =
      let p = λ (x : ℕ). is_digit x || x == b'.' in
      let (mantissa, after) = span_while p (c ∷ b) in
      let moved = span_moves p c b (rw digit refl) in
      let ended = exponent_shorter after in
      let one =
        left-real_token R (parse_real (mantissa ++ (exponent after).0)) (exponent after).1 in
      let two = left-real_token R (parse_real mantissa) (exponent after).1 in ground arith

  left-lex_word :
      (c : ℕ) (b : List ℕ) → begins_word c ≡ true → left (lex_word {R = R} (c ∷ b)) ≤ length b
  unfolding lex_word
  left-lex_word c b e = span_moves in_word c b (begins-in_word c e)
    where
      begins-in_word : (c : ℕ) → begins_word c ≡ true → in_word c ≡ true
      begins-in_word c e = rw e refl

  left-lex_name : (c : ℕ) (b : List ℕ) → left (lex_name parse_real c b) ≤ length b
  unfolding lex_name
  left-lex_name c b = ground (
    arith,
    left-lex_closed R b'"' open_quote b,
    left-lex_closed R b'`' open_backtick b,
    left-lex_number c b,
    left-lex_word c b,
  )

  left-lex_other : (c : ℕ) (b : List ℕ) → left (lex_other parse_real c b) ≤ length b
  unfolding lex_other lex_string
  left-lex_other c b = elim (Bool-cases (c == b'<' || c == b'>' || c == b'!')) [
    | inl e ↦ rw e (left-lex_operator R c b)
    | inr e0 ↦ elim (Bool-cases (c == b'|')) [
      | inl e ↦ rw (e0, e) (left-lex_pipe R b)
      | inr e1 ↦ elim (Bool-cases (c == b':')) [
        | inl e ↦ rw (e0, e1, e) (left-lex_colon R b)
        | inr e2 ↦ elim (Bool-cases (c == b'$')) [
          | inl e ↦ rw (e0, e1, e2, e) (left-lex_numparam R b)
          | inr e3 ↦ elim (Bool-cases (c == 39)) [
            | inl e ↦ rw (e0, e1, e2, e3, e) (left-scan_string R false b)
            | inr e4 ↦ rw (e0, e1, e2, e3, e4) (left-lex_name c b)
          ]
        ]
      ]
    ]
  ]

  left-simple_or :
      (o : Option (Tok R)) (c : ℕ) (b : List ℕ) → left (simple_or parse_real o c b) ≤ length b
  left-simple_or none c b = left-lex_other c b
  left-simple_or (some t) c b = omega arith

  -- A turn leaves no more than what stands behind its first byte.
  pub left-lex_turn : (c : ℕ) (b : List ℕ) → left (lex_turn parse_real c b) ≤ length b
  unfolding lex_turn lex_token
  left-lex_turn c b =
      let line = span_moves (λ x. not (x == 10)) c b in
      ground
        (arith, line, left-simple_or (simple_token c) c b, tail_shorter b, tail_shorter (tail b))

  emit_ends :
      (t : Tok R) (o : Option (LexError ⊎ List (Tok R)))
      → (r : LexError ⊎ List (Tok R)) × (o ≡ some r)
      → (r : LexError ⊎ List (Tok R)) × (emit parse_real t o ≡ some r)
  emit_ends t none (r, e) = absurd (cc)
  emit_ends t (some (inl x)) h = (_, refl)
  emit_ends t (some (inr toks)) h = (_, refl)

  continue_ends :
      (fuel : ℕ) (x : Lexed R)
      → left x ≤ fuel
      → ((b : List ℕ)
          → length b ≤ fuel
          → (r : LexError ⊎ List (Tok R)) × (lex_loop parse_real fuel b ≡ some r))
      → (r : LexError ⊎ List (Tok R)) × (continue_with parse_real (lex_loop parse_real fuel) x
          ≡ some r)
  continue_ends fuel (token t b) h ih = emit_ends t (lex_loop parse_real fuel b) (ih b h)
  continue_ends fuel (skipped b) h ih = ih b h
  continue_ends fuel (failed e) h ih = (_, refl)

  -- As much fuel as there are bytes.
  loop_ends :
      (fuel : ℕ) (b : List ℕ)
      → length b ≤ fuel
      → (r : LexError ⊎ List (Tok R)) × (lex_loop parse_real fuel b ≡ some r)
  unfolding lex_loop
  loop_ends fuel [] h = (_, refl)
  loop_ends zero (c ∷ b) h = absurd (omega arith)
  loop_ends (suc fuel) (c ∷ b) h =
      let shorter = left-lex_turn c b in
      continue_ends fuel (lex_turn parse_real c b) (omega arith) (loop_ends fuel)

  -- The lexer ends on every text: with tokens, or with an error.
  pub lex_ends : (b : List ℕ) → (r : LexError ⊎ List (Tok R)) × (lex parse_real b ≡ some r)
  unfolding lex
  lex_ends b = loop_ends (length b) b (omega arith)
