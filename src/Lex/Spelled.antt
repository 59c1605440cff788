-- ===== src/Lex/Spelled.antt =====
-- The lexer of crates/engine/src/lex.rs on texts spelled from tokens.
use bydesigns_db.Base.{
  ℕ, zero, suc, ◌≤◌, ◌≡◌, ◌≢◌, refl, ap, ◌∙◌, Bool, true, false, not, ◌||◌, leb, ◌==◌,
  if◌then◌else◌, Bool-cases, ==_refl, le→leb, Option, some, inl, inr, List, [], ◌∷◌, ◌++◌,
  append-nil, append_assoc, length, length-append, All, All-append, arith,
}
use bydesigns_db.Lex.{
  Tok, word, num_param, eof, LexError, token, simple_token, lex_colon, lex_numparam, lex_closed,
  lex_string, lex_word, real_token, lex_number, lex_name, lex_other, lex_token, lex_turn, int,
  open_quote, open_backtick, emit, continue_with, lex_loop, lex,
}
use bydesigns_db.Lex.Bytes.{
  Text, span_while, is_digit, is_whitespace, in_word, value, scan_string, exponent, has_dot,
  max_int,
}
use bydesigns_db.Lex.Marks.{apart, Gives, at_word, at_digit, marks-Gives}
use bydesigns_db.Lex.Classes.{
  AllPass, begins_word-IsWordStart, in_word-IsWordByte, AllPass-digits, AllPass-word, value-decimal,
}
use bydesigns_db.Lex.Spelling.{
  doubled, Spells, a_mark, a_word, a_quoted, a_backtick, a_string, an_int, a_fraction, a_num_param,
  a_named_param, Statement, nothing, spelled,
}

span_stop :
    (p : ℕ → Bool) (s : Text) (d : ℕ) (b : List ℕ)
    → AllPass p s
    → p d ≡ false
    → span_while p (s ++ (d ∷ b)) ≡ (s, d ∷ b)
unfolding span_while
span_stop p [] d b pass stop = rw stop refl
span_stop p (c ∷ s) d b (here, pass) stop = rw (here, span_stop p s d b pass stop) refl

scan_doubled :
    (s : Text) (b : List ℕ) → scan_string false (doubled s ++ (39 ∷ 32 ∷ b)) ≡ some (s, 32 ∷ b)
unfolding scan_string doubled
scan_doubled [] b = refl
scan_doubled (c ∷ s) b = elim (Bool-cases (c == 39)) [
  | inl e ↦ rw (e, e, scan_doubled s b, e) refl
  | inr e ↦ rw (e, e, scan_doubled s b) refl
]

module _ {R : Type 0} (parse_real : Text → Option R) where
  closed_given :
      (q : ℕ) (e : LexError) (s : Text) (b : List ℕ)
      → All (λ c. c ≢ q) s
      → lex_closed {R = R} q e ((s ++ (q ∷ [])) ++ (32 ∷ b)) ≡ token (word s) (32 ∷ b)
  unfolding lex_closed
  closed_given q e s b h =
      let open_here =
        span_stop (λ c. not (c == q)) s q (32 ∷ b) (differ q s h) (rw (==_refl q) refl) in
      rw (append_assoc s (q ∷ []) (32 ∷ b), open_here) refl
    where
      differ : (q : ℕ) (s : Text) → All (λ c. c ≢ q) s → AllPass (λ c. not (c == q)) s
      differ q [] h = tt
      differ q (c ∷ s) (here, h) = (ground (arith, here), differ q s h)

  has_dot_digits : (s : Text) → AllPass is_digit s → has_dot s ≡ false
  unfolding has_dot is_digit
  has_dot_digits [] h = refl
  has_dot_digits (c ∷ s) (here, h) = ground (arith, has_dot_digits s h)

  has_dot_in : (s f : Text) → has_dot (s ++ (b'.' ∷ f)) ≡ true
  unfolding has_dot
  has_dot_in [] f = refl
  has_dot_in (c ∷ s) f = ground (arith, has_dot_in s f)

  in_mantissa : (s : Text) → AllPass is_digit s → AllPass (λ c. is_digit c || c == b'.') s
  in_mantissa [] h = tt
  in_mantissa (c ∷ s) (here, h) = (rw here refl, in_mantissa s h)

  -- A number of digits and dots with a space behind it.
  number_given :
      (m : Text) (b : List ℕ)
      → AllPass (λ c. is_digit c || c == b'.') m
      → lex_number parse_real (m ++ (32 ∷ b)) ≡ (
          if has_dot m
          then real_token (parse_real (m ++ [])) (32 ∷ b)
          else if leb (value m) max_int
          then token (int (value m)) (32 ∷ b)
          else real_token (parse_real m) (32 ∷ b))
  unfolding lex_number exponent
  number_given m b pass =
      rw (span_stop (λ c. is_digit c || c == b'.') m 32 b pass (unfold is_digit in refl))
        (elim (Bool-cases (has_dot m)) [ inl e ↦ rw e refl | inr e ↦ rw e refl ])

  pub Spells-Gives : (s : Text) (t : Tok R) → Spells parse_real s t → Gives parse_real s t
  unfolding lex_word lex_turn lex_token simple_token lex_other lex_name lex_colon lex_numparam
      lex_string is_whitespace
  Spells-Gives s t (a_mark x u h) = marks-Gives parse_real u x h
  Spells-Gives s t (a_word c x starts goes_on) = λ b.
      let first = begins_word-IsWordStart c starts in
      at_word parse_real c (x ++ (32 ∷ b)) first
      ∙ rw (span_stop in_word (c ∷ x) 32 b (AllPass-word (c ∷ x) (inl starts, goes_on)) refl) refl
  Spells-Gives s t (a_quoted x h) = λ b. closed_given b'"' open_quote x b h
  Spells-Gives s t (a_backtick x h) = λ b. closed_given b'`' open_backtick x b h
  Spells-Gives s t (a_string x) =
      λ b. rw (append_assoc (doubled x) (39 ∷ []) (32 ∷ b), scan_doubled x b) refl
  Spells-Gives s t (an_int c x starts goes_on le) = λ b.
      let digits = AllPass-digits (c ∷ x) (starts, goes_on) in
      let same = value-decimal (c ∷ x) in
      let small : value (c ∷ x) ≤ 9223372036854775807 = omega (arith, le, same) in
      at_digit parse_real c (x ++ (32 ∷ b)) digits.0
      ∙ number_given (c ∷ x) b (in_mantissa (c ∷ x) digits)
      ∙ rw (has_dot_digits (c ∷ x) digits, le→leb (value (c ∷ x)) max_int small)
          (ap (λ n. token (int n) (32 ∷ b)) same)
  Spells-Gives s t (a_fraction c x f r starts goes_on after reads) = λ b.
      let digits = AllPass-digits (c ∷ x) (starts, goes_on) in
      at_digit parse_real c ((x ++ (b'.' ∷ f)) ++ (32 ∷ b)) digits.0
      ∙ number_given ((c ∷ x) ++ (b'.' ∷ f)) b (
        rw digits.0 refl,
        All-append (λ y. (is_digit y || y == b'.') ≡ true) x (b'.' ∷ f) (in_mantissa x digits.1)
            (refl, in_mantissa f (AllPass-digits f after)),
      )
      ∙ rw (has_dot_in (c ∷ x) f, append-nil ((c ∷ x) ++ (b'.' ∷ f)), reads) refl
  Spells-Gives s t (a_num_param c x starts goes_on le) = λ b.
      let same = value-decimal (c ∷ x) in
      let small : value (c ∷ x) ≤ 18446744073709551615 = omega (arith, le, same) in
      rw
        (
          span_stop is_digit (c ∷ x) 32 b (AllPass-digits (c ∷ x) (starts, goes_on)) refl,
          le→leb (value (c ∷ x)) 18446744073709551615 small,
        )
        (ap (λ n. token (num_param n) (32 ∷ b)) same)
  Spells-Gives s t (a_named_param c x starts goes_on) = λ b.
      rw
        (
          span_stop in_word (c ∷ x) 32 b (AllPass-word (c ∷ x) (starts, goes_on)) refl,
          apart in_word c b':' (in_word-IsWordByte c starts) refl,
        )
        refl

  -- The loop on a token and a space.
  step_spelled :
      (fuel : ℕ) (s rest : Text) (t : Tok R) (more : List (Tok R))
      → Gives parse_real s t
      → length (s ++ (32 ∷ rest)) ≤ fuel
      → ((f : ℕ) → length rest ≤ f → lex_loop parse_real f rest ≡ some (inr more))
      → lex_loop parse_real fuel (s ++ (32 ∷ rest)) ≡ some (inr (t ∷ more))
  unfolding lex_loop lex_turn is_whitespace
  step_spelled fuel [] rest t more given h ih = absurd given
  step_spelled zero (c ∷ s) rest t more given h ih = absurd (omega arith)
  step_spelled (suc zero) (c ∷ s) rest t more given h ih =
      absurd (omega (arith, length-append s (32 ∷ rest)))
  step_spelled (suc (suc f)) (c ∷ s) rest t more given h ih =
      ap (continue_with parse_real (lex_loop parse_real (suc f))) (given rest)
      ∙ ap (emit parse_real t) (ih f (omega (arith, length-append s (32 ∷ rest))))

  -- The loop on a statement, with fuel for its bytes.
  loop_spelled :
      (fuel : ℕ) (b : Text) (toks : List (Tok R))
      → Statement parse_real b toks
      → length b ≤ fuel
      → lex_loop parse_real fuel b ≡ some (inr (toks ++ (eof ∷ [])))
  unfolding lex_loop
  loop_spelled fuel b toks nothing h = refl
  loop_spelled fuel b toks (spelled s rest t more spells statement) h =
      step_spelled fuel s rest t (more ++ (eof ∷ [])) (Spells-Gives s t spells) h
        (λ f le. loop_spelled f rest more statement le)

  -- The lexer on a statement that is spelled from tokens, each with a space behind it, gives exactly
  -- those tokens and the end of the text: every mark, also where one begins another; words of letters,
  -- digits and underscores that no digit begins, quoted and backtick names, strings with any bytes
  -- and doubled quotes; integers with their decimal value up to the greatest i64, fractions as the
  -- parser of reals reads them, and numbered and named parameters.
  pub lex-spelled :
      (b : Text) (toks : List (Tok R))
      → Statement parse_real b toks
      → lex parse_real b ≡ some (inr (toks ++ (eof ∷ [])))
  unfolding lex
  lex-spelled b toks statement = loop_spelled (length b) b toks statement (omega arith)
