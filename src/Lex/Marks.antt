-- ===== src/Lex/Marks.antt =====
-- The tokens of crates/engine/src/lex.rs by their first byte: marks, words and numbers.
use bydesigns_db.Base.{
  ℕ, ◌≡◌, refl, sym, ap, subst, ◌∙◌, Bool, true, false, ◌==◌, Bool-cases, ==_iff, Option, inl, inr,
  List, [], ◌∷◌, ◌++◌, All, arith,
}
use mathlib.Core.Bool.{true≢false}
use bydesigns_db.Lex.{
  Tok, token, simple_token, lex_lt, lex_operator, lex_pipe, lex_colon, lex_word, lex_number,
  lex_name, lex_other, lex_token, lex_turn,
}
use bydesigns_db.Lex.Bytes.{Text, is_digit, is_letter, is_whitespace, begins_word}
use bydesigns_db.Lex.Spelling.{marks, IsIn}

-- A byte that passes a test is none that fails it.
pub apart : (p : ℕ → Bool) (c d : ℕ) → p c ≡ true → p d ≡ false → (c == d) ≡ false
apart p c d yes_c no_d = elim (Bool-cases (c == d)) [
  | inl e ↦
      let same : c ≡ d = omega (arith, (==_iff c d).0 e) in
      absurd (true≢false (sym yes_c ∙ ap p same ∙ no_d))
  | inr e ↦ e
]

module _ {R : Type 0} (parse_real : Text → Option R) where
  -- The lexer at the text, with a space behind it, gives the token and leaves the space.
  abbrev pub Gives : Text → Tok R → Type 0
  Gives [] t = ⊥
  Gives (c ∷ s) t = (b : List ℕ) → lex_turn parse_real c (s ++ (32 ∷ b)) ≡ token t (32 ∷ b)

  pub at_word :
      (c : ℕ) (b : List ℕ) → begins_word c ≡ true → lex_turn parse_real c b ≡ lex_word (c ∷ b)
  unfolding lex_turn lex_token simple_token lex_other lex_name is_whitespace begins_word is_letter
      is_digit
  at_word c b e =
      let digit : is_digit c ≡ false = ground arith in
      let is_not = λ (d : ℕ) (h : begins_word d ≡ false). apart begins_word c d e h in
      rw
        (
          is_not 32 refl,
          is_not 9 refl,
          is_not 10 refl,
          is_not 12 refl,
          is_not 13 refl,
          is_not b'-' refl,
          is_not b'(' refl,
          is_not b')' refl,
          is_not b'[' refl,
          is_not b']' refl,
          is_not b',' refl,
          is_not b';' refl,
          is_not b'.' refl,
          is_not b'*' refl,
          is_not b'+' refl,
          is_not b'/' refl,
          is_not b'%' refl,
          is_not b'?' refl,
          is_not b'=' refl,
          is_not b'<' refl,
          is_not b'>' refl,
          is_not b'!' refl,
          is_not b'|' refl,
          is_not b':' refl,
          is_not b'$' refl,
          is_not 39 refl,
          is_not b'"' refl,
          is_not b'`' refl,
          digit,
          e,
        )
        refl

  pub at_digit :
      (c : ℕ) (b : List ℕ)
      → is_digit c ≡ true
      → lex_turn parse_real c b ≡ lex_number parse_real (c ∷ b)
  unfolding lex_turn lex_token simple_token lex_other lex_name is_whitespace is_digit
  at_digit c b e =
      let is_not = λ (d : ℕ) (h : is_digit d ≡ false). apart is_digit c d e h in
      rw
        (
          is_not 32 refl,
          is_not 9 refl,
          is_not 10 refl,
          is_not 12 refl,
          is_not 13 refl,
          is_not b'-' refl,
          is_not b'(' refl,
          is_not b')' refl,
          is_not b'[' refl,
          is_not b']' refl,
          is_not b',' refl,
          is_not b';' refl,
          is_not b'.' refl,
          is_not b'*' refl,
          is_not b'+' refl,
          is_not b'/' refl,
          is_not b'%' refl,
          is_not b'?' refl,
          is_not b'=' refl,
          is_not b'<' refl,
          is_not b'>' refl,
          is_not b'!' refl,
          is_not b'|' refl,
          is_not b':' refl,
          is_not b'$' refl,
          is_not 39 refl,
          is_not b'"' refl,
          is_not b'`' refl,
          e,
        )
        refl

  lookup :
      (t : Tok R) (s : Text) (table : List (Text × Tok R))
      → All (λ p. Gives p.0 p.1) table
      → IsIn s t table
      → Gives s t
  lookup t s [] given h = absurd h
  lookup t s ((x, u) ∷ table) (here, given) (inl (same, one)) =
      subst (λ y. Gives y t) (sym same) (subst (λ v. Gives x v) (sym one) here)
  lookup t s ((x, u) ∷ table) (here, given) (inr h) = lookup t s table given h

  marks_given : All (λ p. Gives p.0 p.1) marks
  unfolding marks lex_turn lex_token simple_token lex_other lex_operator lex_lt lex_pipe lex_colon
      is_whitespace
  marks_given = (
    (λ b. refl),
    (
      (λ b. refl),
      (
        (λ b. refl),
        (
          (λ b. refl),
          (
            (λ b. refl),
            (
              (λ b. refl),
              (
                (λ b. refl),
                (
                  (λ b. refl),
                  (
                    (λ b. refl),
                    (
                      (λ b. refl),
                      (
                        (λ b. refl),
                        (
                          (λ b. refl),
                          (
                            (λ b. refl),
                            (
                              (λ b. refl),
                              (
                                (λ b. refl),
                                (
                                  (λ b. refl),
                                  (
                                    (λ b. refl),
                                    (
                                      (λ b. refl),
                                      (
                                        (λ b. refl),
                                        (
                                          (λ b. refl),
                                          (
                                            (λ b. refl),
                                            (
                                              (λ b. refl),
                                              (
                                                (λ b. refl),
                                                (
                                                  (λ b. refl),
                                                  ((λ b. refl), ((λ b. refl), ((λ b. refl), tt))),
                                                ),
                                              ),
                                            ),
                                          ),
                                        ),
                                      ),
                                    ),
                                  ),
                                ),
                              ),
                            ),
                          ),
                        ),
                      ),
                    ),
                  ),
                ),
              ),
            ),
          ),
        ),
      ),
    ),
  )

  pub marks-Gives : (t : Tok R) (s : Text) → IsIn s t marks → Gives s t
  marks-Gives t s h = lookup t s marks marks_given h
