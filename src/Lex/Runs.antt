-- ===== src/Lex/Runs.antt =====
-- Runs of the lexer of crates/engine/src/lex.rs. A real literal is its own text.
use bydesigns_db.Base.{◌≡◌, refl, Option, some, ◌⊎◌, inl, inr, List, [], ◌∷◌, ◌++◌, arith}
use bydesigns_db.Lex.{
  Tok, LexError, word, int, str, less, vec_l2, arrow_text, eof, open_string, lex,
}
use bydesigns_db.Lex.Bytes.{Text}
use bydesigns_db.Lex.Spelling.{
  a_word, a_mark, a_string, an_int, marks, doubled, IsWordByte, Statement, nothing, spelled,
}
use bydesigns_db.Lex.Spelled.{lex-spelled}
use bydesigns_db.Lex.Total.{lex_ends}

abbrev parse_text : Text → Option Text
parse_text s = some s

-- The text `sel 'it''s' < 42 `.
abbrev sql : Text
sql =
    b's' ∷ b'e' ∷ b'l' ∷ 32 ∷ 39 ∷ b'i' ∷ 39 ∷ 39 ∷ b't' ∷ 39 ∷ 32 ∷ b'<' ∷ 32 ∷ b'4' ∷ b'2' ∷ 32
    ∷ []

abbrev tokens : List (Tok Text)
tokens = word (b's' ∷ b'e' ∷ b'l' ∷ []) ∷ str (b'i' ∷ 39 ∷ b't' ∷ []) ∷ less ∷ int 42 ∷ []

e_in_word : IsWordByte b'e'
e_in_word = inl (inl (inl (omega arith, omega arith)))

l_in_word : IsWordByte b'l'
l_in_word = inl (inl (inl (omega arith, omega arith)))

statement : Statement parse_text sql tokens
unfolding marks doubled
statement =
    spelled (b's' ∷ b'e' ∷ b'l' ∷ []) _ _ _
      (a_word b's' (b'e' ∷ b'l' ∷ []) (inl (inl (omega arith, omega arith)))
        (e_in_word, (l_in_word, tt)))
      (spelled (39 ∷ b'i' ∷ 39 ∷ 39 ∷ b't' ∷ 39 ∷ []) _ _ _ (a_string (b'i' ∷ 39 ∷ b't' ∷ [])) (
        spelled (b'<' ∷ []) _ _ _
          (a_mark (b'<' ∷ []) less (
            inr (
              inr (
                inr (
                  inr (
                    inr
                      (inr (inr (inr (inr (inr (inr (inr (inr (inr (inl (refl, refl)))))))))))))))))
          (spelled (b'4' ∷ b'2' ∷ []) _ _ _
            (an_int b'4' (b'2' ∷ []) (omega arith, omega arith) ((omega arith, omega arith), tt)
              (omega arith))
            nothing)))

lex-spelled_example : lex parse_text sql ≡ some (inr (tokens ++ (eof ∷ [])))
lex-spelled_example = lex-spelled parse_text sql tokens statement

lex_ends_example : (r : LexError ⊎ List (Tok Text)) × (lex parse_text (39 ∷ b'a' ∷ []) ≡ some r)
lex_ends_example = lex_ends parse_text (39 ∷ b'a' ∷ [])

open_string_run : lex parse_text (39 ∷ b'a' ∷ []) ≡ some (inl open_string)
unfolding lex
open_string_run = refl

-- The two bytes of a character beyond ASCII become two characters of the string.
latin_run : lex parse_text (39 ∷ 195 ∷ 169 ∷ 39 ∷ []) ≡ some (inr (str (195 ∷ 169 ∷ []) ∷ eof ∷ []))
unfolding lex
latin_run = refl

comment_run :
    lex parse_text (b'-' ∷ b'-' ∷ b'x' ∷ 10 ∷ b'-' ∷ b'>' ∷ b'>' ∷ b'<' ∷ b'-' ∷ b'>' ∷ [])
    ≡ some (inr (arrow_text ∷ vec_l2 ∷ eof ∷ []))
unfolding lex
comment_run = refl
