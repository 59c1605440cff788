-- ===== src/Lex/Spelling.antt =====
-- The spellings of the tokens of crates/engine/src/lex.rs, written down apart from its code.
use bydesigns_db.Base.{
  ℕ, ◌+◌, ◌-◌, ◌*◌, ◌^◌, length, ◌≤◌, ◌≡◌, ◌≢◌, ◌==◌, if◌then◌else◌, Option, some, ◌⊎◌, List, [],
  ◌∷◌, ◌++◌, All,
}
use bydesigns_db.Lex.{
  Tok, word, int, real, str, param, num_param, named_param, l_paren, r_paren, l_bracket, r_bracket,
  comma, semi, d_colon, dot, star, equals, differs, less, at_most, greater, at_least, plus, minus,
  slash, percent, concat, arrow, arrow_text, vec_l2, vec_cosine, vec_ip,
}
use bydesigns_db.Lex.Bytes.{Text}

-- The classes of bytes by their ranges.
abbrev pub IsDigit : ℕ → Type 0
IsDigit c = (b'0' ≤ c) × (c ≤ b'9')

abbrev pub IsLetter : ℕ → Type 0
IsLetter c = ((b'a' ≤ c) × (c ≤ b'z')) ⊎ ((b'A' ≤ c) × (c ≤ b'Z'))

abbrev pub IsWordStart : ℕ → Type 0
IsWordStart c = IsLetter c ⊎ (c ≡ b'_')

abbrev pub IsWordByte : ℕ → Type 0
IsWordByte c = IsWordStart c ⊎ IsDigit c

-- The number that digits stand for: each digit times the power of ten of its place.
abbrev pub decimal : Text → ℕ
decimal [] = 0
decimal (d ∷ digits) = (d - b'0') * 10 ^ length digits + decimal digits

-- The quotes of a text doubled.
unfoldable pub doubled : Text → Text
doubled [] = []
doubled (c ∷ s) = let rest = doubled s in if c == 39 then c ∷ c ∷ rest else c ∷ rest

-- The marks that are tokens by themselves.
unfoldable pub marks : {R : Type 0} → List (Text × Tok R)
marks =
    (b'(' ∷ [], l_paren)
    ∷ (b')' ∷ [], r_paren)
    ∷ (b'[' ∷ [], l_bracket)
    ∷ (b']' ∷ [], r_bracket)
    ∷ (b',' ∷ [], comma)
    ∷ (b';' ∷ [], semi)
    ∷ (b'.' ∷ [], dot)
    ∷ (b'*' ∷ [], star)
    ∷ (b'+' ∷ [], plus)
    ∷ (b'-' ∷ [], minus)
    ∷ (b'/' ∷ [], slash)
    ∷ (b'%' ∷ [], percent)
    ∷ (b'?' ∷ [], param)
    ∷ (b'=' ∷ [], equals)
    ∷ (b'<' ∷ [], less)
    ∷ (b'<' ∷ b'=' ∷ [], at_most)
    ∷ (b'<' ∷ b'>' ∷ [], differs)
    ∷ (b'!' ∷ b'=' ∷ [], differs)
    ∷ (b'>' ∷ [], greater)
    ∷ (b'>' ∷ b'=' ∷ [], at_least)
    ∷ (b':' ∷ b':' ∷ [], d_colon)
    ∷ (b'|' ∷ b'|' ∷ [], concat)
    ∷ (b'-' ∷ b'>' ∷ [], arrow)
    ∷ (b'-' ∷ b'>' ∷ b'>' ∷ [], arrow_text)
    ∷ (b'<' ∷ b'-' ∷ b'>' ∷ [], vec_l2)
    ∷ (b'<' ∷ b'=' ∷ b'>' ∷ [], vec_cosine)
    ∷ (b'<' ∷ b'#' ∷ b'>' ∷ [], vec_ip)
    ∷ []

-- A text is one of a list.
abbrev pub IsIn : {R : Type 0} → Text → Tok R → List (Text × Tok R) → Type 0
IsIn s t [] = ⊥
IsIn s t ((x, u) ∷ table) = ((s ≡ x) × (t ≡ u)) ⊎ IsIn s t table

pub data Spells {R : Type 0} (parse_real : Text → Option R) : Text → Tok R → Type 0 where
  a_mark : (s : Text) (t : Tok R) → IsIn s t marks → Spells parse_real s t
  a_word :
      (c : ℕ) (s : Text)
      → IsWordStart c
      → All IsWordByte s
      → Spells parse_real (c ∷ s) (word (c ∷ s))
  a_quoted :
      (s : Text) → All (λ c. c ≢ b'"') s → Spells parse_real (b'"' ∷ (s ++ (b'"' ∷ []))) (word s)
  a_backtick :
      (s : Text) → All (λ c. c ≢ b'`') s → Spells parse_real (b'`' ∷ (s ++ (b'`' ∷ []))) (word s)
  a_string : (s : Text) → Spells parse_real (39 ∷ (doubled s ++ (39 ∷ []))) (str s)
  an_int :
      (c : ℕ) (s : Text)
      → IsDigit c
      → All IsDigit s
      → decimal (c ∷ s) ≤ 9223372036854775807
      → Spells parse_real (c ∷ s) (int (decimal (c ∷ s)))
  a_fraction :
      (c : ℕ) (s f : Text) (x : R)
      → IsDigit c
      → All IsDigit s
      → All IsDigit f
      → parse_real ((c ∷ s) ++ (b'.' ∷ f)) ≡ some x
      → Spells parse_real ((c ∷ s) ++ (b'.' ∷ f)) (real x)
  a_num_param :
      (c : ℕ) (s : Text)
      → IsDigit c
      → All IsDigit s
      → decimal (c ∷ s) ≤ 18446744073709551615
      → Spells parse_real (b'$' ∷ c ∷ s) (num_param (decimal (c ∷ s)))
  a_named_param :
      (c : ℕ) (s : Text)
      → IsWordByte c
      → All IsWordByte s
      → Spells parse_real (b':' ∷ c ∷ s) (named_param (c ∷ s))

-- A statement: the tokens with their spellings, a space behind each.
pub data Statement {R : Type 0} (parse_real : Text → Option R) : Text → List (Tok R) → Type 0 where
  nothing : Statement parse_real [] []
  spelled :
      (s b : Text) (t : Tok R) (toks : List (Tok R))
      → Spells parse_real s t
      → Statement parse_real b toks
      → Statement parse_real (s ++ (32 ∷ b)) (t ∷ toks)
