-- ===== src/Lex.antt =====
-- crates/engine/src/lex.rs: the tokens of SQL. A position in the text is what is left of its bytes from
-- there on. The value of a real literal is of any type, and how its text is read is given, as the
-- code takes that from the standard library. The text of a string token is its characters, each of
-- which the code makes of one byte; that of a name is its bytes. An error keeps its kind.
pub mod Bytes
pub mod Total
pub mod Spelling
pub mod Classes
pub mod Marks
pub mod Spelled
mod Runs
use bydesigns_db.Base.{
  ℕ, zero, suc, ◌+◌, ◌-◌, ◌*◌, Bool, true, false, not, ◌&&◌, ◌||◌, leb, ◌==◌, if◌then◌else◌, Option,
  none, some, ◌⊎◌, inl, inr, List, [], ◌∷◌, ◌++◌, length,
}
use bydesigns_db.Lex.Bytes.{
  Text, begins_word, exponent, has_dot, in_word, is_digit, is_empty, is_letter, is_whitespace,
  max_int, push, scan_string, sign, span_while, starts, tail, value, value_from,
}

pub data Tok (R : Type 0) : Type 0 where
  word : Text → Tok R
  int : ℕ → Tok R
  real : R → Tok R
  str : Text → Tok R
  param : Tok R
  num_param : ℕ → Tok R
  named_param : Text → Tok R
  l_paren r_paren l_bracket r_bracket comma semi d_colon dot star equals differs less at_most
        greater at_least plus minus slash percent concat arrow arrow_text vec_l2 vec_cosine vec_ip
        eof :
      Tok R

pub data LexError : Type 0 where
  unexpected : ℕ → LexError
  lone_bang lone_pipe lone_colon lone_dollar bad_param bad_number : LexError
  open_string open_quote open_backtick : LexError

-- What a token function gives: the token and what is left, or the error; and what is left of blanks
-- and a comment.
pub data Lexed (R : Type 0) : Type 0 where
  skipped : List ℕ → Lexed R
  token : Tok R → List ℕ → Lexed R
  failed : LexError → Lexed R

module _ {R : Type 0} where
  unfoldable pub simple_token : ℕ → Option (Tok R)
  simple_token c =
      if c == b'('
      then some l_paren
      else if c == b')'
      then some r_paren
      else if c == b'['
      then some l_bracket
      else if c == b']'
      then some r_bracket
      else if c == b','
      then some comma
      else if c == b';'
      then some semi
      else if c == b'.'
      then some dot
      else if c == b'*'
      then some star
      else if c == b'+'
      then some plus
      else if c == b'-'
      then some minus
      else if c == b'/'
      then some slash
      else if c == b'%'
      then some percent
      else if c == b'?'
      then some param
      else if c == b'='
      then some equals
      else none

  -- The functions of one token stand behind its first byte.
  unfoldable pub lex_lt : List ℕ → Lexed R
  lex_lt b =
      if starts b'-' b && starts b'>' (tail b)
      then token vec_l2 (tail (tail b))
      else if starts b'=' b && starts b'>' (tail b)
      then token vec_cosine (tail (tail b))
      else if starts b'#' b && starts b'>' (tail b)
      then token vec_ip (tail (tail b))
      else if starts b'=' b
      then token at_most (tail b)
      else if starts b'>' b
      then token differs (tail b)
      else token less b

  unfoldable pub lex_operator : ℕ → List ℕ → Lexed R
  unfolding lex_lt
  lex_operator c b =
      if c == b'<'
      then lex_lt b
      else if c == b'>'
      then (if starts b'=' b then token at_least (tail b) else token greater b)
      else if starts b'=' b
      then token differs (tail b)
      else failed lone_bang

  unfoldable pub lex_pipe : List ℕ → Lexed R
  lex_pipe b = if starts b'|' b then token concat (tail b) else failed lone_pipe

  unfoldable pub lex_colon : List ℕ → Lexed R
  unfolding span_while in_word
  lex_colon b =
      let (name, rest) = span_while in_word b in
      if starts b':' b
      then token d_colon (tail b)
      else if is_empty name
      then failed lone_colon
      else token (named_param name) rest

  unfoldable pub lex_numparam : List ℕ → Lexed R
  unfolding span_while is_digit value
  lex_numparam b =
      let (digits, rest) = span_while is_digit b in
      if is_empty digits
      then failed lone_dollar
      else if leb (value digits) 18446744073709551615
      then token (num_param (value digits)) rest
      else failed bad_param

  -- A name up to the byte that closes it.
  unfoldable pub lex_closed : ℕ → LexError → List ℕ → Lexed R
  unfolding span_while
  lex_closed q e b =
      let (ident, rest) = span_while (λ c. not (c == q)) b in
      if is_empty rest then failed e else token (word ident) (tail rest)

  abbrev pub string_token : Option (List ℕ × List ℕ) → Lexed R
  string_token none = failed open_string
  string_token (some (s, b)) = token (str s) b

  unfoldable pub lex_string : List ℕ → Lexed R
  unfolding scan_string
  lex_string b = string_token (scan_string false b)

  unfoldable pub lex_word : List ℕ → Lexed R
  unfolding span_while in_word
  lex_word b = let (name, rest) = span_while in_word b in token (word name) rest

  abbrev pub real_token : Option R → List ℕ → Lexed R
  real_token none b = failed bad_number
  real_token (some x) b = token (real x) b

-- `str::parse::<f64>` of the text of a number is `parse_real`.
module _ {R : Type 0} (parse_real : Text → Option R) where
  unfoldable pub lex_number : List ℕ → Lexed R
  unfolding span_while is_digit exponent has_dot value
  lex_number b =
      let (mantissa, after) = span_while (λ c. is_digit c || c == b'.') b in
      let (ex, rest) = exponent after in
      if has_dot mantissa || not (is_empty ex)
      then real_token (parse_real (mantissa ++ ex)) rest
      else if leb (value mantissa) max_int
      then token (int (value mantissa)) rest
      else real_token (parse_real mantissa) rest

  -- The token at a byte that is neither blank nor begins a comment, an arrow or a simple token: the
  -- names and numbers, and the others before them.
  unfoldable pub lex_name : ℕ → List ℕ → Lexed R
  unfolding lex_closed lex_number lex_word begins_word is_digit
  lex_name c b =
      if c == b'"'
      then lex_closed b'"' open_quote b
      else if c == b'`'
      then lex_closed b'`' open_backtick b
      else if is_digit c
      then lex_number (c ∷ b)
      else if begins_word c
      then lex_word (c ∷ b)
      else failed (unexpected c)

  unfoldable pub lex_other : ℕ → List ℕ → Lexed R
  unfolding lex_operator lex_pipe lex_colon lex_numparam lex_string lex_name
  lex_other c b =
      if c == b'<' || c == b'>' || c == b'!'
      then lex_operator c b
      else if c == b'|'
      then lex_pipe b
      else if c == b':'
      then lex_colon b
      else if c == b'$'
      then lex_numparam b
      else if c == 39
      then lex_string b
      else lex_name c b

  abbrev pub simple_or : Option (Tok R) → ℕ → List ℕ → Lexed R
  simple_or none c b = lex_other c b
  simple_or (some t) c b = token t b

  -- The token at a byte that is neither blank nor begins a comment.
  unfoldable pub lex_token : ℕ → List ℕ → Lexed R
  unfolding simple_token lex_other
  lex_token c b =
      if c == b'-' && starts b'>' b
      then (if starts b'>' (tail b) then token arrow_text (tail (tail b)) else token arrow (tail b))
      else simple_or (simple_token c) c b

  -- One turn of the loop.
  unfoldable pub lex_turn : ℕ → List ℕ → Lexed R
  unfolding lex_token is_whitespace span_while
  lex_turn c b =
      if is_whitespace c
      then skipped b
      else if c == b'-' && starts b'-' b
      then skipped (span_while (λ x. not (x == 10)) (c ∷ b)).1
      else lex_token c b

  -- The outcome of the loop, unless its fuel is used up.
  abbrev pub emit : Tok R → Option (LexError ⊎ List (Tok R)) → Option (LexError ⊎ List (Tok R))
  emit t none = none
  emit t (some (inl e)) = some (inl e)
  emit t (some (inr toks)) = some (inr (t ∷ toks))

  -- The loop after a turn; `rest` is the loop itself.
  abbrev pub continue_with :
      (List ℕ → Option (LexError ⊎ List (Tok R))) → Lexed R → Option (LexError ⊎ List (Tok R))
  continue_with rest (token t b) = emit t (rest b)
  continue_with rest (skipped b) = rest b
  continue_with rest (failed e) = some (inl e)

  unfoldable pub lex_loop : ℕ → List ℕ → Option (LexError ⊎ List (Tok R))
  unfolding lex_turn
  lex_loop fuel [] = some (inr (eof ∷ []))
  lex_loop zero (c ∷ b) = none
  lex_loop (suc fuel) (c ∷ b) = continue_with (lex_loop fuel) (lex_turn c b)

  unfoldable pub lex : List ℕ → Option (LexError ⊎ List (Tok R))
  unfolding lex_loop
  lex b = lex_loop (length b) b
