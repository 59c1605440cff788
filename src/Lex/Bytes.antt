-- ===== src/Lex/Bytes.antt =====
-- The bytes of SQL text in crates/engine/src/lex.rs: their classes, runs of them, decimal values, and
-- what stands between the quotes of a string and behind the mantissa of a number.
use bydesigns_db.Base.{
  ℕ, ◌+◌, ◌-◌, ◌*◌, Bool, true, false, ◌&&◌, ◌||◌, leb, ◌==◌, if◌then◌else◌, Option, none, some,
  List, [], ◌∷◌, ◌++◌,
}

abbrev pub Text : Type 0
Text = List ℕ

-- `b.get(i) == Some(&c)`, at what is left from `i` on.
abbrev pub starts : ℕ → List ℕ → Bool
starts c [] = false
starts c (x ∷ b) = x == c

abbrev pub tail : List ℕ → List ℕ
tail [] = []
tail (x ∷ b) = b

abbrev pub is_empty : List ℕ → Bool
is_empty [] = true
is_empty (x ∷ b) = false

-- The bytes from here on that pass a test, and what is left.
unfoldable pub span_while : (ℕ → Bool) → List ℕ → List ℕ × List ℕ
span_while p [] = ([], [])
span_while p (c ∷ b) =
    let (taken, rest) = span_while p b in if p c then (c ∷ taken, rest) else ([], c ∷ b)

-- `is_ascii_whitespace`, `is_ascii_digit`, and the bytes that begin and that continue a word.
unfoldable pub is_whitespace : ℕ → Bool
is_whitespace c = c == 32 || c == 9 || c == 10 || c == 12 || c == 13

unfoldable pub is_digit : ℕ → Bool
is_digit c = leb b'0' c && leb c b'9'

unfoldable pub is_letter : ℕ → Bool
is_letter c = (leb b'a' c && leb c b'z') || (leb b'A' c && leb c b'Z')

unfoldable pub begins_word : ℕ → Bool
unfolding is_letter
begins_word c = c == b'_' || is_letter c

unfoldable pub in_word : ℕ → Bool
unfolding begins_word is_digit
in_word c = begins_word c || is_digit c

-- The value of decimal digits, after those read before.
unfoldable pub value_from : ℕ → List ℕ → ℕ
value_from n [] = n
value_from n (d ∷ digits) = value_from (n * 10 + (d - b'0')) digits

unfoldable pub value : List ℕ → ℕ
unfolding value_from
value = value_from 0

-- The loop of `lex_string`: `quoted` tells that the byte before is a quote, which may be the first of
-- two.
abbrev pub push : ℕ → Option (List ℕ × List ℕ) → Option (List ℕ × List ℕ)
push c none = none
push c (some (s, b)) = some (c ∷ s, b)

unfoldable pub scan_string : Bool → List ℕ → Option (List ℕ × List ℕ)
scan_string false [] = none
scan_string true [] = some ([], [])
scan_string false (c ∷ b) =
    let rest = scan_string (c == 39) b in if c == 39 then rest else push c rest
scan_string true (c ∷ b) =
    let rest = scan_string false b in if c == 39 then push c rest else some ([], c ∷ b)

-- The sign and the exponent of a number, if they stand here, and what is left.
unfoldable pub sign : List ℕ → List ℕ × List ℕ
sign [] = ([], [])
sign (c ∷ b) = if c == b'+' || c == b'-' then (c ∷ [], b) else ([], c ∷ b)

unfoldable pub exponent : List ℕ → List ℕ × List ℕ
unfolding sign span_while is_digit
exponent [] = ([], [])
exponent (c ∷ b) =
    let (sg, unsigned) = sign b in
    let (digits, rest) = span_while is_digit unsigned in
    if c == b'e' || c == b'E' then (c ∷ (sg ++ digits), rest) else ([], c ∷ b)

unfoldable pub has_dot : List ℕ → Bool
has_dot [] = false
has_dot (c ∷ b) = c == b'.' || has_dot b

-- `i64::MAX`.
abbrev pub max_int : ℕ
max_int = 9223372036854775807
