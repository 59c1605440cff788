-- ===== src/Lex/Classes.antt =====
-- The classes of bytes and the decimal values of crates/engine/src/lex.rs are those of the spellings.
use bydesigns_db.Base.{
  ℕ, ◌+◌, ◌-◌, ◌*◌, ◌^◌, ◌≡◌, ap, Bool, true, inl, inr, [], ◌∷◌, length, All, arith,
}
use native.Mathlib.Nat.{pow-suc}
use bydesigns_db.Lex.Bytes.{Text, is_digit, is_letter, begins_word, in_word, value_from, value}
use bydesigns_db.Lex.Spelling.{IsDigit, IsLetter, IsWordStart, IsWordByte, decimal}

abbrev pub AllPass : (ℕ → Bool) → Text → Type 0
AllPass p = All (λ c. p c ≡ true)

pub is_digit-IsDigit : (c : ℕ) → IsDigit c → is_digit c ≡ true
unfolding is_digit
is_digit-IsDigit c (low, high) = ground (arith, low, high)

is_letter-IsLetter : (c : ℕ) → IsLetter c → is_letter c ≡ true
unfolding is_letter
is_letter-IsLetter c (inl (low, high)) = ground (arith, low, high)
is_letter-IsLetter c (inr (low, high)) = ground (arith, low, high)

pub begins_word-IsWordStart : (c : ℕ) → IsWordStart c → begins_word c ≡ true
unfolding begins_word
begins_word-IsWordStart c (inl h) = ground (arith, is_letter-IsLetter c h)
begins_word-IsWordStart c (inr e) = ground (arith, e)

pub in_word-IsWordByte : (c : ℕ) → IsWordByte c → in_word c ≡ true
unfolding in_word
in_word-IsWordByte c (inl h) = ground (arith, begins_word-IsWordStart c h)
in_word-IsWordByte c (inr h) = ground (arith, is_digit-IsDigit c h)

pub AllPass-digits : (s : Text) → All IsDigit s → AllPass is_digit s
AllPass-digits [] h = tt
AllPass-digits (c ∷ s) (here, h) = (is_digit-IsDigit c here, AllPass-digits s h)

pub AllPass-word : (s : Text) → All IsWordByte s → AllPass in_word s
AllPass-word [] h = tt
AllPass-word (c ∷ s) (here, h) = (in_word-IsWordByte c here, AllPass-word s h)

value_from-decimal : (n : ℕ) (s : Text) → value_from n s ≡ n * 10 ^ length s + decimal s
unfolding value_from
value_from-decimal n [] = omega arith
value_from-decimal n (d ∷ s) =
    let ih = value_from-decimal (n * 10 + (d - b'0')) s in
    let power = pow-suc 10 (length s) in
    let spread : n * 10 ^ length (d ∷ s) ≡ n * (10 ^ length s * 10) = ap (λ p. n * p) power in
    omega arith

pub value-decimal : (s : Text) → value s ≡ decimal s
unfolding value
value-decimal s = omega (arith, value_from-decimal 0 s)
