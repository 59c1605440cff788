-- ===== src/Like/Meaning.antt =====
-- What a LIKE pattern of crates/engine/src/exec.rs means, and how a pattern is written with an escape
-- character.
use bydesigns_db.Base.{
  ℕ, Bool, ◌&&◌, ◌||◌, leb, ◌+◌, true, false, ◌==◌, if◌then◌else◌, List, [], ◌∷◌, ◌++◌,
}
use bydesigns_db.Like.{LikeTok, any, one, lit}

-- `%` is any run of characters, `_` any character, and a literal itself.
pub data Matches : List LikeTok → List ℕ → Type 0 where
  both_end : Matches [] []
  a_run : (run s : List ℕ) (p : List LikeTok) → Matches p s → Matches (any ∷ p) (run ++ s)
  a_char : (c : ℕ) (s : List ℕ) (p : List LikeTok) → Matches p s → Matches (one ∷ p) (c ∷ s)
  itself : (c : ℕ) (s : List ℕ) (p : List LikeTok) → Matches p s → Matches (lit c ∷ p) (c ∷ s)

-- The pattern of tokens: a literal that means something else is escaped.
unfoldable pub written : ℕ → List LikeTok → List ℕ
written e [] = []
written e (any ∷ p) = b'%' ∷ written e p
written e (one ∷ p) = b'_' ∷ written e p
written e (lit c ∷ p) =
    let rest = written e p in if c == b'%' || c == b'_' || c == e then e ∷ c ∷ rest else c ∷ rest

-- What a comparison sees of a character: LIKE the character itself, ILIKE the small letter for a
-- capital letter of ASCII.
unfoldable pub seen_as : Bool → ℕ → ℕ
seen_as false c = c
seen_as true c = if leb b'A' c && leb c b'Z' then c + 32 else c

unfoldable pub fold_tok : Bool → LikeTok → LikeTok
unfolding seen_as
fold_tok insensitive any = any
fold_tok insensitive one = one
fold_tok insensitive (lit c) = lit (seen_as insensitive c)
