-- ===== src/Like.antt =====
-- LIKE and ILIKE of crates/engine/src/exec.rs. A character is its code point, a string the list of its
-- characters; the pattern is compiled and then matched.
pub mod Meaning
pub mod Matching
mod Runs
use bydesigns_db.Base.{
  ℕ, zero, suc, ◌+◌, Bool, true, false, ◌&&◌, ◌||◌, leb, ◌==◌, if◌then◌else◌, Option, none, some,
  List, [], ◌∷◌, map, length,
}

pub data LikeTok : Type 0 where
  any : LikeTok
  one : LikeTok
  lit : ℕ → LikeTok

-- `char::to_ascii_lowercase`, and the fold of `like_match`.
unfoldable pub to_lower : ℕ → ℕ
to_lower c = if leb b'A' c && leb c b'Z' then c + 32 else c

unfoldable pub fold : Bool → ℕ → ℕ
unfolding to_lower
fold insensitive c = if insensitive then to_lower c else c

abbrev pub is_escape : Option ℕ → ℕ → Bool
is_escape none c = false
is_escape (some e) c = c == e

-- A character of the pattern that no escape precedes.
unfoldable pub plain_tok : Bool → ℕ → LikeTok
unfolding fold
plain_tok insensitive c =
    if c == b'%' then any else if c == b'_' then one else lit (fold insensitive c)

-- The loop over the pattern; `escaped` holds an escape character that is not used up. At the end it
-- stands for itself.
unfoldable pub compile_from : Option ℕ → Bool → Option ℕ → List ℕ → List LikeTok
unfolding plain_tok fold
compile_from escape insensitive none [] = []
compile_from escape insensitive (some e) [] = lit (fold insensitive e) ∷ []
compile_from escape insensitive (some e) (c ∷ p) =
    lit (fold insensitive c) ∷ compile_from escape insensitive none p
compile_from escape insensitive none (c ∷ p) =
    let rest = compile_from escape insensitive (if is_escape escape c then some c else none) p in
    if is_escape escape c then rest else plain_tok insensitive c ∷ rest

abbrev pub compile : Option ℕ → Bool → List ℕ → List LikeTok
compile escape insensitive = compile_from escape insensitive none

-- A run of `%` from here on is dropped.
unfoldable pub drop_any : List LikeTok → List LikeTok
drop_any (any ∷ p) = drop_any p
drop_any [] = []
drop_any (one ∷ p) = one ∷ p
drop_any (lit c ∷ p) = lit c ∷ p

abbrev pub is_done : List LikeTok → Bool
is_done [] = true
is_done (t ∷ p) = false

-- Whether a test holds of some rest of the string, the whole and the empty one included.
unfoldable pub some_rest : (List ℕ → Bool) → List ℕ → Bool
some_rest test [] = test []
some_rest test (c ∷ s) = test (c ∷ s) || some_rest test s

-- `like_go`, with fuel for the tokens of the pattern.
unfoldable pub like_go : ℕ → List LikeTok → List ℕ → Bool
unfolding drop_any some_rest
like_go fuel [] [] = true
like_go fuel [] (c ∷ s) = false
like_go zero (t ∷ p) s = false
like_go (suc fuel) (any ∷ p) s =
    let rest = drop_any p in is_done rest || some_rest (like_go fuel rest) s
like_go (suc fuel) (one ∷ p) [] = false
like_go (suc fuel) (one ∷ p) (c ∷ s) = like_go fuel p s
like_go (suc fuel) (lit l ∷ p) [] = false
like_go (suc fuel) (lit l ∷ p) (c ∷ s) = let rest = like_go fuel p s in c == l && rest

unfoldable pub like_match : List ℕ → List ℕ → Option ℕ → Bool → Bool
unfolding compile_from like_go fold
like_match s pattern escape insensitive =
    let p = compile escape insensitive pattern in like_go (length p) p (map (fold insensitive) s)
