-- ===== src/Like/Runs.antt =====
-- Runs of LIKE of crates/engine/src/exec.rs.
use bydesigns_db.Base.{ℕ, ◌≡◌, ◌↔◌, refl, true, false, some, List, [], ◌∷◌, map, arith}
use bydesigns_db.Like.{LikeTok, any, one, lit, like_match}
use bydesigns_db.Like.Meaning.{Matches, written, seen_as, fold_tok}
use bydesigns_db.Like.Matching.{like_match-written}

-- `a_%\%`: an a, any character, any run, and a percent sign.
abbrev pattern : List LikeTok
pattern = lit b'a' ∷ one ∷ any ∷ lit b'%' ∷ []

abbrev text : List ℕ
text = b'A' ∷ b'b' ∷ b'c' ∷ b'%' ∷ []

like_match-written_example :
    (like_match text (written 92 pattern) (some 92) true ≡ true)
    ↔ Matches (map (fold_tok true) pattern) (map (seen_as true) text)
like_match-written_example =
    like_match-written 92 true pattern text (λ e. omega arith) (λ e. omega arith)

ilike_run : like_match text (written 92 pattern) (some 92) true ≡ true
unfolding like_match written
ilike_run = refl

like_run : like_match text (written 92 pattern) (some 92) false ≡ false
unfolding like_match written
like_run = refl

-- An escape character at the end of the pattern stands for itself.
last_escape_run : like_match (92 ∷ []) (92 ∷ []) (some 92) false ≡ true
unfolding like_match
last_escape_run = refl
