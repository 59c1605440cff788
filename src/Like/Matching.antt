-- ===== src/Like/Matching.antt =====
-- The matcher of crates/engine/src/exec.rs decides what LIKE patterns mean.
use bydesigns_db.Base.{
  ℕ, zero, suc, ◌≤◌, ◌≡◌, ◌≢◌, ◌↔◌, refl, sym, ap, subst, ◌∙◌, Bool, true, false, ◌||◌, ◌==◌,
  ==_refl, ==_iff, Bool-cases, some, inl, inr, List, [], ◌∷◌, ◌++◌, append-nil, append_assoc, map,
  length, arith,
}
use bydesigns_db.Like.{
  LikeTok, any, one, lit, fold, plain_tok, compile_from, compile, drop_any, is_done, some_rest,
  like_go, like_match,
}
use bydesigns_db.Like.Meaning.{Matches, both_end, a_run, a_char, itself, written, seen_as, fold_tok}

some_rest→ :
    (test : List ℕ → Bool) (s : List ℕ)
    → some_rest test s ≡ true
    → (run : List ℕ) × (r : List ℕ) × (s ≡ run ++ r) × (test r ≡ true)
unfolding some_rest
some_rest→ test [] h = ([], [], refl, h)
some_rest→ test (c ∷ s) h = elim (Bool-cases (test (c ∷ s))) [
  | inl e ↦ ([], c ∷ s, refl, e)
  | inr e ↦
      let (run, r, split, holds) = some_rest→ test s (ground (arith, h, e)) in
      (c ∷ run, r, ap (λ x. c ∷ x) split, holds)
]

→some_rest :
    (test : List ℕ → Bool) (run r : List ℕ) → test r ≡ true → some_rest test (run ++ r) ≡ true
unfolding some_rest
→some_rest test [] [] h = h
→some_rest test [] (c ∷ r) h = rw h refl
→some_rest test (d ∷ run) r h = ground (arith, →some_rest test run r h)

undrop : (p : List LikeTok) (s : List ℕ) → Matches (any ∷ drop_any p) s → Matches (any ∷ p) s
unfolding drop_any
undrop [] s h = h
undrop (any ∷ p) s h = a_run [] s (any ∷ p) (undrop p s h)
undrop (one ∷ p) s h = h
undrop (lit c ∷ p) s h = h

dropped :
    (p : List LikeTok) (s : List ℕ)
    → Matches p s
    → (run : List ℕ) × (r : List ℕ) × (s ≡ run ++ r) × Matches (drop_any p) r
unfolding drop_any
dropped p s both_end = ([], [], refl, both_end)
dropped p s (a_run run r q h) =
    let (run', r', split, rest) = dropped q r h in
    (run ++ run', r', ap (λ x. run ++ x) split ∙ sym (append_assoc run run' r'), rest)
dropped p s (a_char c r q h) = ([], c ∷ r, refl, a_char c r q h)
dropped p s (itself c r q h) = ([], c ∷ r, refl, itself c r q h)

drop_shorter : (p : List LikeTok) → length (drop_any p) ≤ length p
unfolding drop_any
drop_shorter [] = omega arith
drop_shorter (any ∷ p) = omega (arith, drop_shorter p)
drop_shorter (one ∷ p) = omega arith
drop_shorter (lit c ∷ p) = omega arith

-- A run at the end of the pattern, or one before a rest that is matched somewhere.
run_sound :
    (go : List ℕ → Bool) (p : List LikeTok) (s : List ℕ)
    → ((r : List ℕ) → go r ≡ true → Matches p r)
    → (is_done p || some_rest go s) ≡ true
    → Matches (any ∷ p) s
run_sound go [] s sound h = subst (Matches (any ∷ [])) (append-nil s) (a_run s [] [] both_end)
run_sound go (t ∷ p) s sound h =
    let (run, r, split, holds) = some_rest→ go s h in
    subst (Matches (any ∷ t ∷ p)) (sym split) (a_run run r (t ∷ p) (sound r holds))

or_true : (a b : Bool) → b ≡ true → (a || b) ≡ true
or_true true b h = refl
or_true false b h = h

like_go→Matches : (fuel : ℕ) (p : List LikeTok) (s : List ℕ) → like_go fuel p s ≡ true → Matches p s
unfolding like_go
like_go→Matches fuel [] [] h = both_end
like_go→Matches fuel [] (c ∷ s) h = absurd (cc)
like_go→Matches zero (t ∷ p) s h = absurd (cc)
like_go→Matches (suc fuel) (any ∷ p) s h =
    undrop p s
      (run_sound (like_go fuel (drop_any p)) (drop_any p) s (like_go→Matches fuel (drop_any p)) h)
like_go→Matches (suc fuel) (one ∷ p) [] h = absurd (cc)
like_go→Matches (suc fuel) (one ∷ p) (c ∷ s) h = a_char c s p (like_go→Matches fuel p s h)
like_go→Matches (suc fuel) (lit l ∷ p) [] h = absurd (cc)
like_go→Matches (suc fuel) (lit l ∷ p) (c ∷ s) h = elim (Bool-cases (c == l)) [
  | inl e ↦
      subst (λ x. Matches (lit x ∷ p) (c ∷ s)) ((==_iff c l).0 e)
        (itself c s p (like_go→Matches fuel p s (ground (arith, h, e))))
  | inr e ↦ absurd (ground (arith, h, e))
]

Matches→like_go :
    (fuel : ℕ) (p : List LikeTok) (s : List ℕ)
    → Matches p s
    → length p ≤ fuel
    → like_go fuel p s ≡ true
unfolding like_go
Matches→like_go fuel p s both_end le = refl
Matches→like_go zero p s (a_run run r q h) le = absurd (omega arith)
Matches→like_go (suc fuel) p s (a_run run r q h) le =
    let (more, r', split, rest) = dropped q r h in
    let whole : run ++ r ≡ (run ++ more) ++ r' =
      ap (λ x. run ++ x) split ∙ sym (append_assoc run more r') in
    let found =
      →some_rest (like_go fuel (drop_any q)) (run ++ more) r'
        (Matches→like_go fuel (drop_any q) r' rest (omega (arith, drop_shorter q))) in
    or_true (is_done (drop_any q)) _ (ap (some_rest (like_go fuel (drop_any q))) whole ∙ found)
Matches→like_go zero p s (a_char c r q h) le = absurd (omega arith)
Matches→like_go (suc fuel) p s (a_char c r q h) le = Matches→like_go fuel q r h (omega arith)
Matches→like_go zero p s (itself c r q h) le = absurd (omega arith)
Matches→like_go (suc fuel) p s (itself c r q h) le =
    rw (==_refl c) (Matches→like_go fuel q r h (omega arith))

fold-seen_as : (insensitive : Bool) (c : ℕ) → fold insensitive c ≡ seen_as insensitive c
unfolding fold seen_as
fold-seen_as false c = refl
fold-seen_as true c = refl

all_seen :
    (insensitive : Bool) (s : List ℕ) → map (fold insensitive) s ≡ map (seen_as insensitive) s
all_seen insensitive [] = refl
all_seen insensitive (c ∷ s) = rw (fold-seen_as insensitive c, all_seen insensitive s) refl

-- A pattern that is written with an escape character is compiled to its tokens, folded.
compile-written :
    (e : ℕ) (insensitive : Bool) (toks : List LikeTok)
    → e ≢ b'%'
    → e ≢ b'_'
    → compile (some e) insensitive (written e toks) ≡ map (fold_tok insensitive) toks
unfolding compile_from written plain_tok fold_tok
compile-written e insensitive [] h1 h2 = refl
compile-written e insensitive (any ∷ toks) h1 h2 =
    let not_e : (b'%' == e) ≡ false = ground arith in
    rw (not_e, compile-written e insensitive toks h1 h2) refl
compile-written e insensitive (one ∷ toks) h1 h2 =
    let not_e : (b'_' == e) ≡ false = ground arith in
    rw (not_e, compile-written e insensitive toks h1 h2) refl
compile-written e insensitive (lit c ∷ toks) h1 h2 =
    let ih = compile-written e insensitive toks h1 h2 in
    elim (Bool-cases (c == b'%' || c == b'_' || c == e)) [
      | inl special ↦ rw (special, ==_refl e, ih, fold-seen_as insensitive c) refl
      | inr plain ↦
          let n1 : (c == b'%') ≡ false = ground arith in
          let n2 : (c == b'_') ≡ false = ground arith in
          let n3 : (c == e) ≡ false = ground arith in
          rw (plain, n3, n1, n2, ih, fold-seen_as insensitive c) refl
    ]

-- LIKE with an escape character other than `%` and `_`, and ILIKE, on a pattern that is written from
-- tokens, their special characters escaped: the string matches exactly if its characters are in the
-- meaning of the tokens, both as they are for LIKE, and both with the capital letters of ASCII made
-- small for ILIKE.
pub like_match-written :
    (e : ℕ) (insensitive : Bool) (toks : List LikeTok) (s : List ℕ)
    → e ≢ b'%'
    → e ≢ b'_'
    → (like_match s (written e toks) (some e) insensitive ≡ true)
      ↔ Matches (map (fold_tok insensitive) toks) (map (seen_as insensitive) s)
unfolding like_match
like_match-written e insensitive toks s h1 h2 =
    let same = compile-written e insensitive toks h1 h2 in
    let p = map (fold_tok insensitive) toks in
    rw (same, all_seen insensitive s)
      (
        like_go→Matches (length p) p (map (seen_as insensitive) s),
        λ m. Matches→like_go (length p) p (map (seen_as insensitive) s) m (omega arith),
      )
