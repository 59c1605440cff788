-- ===== src/Wal/Utf8.antt =====
-- The bytes that Rust takes for a string: `String::from_utf8` in crates/engine/src/wal.rs.
use bydesigns_db.Base.{
  ℕ, zero, suc, Bool, true, false, ◌&&◌, ◌==◌, leb, ltb, if◌then◌else◌, List, [], ◌∷◌,
}

-- The bytes that must follow: how many, and the range of the first of them.
pub record Pending : Type 0 where
  pub count : ℕ
  pub lo : ℕ
  pub hi : ℕ

abbrev nothing_pending : Pending
nothing_pending = record { count = 0; lo = 128; hi = 191 }

-- What a leading byte wants behind it; a byte that leads nothing wants what no byte can be.
abbrev wanted : ℕ → Pending
wanted b =
    if ltb b 128
    then nothing_pending
    else if ltb b 194
    then record { count = 1; lo = 256; hi = 0 }
    else if leb b 223
    then record { count = 1; lo = 128; hi = 191 }
    else if b == 224
    then record { count = 2; lo = 160; hi = 191 }
    else if b == 237
    then record { count = 2; lo = 128; hi = 159 }
    else if leb b 239
    then record { count = 2; lo = 128; hi = 191 }
    else if b == 240
    then record { count = 3; lo = 144; hi = 191 }
    else if leb b 243
    then record { count = 3; lo = 128; hi = 191 }
    else if b == 244
    then record { count = 3; lo = 128; hi = 143 }
    else record { count = 1; lo = 256; hi = 0 }

unfoldable pub utf8_behind : List ℕ → ℕ → ℕ → ℕ → Bool
utf8_behind [] zero lo hi = true
utf8_behind [] (suc n) lo hi = false
utf8_behind (b ∷ bytes) zero lo hi = let w = wanted b in utf8_behind bytes w.count w.lo w.hi
utf8_behind (b ∷ bytes) (suc n) lo hi =
    let rest = utf8_behind bytes n 128 191 in leb lo b && (leb b hi && rest)

unfoldable pub is_utf8 : List ℕ → Bool
unfolding utf8_behind
is_utf8 bytes = utf8_behind bytes 0 128 191
