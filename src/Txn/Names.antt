-- ===== src/Txn/Names.antt =====
-- The names of savepoints in crates/engine/src/conn.rs, compared without the case of ASCII letters.
use bydesigns_db.Base.{
  ℕ, suc, ◌+◌, Bool, ◌&&◌, leb, if◌then◌else◌, bytes_eq, Option, none, some, List, [], ◌∷◌, map,
}

abbrev pub Text : Type 0
Text = List ℕ

-- `u8::to_ascii_lowercase` and `eq_ignore_ascii_case`.
unfoldable pub to_ascii_lowercase : ℕ → ℕ
to_ascii_lowercase c = if leb b'A' c && leb c b'Z' then c + 32 else c

unfoldable pub eq_ignore_ascii_case : Text → Text → Bool
unfolding to_ascii_lowercase
eq_ignore_ascii_case a b = bytes_eq (map to_ascii_lowercase a) (map to_ascii_lowercase b)

pub record Savepoint : Type 0 where
  pub name : Text
  pub inserted : List ℕ
  pub deleted : List ℕ
  pub wal_len : ℕ

-- `rposition` by name: the last savepoint of a name, with its position. A savepoint comes before
-- the one that is found behind it.
unfoldable pub found_behind : Bool → Savepoint → Option (ℕ × Savepoint) → Option (ℕ × Savepoint)
found_behind same s (some (i, found)) = some (suc i, found)
found_behind same s none = if same then some (0, s) else none

unfoldable pub last_named : Text → List Savepoint → Option (ℕ × Savepoint)
unfolding eq_ignore_ascii_case found_behind
last_named name [] = none
last_named name (s ∷ savepoints) =
    found_behind (eq_ignore_ascii_case s.name name) s (last_named name savepoints)
