-- ===== src/Wal/Replay.antt =====
-- `replay` of crates/engine/src/db.rs: the log of the engine, grouped by its commit markers. What one
-- operation does to the store, `apply_replay`, is an argument here.
use bydesigns_db.Base.{
  ℕ, ◌+◌, max, ◌≡◌, ◌≢◌, refl, sym, ap, ◌∙◌, Bool, true, false, if◌then◌else◌, Option, none, some,
  List, [], ◌∷◌, ◌++◌, map, length, All, append-nil, append_assoc,
}
use bydesigns_db.Types.{LogEntry}
use bydesigns_db.Wal.{
  WalOp, commit, create_table, drop_table, insert, delete, create_index, drop_index,
  alter_add_column, alter_drop_column, alter_rename_column, alter_rename_table, create_view,
  drop_view, create_policy, drop_policy, set_rls,
}
use bydesigns_db.Wal.Encode.{encode}
use bydesigns_db.Wal.Decode.{decode}
use bydesigns_db.Wal.RoundTrip.{FitsOp, carried, decode-encode}

unfoldable pub is_commit : WalOp → Bool
is_commit commit = true
is_commit _ = false

module _ {Store : Type 0} (apply_replay : Store → WalOp → ℕ → Store) where
  unfoldable pub apply_group : List WalOp → ℕ → Store → Store
  apply_group [] lsn s = s
  apply_group (op ∷ group) lsn s = apply_group group lsn (apply_replay s op lsn)

  -- The store and the mark of the readers, after one entry, which `rest` follows.
  unfoldable pub replay_entry :
      Option WalOp
      → ℕ
      → List WalOp
      → Store × ℕ
      → (List WalOp → Store × ℕ → Option (Store × ℕ))
      → Option (Store × ℕ)
  unfolding apply_group is_commit
  replay_entry none lsn group s rest = none
  replay_entry (some op) lsn group s rest =
      if is_commit op
      then rest [] (apply_group group lsn s.0, max s.1 lsn)
      else rest (group ++ (op ∷ [])) s

  unfoldable pub replay : List LogEntry → List WalOp → Store × ℕ → Option (Store × ℕ)
  unfolding replay_entry
  replay [] group s = some s
  replay (e ∷ entries) group s =
      replay_entry (decode e.bytes) e.lsn group s (λ g t. replay entries g t)

-- The operations of the transactions of a log, in order, each with the LSN of the marker that its
-- transaction ends with.
abbrev pub committed_ops : ℕ → List (List WalOp) → List (WalOp × ℕ)
committed_ops first [] = []
committed_ops first (ops ∷ txs) =
    let lsn = first + length ops in map (λ op. (carried op, lsn)) ops ++ committed_ops (lsn + 1) txs

-- The highest of a mark and the LSNs of the markers.
abbrev pub highest : ℕ → List (List WalOp) → ℕ → ℕ
highest first [] mark = mark
highest first (ops ∷ txs) mark =
    let lsn = first + length ops in highest (lsn + 1) txs (max mark lsn)

-- Operations done one after the other, each at its LSN.
abbrev pub done_in_order :
    {Store : Type 0} → (Store → WalOp → ℕ → Store) → List (WalOp × ℕ) → Store → Store
done_in_order apply [] s = s
done_in_order apply ((op, lsn) ∷ ops) s = done_in_order apply ops (apply s op lsn)

-- An operation of a transaction: it fits its record, and is no marker.
abbrev pub IsBody : WalOp → Type 0
IsBody op = FitsOp op × (op ≢ commit)

abbrev pub entries_from : ℕ → List WalOp → List LogEntry → List LogEntry
entries_from lsn [] more = more
entries_from lsn (op ∷ ops) more =
    record { lsn = lsn; bytes = encode op } ∷ entries_from (lsn + 1) ops more

-- The log of transactions, with an unfinished one behind them.
abbrev pub log_of : ℕ → List (List WalOp) → List WalOp → List LogEntry
log_of first [] tail = entries_from first tail []
log_of first (ops ∷ txs) tail =
    let lsn = first + length ops in
    entries_from first ops (record { lsn = lsn; bytes = encode commit } ∷ log_of (lsn + 1) txs tail)

is_commit-carried : (op : WalOp) → op ≢ commit → is_commit (carried op) ≡ false
unfolding is_commit
is_commit-carried (create_table a) h = refl
is_commit-carried (drop_table a) h = refl
is_commit-carried (insert a b c) h = refl
is_commit-carried (delete a b) h = refl
is_commit-carried (create_index a) h = refl
is_commit-carried (drop_index a) h = refl
is_commit-carried (alter_add_column a b) h = refl
is_commit-carried (alter_drop_column a b) h = refl
is_commit-carried (alter_rename_column a b c) h = refl
is_commit-carried (alter_rename_table a b) h = refl
is_commit-carried (create_view a b) h = refl
is_commit-carried (drop_view a) h = refl
is_commit-carried (create_policy a b) h = refl
is_commit-carried (drop_policy a b) h = refl
is_commit-carried (set_rls a b) h = refl
is_commit-carried commit h = absurd (h refl)

module _ {Store : Type 0} (apply_replay : Store → WalOp → ℕ → Store) where
  replay-entries_from :
      (ops : List WalOp) (lsn : ℕ) (more : List LogEntry) (group : List WalOp) (s : Store × ℕ)
      → All IsBody ops
      → replay apply_replay (entries_from lsn ops more) group s
        ≡ replay apply_replay more (group ++ map carried ops) s
  unfolding replay replay_entry
  replay-entries_from [] lsn more group s h = rw (append-nil group) refl
  replay-entries_from (op ∷ ops) lsn more group s ((fits, body), hs) =
      rw (decode-encode op fits, is_commit-carried op body)
        (replay-entries_from ops (lsn + 1) more (group ++ (carried op ∷ [])) s hs
          ∙ ap (λ g. replay apply_replay more g s)
              (append_assoc group (carried op ∷ []) (map carried ops)))

  apply_group-done_in_order :
      (ops : List WalOp) (lsn : ℕ) (more : List (WalOp × ℕ)) (s : Store)
      → done_in_order apply_replay (map (λ op. (carried op, lsn)) ops ++ more) s
        ≡ done_in_order apply_replay more (apply_group apply_replay (map carried ops) lsn s)
  unfolding apply_group
  apply_group-done_in_order [] lsn more s = refl
  apply_group-done_in_order (op ∷ ops) lsn more s =
      apply_group-done_in_order ops lsn more (apply_replay s (carried op) lsn)

  -- The replay of a log of transactions whose operations fit their records, with the operations of an
  -- unfinished transaction behind them: the operations of the transactions are applied one after the
  -- other, in the order of the log, each once and at the LSN of the commit marker of its transaction;
  -- the mark of the readers becomes the highest of the markers and of the mark before; and nothing of
  -- the unfinished transaction is applied.
  pub replay-log_of :
      (txs : List (List WalOp)) (tail : List WalOp) (first : ℕ) (s : Store × ℕ)
      → All (All IsBody) txs
      → All IsBody tail
      → replay apply_replay (log_of first txs tail) [] s
        ≡ some (done_in_order apply_replay (committed_ops first txs) s.0, highest first txs s.1)
  unfolding replay replay_entry
  replay-log_of [] tail first s h t = replay-entries_from tail first [] [] s t
  replay-log_of (ops ∷ txs) tail first s (here, h) t =
      let lsn = first + length ops in
      replay-entries_from ops first
        (record { lsn = lsn; bytes = encode commit } ∷ log_of (lsn + 1) txs tail) [] s here
      ∙ rw (decode-encode commit tt) (
          replay-log_of txs tail (lsn + 1)
            (apply_group apply_replay (map carried ops) lsn s.0, max s.1 lsn) h t
          ∙ ap (λ x. some (x, highest (lsn + 1) txs (max s.1 lsn)))
              (sym (apply_group-done_in_order ops lsn (committed_ops (lsn + 1) txs) s.0)))
