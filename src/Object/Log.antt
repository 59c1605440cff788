-- ===== src/Object/Log.antt =====
-- The commit log of crates/storage/src/object/mod.rs: segments that claim the next slot by a
-- conditional write, and the scan of the log.
use bydesigns_db.Base.{
  ℕ, zero, suc, ◌+◌, ◌-◌, max, Bool, true, false, ltb, leb, if◌then◌else◌, List, [], ◌∷◌, ◌++◌, map,
  length,
}
use bydesigns_db.Types.{transient, contended, corruption, invalid, LogEntry, FenceToken, page_size}
use bydesigns_db.Codec.{LogItem, wal, page, encode_segment, decode_segment}
use bydesigns_db.Object.Client.{Key, log, all_logs, Answer, done, failed, Etag, ObjectStore}
use bydesigns_db.Object.Client
use bydesigns_db.Object.State.{
  Config, Inner, Action, pure, fail, lift, or_fail, ◌>>=◌, ◌>>◌, state, set_state, fail_if, raw,
  obj_get, obj_list, check_fence,
}
use bydesigns_db.Object.Layers.{memtable_insert, flush}

-- The greatest slot among the keys of the log.
unfoldable pub max_seq : List Key → ℕ
max_seq [] = 0
max_seq (log n ∷ ks) = max n (max_seq ks)
max_seq (k ∷ ks) = max_seq ks

unfoldable pub has_wal : List LogItem → Bool
has_wal [] = false
has_wal (wal bytes ∷ items) = true
has_wal (page page_id image ∷ items) = has_wal items

-- The loop over the items of a durable segment.
unfoldable pub apply_items : List LogItem → Inner → Inner
unfolding memtable_insert
apply_items [] g = g
apply_items (wal bytes ∷ items) g = apply_items items (record g { next_lsn = g.next_lsn + 1 })
apply_items (page page_id image ∷ items) g = apply_items items (record g {
  next_lsn = g.next_lsn + 1;
  memtable =
      memtable_insert (record { page_id = page_id; lsn = g.next_lsn; image = image }) g.memtable;
  memtable_bytes = g.memtable_bytes + length image;
})

-- What `append_segment` makes of the state once the segment is durable.
unfoldable pub after_segment : List LogItem → Inner → Inner
unfolding apply_items has_wal
after_segment items g =
    let g1 = apply_items items g in
    record g1 {
      next_seq = g.next_seq + 1;
      durable_lsn = g1.next_lsn - 1;
      commit_lsn = if has_wal items then g1.next_lsn - 1 else g1.commit_lsn;
    }

unfoldable pub insert_seq : ℕ → List ℕ → List ℕ
insert_seq n [] = n ∷ []
insert_seq n (m ∷ ms) = let rest = insert_seq n ms in if ltb m n then m ∷ rest else n ∷ (m ∷ ms)

-- The slots of the log in order: `log_keys.sort()`, as the slots are printed with leading zeros.
unfoldable pub sorted_seqs : List Key → List ℕ
unfolding insert_seq
sorted_seqs [] = []
sorted_seqs (log n ∷ ks) = insert_seq n (sorted_seqs ks)
sorted_seqs (k ∷ ks) = sorted_seqs ks

-- The WAL records of a list of items above `after`, with the LSN of the last item.
unfoldable pub wal_items : ℕ → ℕ → List LogItem → List LogEntry × ℕ
wal_items after lsn [] = ([], lsn)
wal_items after lsn (wal bytes ∷ items) =
    let (rest, last) = wal_items after (lsn + 1) items in
    (if ltb after (lsn + 1) then record { lsn = lsn + 1; bytes = bytes } ∷ rest else rest, last)
wal_items after lsn (page page_id image ∷ items) = wal_items after (lsn + 1) items

module _ {S : Type 0} (store : ObjectStore S) where
  unfoldable pub scan_next_seq : Action S ℕ
  unfolding max_seq
  scan_next_seq = do keys ← obj_list store all_logs; pure (max_seq keys + 1)

  -- The slot was taken: the next one, and the fence again.
  unfoldable pub refresh : FenceToken → Action S (Unit {0})
  unfolding scan_next_seq
  refresh token = do
    seq ← scan_next_seq
    g ← state
    set_state (record g { next_seq = seq })
    check_fence store token

  abbrev pub after_put : Answer Etag → Action S (Unit {0}) → Action S (Unit {0})
  after_put (done etag) again = pure tt
  after_put (failed Client.precondition) again = again
  after_put (failed Client.transient) again = fail transient
  after_put (failed Client.not_found) again = fail transient

  -- The loop of `append_segment` with so many retries left.
  unfoldable pub claim : ℕ → FenceToken → List ℕ → Action S (Unit {0})
  unfolding refresh
  claim zero token bytes = do
    g ← state
    put ← raw store (store.put_if_absent (log g.next_seq) bytes)
    after_put put (refresh token >> fail contended)
  claim (suc n) token bytes = do
    g ← state
    put ← raw store (store.put_if_absent (log g.next_seq) bytes)
    after_put put (refresh token >> claim n token bytes)

  unfoldable pub append_segment : Config → FenceToken → List LogItem → Action S ℕ
  unfolding claim after_segment
  append_segment config token items = do
    check_fence store token
    claim config.cas_max_retries token (encode_segment items)
    g ← state
    set_state (after_segment items g)
    g1 ← state
    (if leb config.flush_threshold_bytes g1.memtable_bytes then flush store else pure tt)
    pure ((after_segment items g).durable_lsn)

  unfoldable pub append_wal : Config → FenceToken → List (List ℕ) → Action S ℕ
  unfolding append_segment
  append_wal config token [] = fail invalid
  append_wal config token (r ∷ rs) = append_segment config token (map wal (r ∷ rs))

  unfoldable pub put_page : Config → FenceToken → ℕ → List ℕ → Action S ℕ
  unfolding append_segment
  put_page config token page_id image = do
    fail_if (ltb page_size (length image)) invalid
    append_segment config token (page page_id image ∷ [])

  -- One segment of the log.
  unfoldable pub read_segment : ℕ → Action S (List LogItem)
  read_segment seq = do
    found ← obj_get store (log seq)
    got ← or_fail found corruption
    lift (decode_segment got.bytes)

  unfoldable pub scan_segments : ℕ → ℕ → List ℕ → Action S (List LogEntry)
  unfolding read_segment wal_items
  scan_segments after lsn [] = pure []
  scan_segments after lsn (seq ∷ seqs) = do
    items ← read_segment seq
    rest ← scan_segments after (wal_items after lsn items).1 seqs
    pure ((wal_items after lsn items).0 ++ rest)

  unfoldable pub scan_wal : ℕ → Action S (List LogEntry)
  unfolding scan_segments sorted_seqs
  scan_wal after = do keys ← obj_list store all_logs; scan_segments after 0 (sorted_seqs keys)
