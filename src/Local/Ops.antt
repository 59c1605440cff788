-- ===== src/Local/Ops.antt =====
-- crates/storage/src/local.rs: `append_frame` and the methods of `Storage` for `LocalFileStorage`.
-- A method takes the state and returns its result and the new state; one that writes takes the
-- answer of the operating system.
use bydesigns_db.Base.{
  ℕ, ◌+◌, ◌-◌, ◌==◌, Bool, true, false, not, ◌||◌, if◌then◌else◌, Option, none, some, List, [], ◌∷◌,
  ◌++◌, ltb, leb, length, take,
}
use bydesigns_db.Base.Assoc.{Assoc, get, insert, remove}
use bydesigns_db.Base.Bytes.{to_le}
use bydesigns_db.Types.{
  not_found, fenced, transient, durability_unconfirmed, invalid, Result, ok, err, page_size,
  fit_page, Page, LogEntry, FenceToken, BranchRef, branch_root, ◌>>=◌,
}
use bydesigns_db.Local.Format.{
  Frame, wal, t_wal, t_page, t_fence, t_retention, t_branch, t_branch_del, frame_bytes, read_log,
}
use bydesigns_db.Local.State.{
  Inner, PageChain, Io, done, seek_failed, write_failed, sync_failed, overwrite, push_version,
}

unfoldable pub append_frame : Io → ℕ → List ℕ → Inner → Result (Unit {0}) × Inner
append_frame done tag payload s =
    let buf = frame_bytes tag payload in
    (
      ok tt,
      record s {
        file = overwrite s.file s.end buf;
        end = s.end + length buf;
        stats = record s.stats { fsyncs = s.stats.fsyncs + 1 };
      },
    )
append_frame seek_failed tag payload s = (err transient, s)
append_frame (write_failed n) tag payload s = (
  err durability_unconfirmed,
  record s { file = overwrite s.file s.end (take n (frame_bytes tag payload)) },
)
append_frame sync_failed tag payload s = (
  err durability_unconfirmed,
  record s { file = overwrite s.file s.end (frame_bytes tag payload) },
)

-- A method that appends one frame and, if that succeeded, changes the state and returns.
abbrev pub after_append {ℓ} :
    {A : Type ℓ} → Result (Unit {0}) × Inner → (Inner → A × Inner) → Result A × Inner
after_append (ok u, s) k = let (a, s') = k s in (ok a, s')
after_append (err e, s) k = (err e, s)

unfoldable pub check_fence : Inner → FenceToken → Result (Unit {0})
check_fence s token =
    if not (token.epoch == s.epoch) then err (fenced token.epoch s.epoch) else ok tt

-- A method that refuses a fenced writer.
abbrev pub guarded {ℓ} :
    {A : Type ℓ} → Result (Unit {0}) → Inner → Result A × Inner → Result A × Inner
guarded (ok u) s r = r
guarded (err e) s r = (err e, s)

unfoldable pub encode_records : List (List ℕ) → List ℕ
encode_records [] = []
encode_records (r ∷ rs) = to_le 4 (length r) ++ (r ++ encode_records rs)

unfoldable pub wal_payload : List (List ℕ) → List ℕ
unfolding encode_records
wal_payload records = to_le 4 (length records) ++ encode_records records

unfoldable pub append_wal : Io → FenceToken → List (List ℕ) → Inner → Result ℕ × Inner
append_wal io token [] s = (err invalid, s)
append_wal io token (r ∷ rs) s =
    let records : List (List ℕ) = r ∷ rs in
    let payload = wal_payload records in
    guarded (check_fence s token) s (
      after_append (append_frame io t_wal payload s) (λ s'.
        let last = s'.next_lsn + length records - 1 in
        (
          last,
          record s' {
            next_lsn = last + 1;
            view = record s'.view { durable_lsn = last; commit_lsn = last };
            stats = record s'.stats {
              wal_appends = s'.stats.wal_appends + 1;
              wal_bytes = s'.stats.wal_bytes + length payload;
            };
          },
        )))

unfoldable pub put_page : Io → FenceToken → ℕ → List ℕ → Inner → Result ℕ × Inner
put_page io token page_id image s =
    if ltb page_size (length image)
    then (err invalid, s)
    else guarded (check_fence s token) s (
        after_append (append_frame io t_page (to_le 8 page_id ++ image) s) (λ s'.
          let lsn = s'.next_lsn in
          (
            lsn,
            record s' {
              next_lsn = lsn + 1;
              view = record s'.view {
                durable_lsn = lsn;
                pages = push_version s'.pages page_id (lsn, fit_page image);
              };
            },
          )))

unfoldable pub acquire_fence : Io → ℕ → Inner → Result FenceToken × Inner
acquire_fence io owner s =
    let new_epoch = s.epoch + 1 in
    after_append (append_frame io t_fence (to_le 8 new_epoch) s) (λ s'. (
      record { epoch = new_epoch; owner = owner },
      record s' { view = record s'.view { epoch = new_epoch } },
    ))

unfoldable pub renew_fence : FenceToken → Inner → Result FenceToken
unfolding check_fence
renew_fence token s = do u ← check_fence s token; ok token

unfoldable pub create_branch : Io → ℕ → Inner → Result ℕ × Inner
create_branch io base_lsn s =
    if ltb base_lsn s.retention_floor
    then (err not_found, s)
    else let id = s.next_branch_id in
      let bref : BranchRef = record {
        id = id;
        parent = branch_root;
        base_lsn = base_lsn;
        head_lsn = base_lsn;
      } in
      after_append
        (append_frame io t_branch (to_le 8 id ++ (to_le 8 base_lsn ++ to_le 8 branch_root)) s)
        (λ s'. (
          id,
          record s' {
            view = record s'.view {
              branches = insert s'.branches id bref;
              next_branch_id = s'.next_branch_id + 1;
            };
          },
        ))

unfoldable pub resolve_branch : ℕ → Inner → Result BranchRef
resolve_branch id s = elim (get s.branches id) [ none ↦ err not_found | some b ↦ ok b ]

-- `branches.values().any(|b| b.parent == branch)`.
unfoldable pub has_children : ℕ → Assoc BranchRef → Bool
has_children id [] = false
has_children id ((j, b) ∷ m) = b.parent == id || has_children id m

unfoldable pub is_some {ℓ} : {A : Type ℓ} → Option A → Bool
is_some none = false
is_some (some a) = true

-- The removal of the branch's overlay file, whose outcome the code ignores, is not modelled.
unfoldable pub delete_branch : Io → ℕ → Inner → Result (Unit {0}) × Inner
delete_branch io id s =
    if not (is_some (get s.branches id))
    then (err not_found, s)
    else if has_children id s.branches
    then (err invalid, s)
    else after_append (append_frame io t_branch_del (to_le 8 id) s)
        (λ s'. (tt, record s' { view = record s'.view { branches = remove s'.branches id } }))

unfoldable pub set_retention_floor : Io → ℕ → Inner → Result (Unit {0}) × Inner
set_retention_floor io lsn s =
    if ltb lsn s.retention_floor
    then (err invalid, s)
    else after_append (append_frame io t_retention (to_le 8 lsn) s)
        (λ s'. (tt, record s' { view = record s'.view { retention_floor = lsn } }))

-- `chain.iter().rev().find(|(vlsn, _)| vlsn <= lsn)`: the last version that fits.
unfoldable pub find_version : ℕ → PageChain → Option (ℕ × List ℕ)
find_version lsn [] = none
find_version lsn ((vlsn, image) ∷ chain) = elim (find_version lsn chain) [
  | some v ↦ some v
  | none ↦ if leb vlsn lsn then some (vlsn, image) else none
]

unfoldable pub get_page : ℕ → ℕ → Inner → Result Page × Inner
get_page page_id lsn s =
    if ltb lsn s.retention_floor then (err not_found, s) else elim (get s.pages page_id) [
      | none ↦ (err not_found, s)
      | some chain ↦ elim (find_version lsn chain) [
        | none ↦ (err not_found, s)
        | some (vlsn, image) ↦ (
          ok (record { id = page_id; lsn = vlsn; bytes = image }),
          record s {
            stats = record s.stats {
              page_reads = s.stats.page_reads + 1;
              page_read_bytes = s.stats.page_read_bytes + page_size;
            };
          },
        )
      ]
    ]

unfoldable pub entries_after : ℕ → List LogEntry → List LogEntry
entries_after after [] = []
entries_after after (e ∷ es) =
    let rest = entries_after after es in if ltb after e.lsn then e ∷ rest else rest

unfoldable pub wal_entries : ℕ → List Frame → List LogEntry
unfolding entries_after
wal_entries after [] = []
wal_entries after (wal records c ∷ frames) = entries_after after records ++ wal_entries after frames
wal_entries after (f ∷ frames) = wal_entries after frames

unfoldable pub scan_wal : ℕ → Inner → Result (List LogEntry)
scan_wal after s = do (frames, end, next) ← read_log s.file; ok (wal_entries after frames)

-- `sort_by_key(|b| b.id.0)`, a stable sort.
unfoldable pub insert_by_id : BranchRef → List BranchRef → List BranchRef
insert_by_id b [] = b ∷ []
insert_by_id b (c ∷ cs) = if ltb c.id b.id then c ∷ insert_by_id b cs else b ∷ (c ∷ cs)

unfoldable pub sort_branches : Assoc BranchRef → List BranchRef
sort_branches [] = []
sort_branches ((id, b) ∷ m) = insert_by_id b (sort_branches m)

unfoldable pub list_branches : Inner → List BranchRef
unfolding sort_branches insert_by_id
list_branches s = sort_branches s.branches

-- `flush`, by whether the sync succeeds.
unfoldable pub flush : Bool → Inner → Result (Unit {0}) × Inner
flush true s = (ok tt, record s { stats = record s.stats { fsyncs = s.stats.fsyncs + 1 } })
flush false s = (err durability_unconfirmed, s)
