-- ===== src/Branch.antt =====
-- crates/storage/src/branch.rs: a branch over the shared history of its parent, with a private
-- overlay for everything that it writes. Both are backends, given by the interface `Storage`,
-- the trait of crates/storage/src/lib.rs: a record of its operations on the backend's state.
pub mod Splice
pub mod FileStore
pub mod Overlay
mod Runs
use bydesigns_db.Base.{
  ℕ, ◌+◌, ◌-◌, ◌≡◌, Bool, true, false, if◌then◌else◌, ltb, leb, List, [], ◌∷◌, ◌++◌, map,
}
use bydesigns_db.Types.{
  StorageError, not_found, Result, ok, err, Page, LogEntry, StorageStats, FenceToken, BranchRef,
}

pub record Storage (S : Type 0) : Type 0 where
  pub get_page : ℕ → ℕ → S → Result Page × S
  pub append_wal : FenceToken → List (List ℕ) → S → Result ℕ × S
  pub put_page : FenceToken → ℕ → List ℕ → S → Result ℕ × S
  pub scan_wal : ℕ → S → Result (List LogEntry) × S
  pub flush : S → Result (Unit {0}) × S
  pub durable_lsn : S → Result ℕ × S
  pub get_commit_lsn : S → Result ℕ × S
  pub acquire_fence : ℕ → S → Result FenceToken × S
  pub renew_fence : FenceToken → S → Result FenceToken × S
  pub release_fence : FenceToken → S → Result (Unit {0}) × S
  pub create_branch : ℕ → S → Result ℕ × S
  pub resolve_branch : ℕ → S → Result BranchRef × S
  pub list_branches : S → Result (List BranchRef) × S
  pub delete_branch : ℕ → S → Result (Unit {0}) × S
  pub set_retention_floor : ℕ → S → Result (Unit {0}) × S
  pub pitr_floor : S → Result ℕ × S
  pub stats : S → StorageStats

-- `BranchStorage`: the states of the two backends and the fork point.
pub record BranchStorage (P O : Type 0) : Type 0 where
  pub parent : P
  pub overlay : O
  pub base_lsn : ℕ

abbrev pub to_global : ℕ → ℕ → ℕ
to_global base_lsn lsn = base_lsn + lsn

abbrev pub to_local : ℕ → ℕ → ℕ
to_local base_lsn lsn = lsn - base_lsn

-- An LSN, a page and the entries of the overlay, as the branch presents them.
abbrev pub global_lsn : ℕ → Result ℕ → Result ℕ
global_lsn base_lsn (ok lsn) = ok (to_global base_lsn lsn)
global_lsn base_lsn (err e) = err e

pub global_entries : ℕ → List LogEntry → List LogEntry
global_entries base_lsn [] = []
global_entries base_lsn (e ∷ es) =
    record { lsn = to_global base_lsn e.lsn; bytes = e.bytes } ∷ global_entries base_lsn es

-- The overlay's answer to a scan, behind what the parent gave.
pub behind : ℕ → List LogEntry → Result (List LogEntry) → Result (List LogEntry)
unfolding global_entries
behind base_lsn out (ok es) = ok (out ++ global_entries base_lsn es)
behind base_lsn out (err e) = err e

-- The entries at or below the fork point.
pub entries_upto : ℕ → List LogEntry → List LogEntry
entries_upto base_lsn [] = []
entries_upto base_lsn (e ∷ es) =
    let rest = entries_upto base_lsn es in if leb e.lsn base_lsn then e ∷ rest else rest

module _ {P O : Type 0} where
  -- An operation that the branch passes to its overlay.
  abbrev pub on_overlay {ℓ} :
      {A : Type ℓ} → (O → Result A × O) → BranchStorage P O → Result A × BranchStorage P O
  on_overlay op b = let (res, o) = op b.overlay in (res, record b { overlay = o })

  abbrev pub on_parent {ℓ} :
      {A : Type ℓ} → (P → Result A × P) → BranchStorage P O → Result A × BranchStorage P O
  on_parent op b = let (res, p) = op b.parent in (res, record b { parent = p })

  abbrev pub on_overlay_lsn : (O → Result ℕ × O) → BranchStorage P O → Result ℕ × BranchStorage P O
  on_overlay_lsn op b = let (res, after) = on_overlay op b in (global_lsn b.base_lsn res, after)

module _ {P O : Type 0} (parent : Storage P) (overlay : Storage O) where
  -- What the branch makes of the overlay's answer for a page above the fork point: the page at its
  -- global LSN, the parent's version at the fork point when there is none, or the error.
  pub overlay_page : ℕ → Result Page → BranchStorage P O → Result Page × BranchStorage P O
  overlay_page page_id (ok p) b =
      (ok (record { id = page_id; lsn = to_global b.base_lsn p.lsn; bytes = p.bytes }), b)
  overlay_page page_id (err not_found) b = on_parent (parent.get_page page_id b.base_lsn) b
  overlay_page page_id (err e) b = (err e, b)

  pub get_page : ℕ → ℕ → BranchStorage P O → Result Page × BranchStorage P O
  unfolding overlay_page
  get_page page_id lsn b =
      if leb lsn b.base_lsn
      then on_parent (parent.get_page page_id lsn) b
      else let (res, after) = on_overlay (overlay.get_page page_id (to_local b.base_lsn lsn)) b in
        overlay_page page_id res after

  pub append_wal : FenceToken → List (List ℕ) → BranchStorage P O → Result ℕ × BranchStorage P O
  append_wal token records b = on_overlay_lsn (overlay.append_wal token records) b

  pub put_page : FenceToken → ℕ → List ℕ → BranchStorage P O → Result ℕ × BranchStorage P O
  put_page token page_id image b = on_overlay_lsn (overlay.put_page token page_id image) b

  -- The overlay's log behind the parent's entries.
  pub scan_overlay :
      List LogEntry → ℕ → BranchStorage P O → Result (List LogEntry) × BranchStorage P O
  unfolding behind
  scan_overlay out after b =
      let (res, next) = on_overlay (overlay.scan_wal after) b in (behind b.base_lsn out res, next)

  pub scan_both :
      Result (List LogEntry) → BranchStorage P O → Result (List LogEntry) × BranchStorage P O
  unfolding scan_overlay entries_upto
  scan_both (ok es) b = scan_overlay (entries_upto b.base_lsn es) 0 b
  scan_both (err e) b = (err e, b)

  pub scan_wal : ℕ → BranchStorage P O → Result (List LogEntry) × BranchStorage P O
  unfolding scan_both scan_overlay
  scan_wal after b =
      if ltb after b.base_lsn
      then (let (res, next) = on_parent (parent.scan_wal after) b in scan_both res next)
      else scan_overlay [] (to_local b.base_lsn after) b

  -- The branch as a backend.
  pub branch_storage : Storage (BranchStorage P O)
  unfolding get_page append_wal put_page scan_wal
  branch_storage = record {
    get_page = get_page;
    append_wal = append_wal;
    put_page = put_page;
    scan_wal = scan_wal;
    flush = on_overlay overlay.flush;
    durable_lsn = on_overlay_lsn overlay.durable_lsn;
    get_commit_lsn = on_overlay_lsn overlay.get_commit_lsn;
    acquire_fence = λ owner. on_overlay (overlay.acquire_fence owner);
    renew_fence = λ token. on_overlay (overlay.renew_fence token);
    release_fence = λ token. on_overlay (overlay.release_fence token);
    create_branch = λ lsn b. on_overlay (overlay.create_branch (to_local b.base_lsn lsn)) b;
    resolve_branch = λ id. on_overlay (overlay.resolve_branch id);
    list_branches = on_overlay overlay.list_branches;
    delete_branch = λ id. on_overlay (overlay.delete_branch id);
    set_retention_floor =
        λ lsn b. on_overlay (overlay.set_retention_floor (to_local b.base_lsn lsn)) b;
    pitr_floor = on_overlay_lsn overlay.pitr_floor;
    stats = λ b. overlay.stats b.overlay;
  }
