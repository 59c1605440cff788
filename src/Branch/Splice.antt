-- ===== src/Branch/Splice.antt =====
-- The log that crates/storage/src/branch.rs shows: the parent's entries up to the fork point, then
-- the overlay's, shifted behind it.
use bydesigns_db.Base.{
  ℕ, ◌-◌, ◌≤◌, ◌<◌, ◌≡◌, refl, ltb, Bool-cases, inl, inr, List, [], ◌∷◌, ◌++◌, map, ◌+◌, leb, ap,
  subst, ◌∙◌, All, arith,
}
use bydesigns_db.Types.{ok, LogEntry}
use bydesigns_db.Local.Ops.{entries_after}
use bydesigns_db.Base.Selects.{Selects, selects_none, selects_this, selects_past, Selects-unique}
use bydesigns_db.Local.WalScan.{entries_after-Selects}
use bydesigns_db.Branch.{
  Storage, BranchStorage, global_entries, entries_upto, scan_wal, scan_both, scan_overlay, behind,
}

-- A backend in the state `s` shows the log `log`: a scan returns, in order, exactly the entries whose
-- LSN is above its argument, and changes nothing.
abbrev pub Shows : {S : Type 0} → Storage S → List LogEntry → S → Type 0
Shows store log s =
    (after : ℕ)
    → (out : List LogEntry) × (store.scan_wal after s ≡ (ok out, s))
      × Selects (λ e. after < e.lsn) log out

-- Entries behind a fork point: the LSNs counted from it, the bytes kept.
abbrev pub shifted : ℕ → List LogEntry → List LogEntry
shifted base_lsn es = map (λ e. record { lsn = base_lsn + e.lsn; bytes = e.bytes }) es

-- A scan as the code's filter of a log.
abbrev IsLog : {S : Type 0} → Storage S → List LogEntry → S → Type 0
IsLog store log s = (after : ℕ) → store.scan_wal after s ≡ (ok (entries_after after log), s)

abbrev spliced : ℕ → List LogEntry → List LogEntry → List LogEntry
spliced base_lsn parent_log overlay_log =
    entries_upto base_lsn parent_log ++ global_entries base_lsn overlay_log

pub entries_after-append :
    (after : ℕ) (xs ys : List LogEntry)
    → entries_after after (xs ++ ys) ≡ entries_after after xs ++ entries_after after ys
unfolding entries_after
entries_after-append after [] ys = refl
entries_after-append after (x ∷ xs) ys = let ih = entries_after-append after xs ys in ground arith

entries_upto-entries_after :
    (base after : ℕ) (es : List LogEntry)
    → entries_upto base (entries_after after es) ≡ entries_after after (entries_upto base es)
unfolding entries_after entries_upto
entries_upto-entries_after base after [] = refl
entries_upto-entries_after base after (e ∷ es) =
    let ih = entries_upto-entries_after base after es in ground arith

entries_after-global_entries :
    (base after : ℕ) (es : List LogEntry)
    → after < base
    → entries_after after (global_entries base es) ≡ global_entries base es
unfolding entries_after global_entries
entries_after-global_entries base after [] h = refl
entries_after-global_entries base after (e ∷ es) h =
    let ih = entries_after-global_entries base after es h in ground arith

entries_after_zero : (es : List LogEntry) → All (λ e. 0 < e.lsn) es → entries_after 0 es ≡ es
unfolding entries_after
entries_after_zero [] pos = refl
entries_after_zero (e ∷ es) (here, pos) = let ih = entries_after_zero es pos in ground arith

entries_after-entries_upto :
    (base after : ℕ) (es : List LogEntry)
    → base ≤ after
    → entries_after after (entries_upto base es) ≡ []
unfolding entries_after entries_upto
entries_after-entries_upto base after [] h = refl
entries_after-entries_upto base after (e ∷ es) h =
    let ih = entries_after-entries_upto base after es h in ground arith

global_entries-entries_after :
    (base after : ℕ) (es : List LogEntry)
    → base ≤ after
    → global_entries base (entries_after (after - base) es)
      ≡ entries_after after (global_entries base es)
unfolding entries_after global_entries
global_entries-entries_after base after [] h = refl
global_entries-entries_after base after (e ∷ es) h =
    let ih = global_entries-entries_after base after es h in ground arith

scan_overlay-IsLog :
    {P O : Type 0} (parent : Storage P) (overlay : Storage O) (b : BranchStorage P O)
    (out overlay_log : List LogEntry) (after : ℕ)
    → IsLog overlay overlay_log b.overlay
    → scan_overlay parent overlay out after b
      ≡ (ok (out ++ global_entries b.base_lsn (entries_after after overlay_log)), b)
unfolding scan_overlay behind
scan_overlay-IsLog parent overlay b out overlay_log after o = rw (o after) refl

scan_wal-spliced :
    {P O : Type 0} (parent : Storage P) (overlay : Storage O) (b : BranchStorage P O)
    (parent_log overlay_log : List LogEntry) (after : ℕ)
    → IsLog parent parent_log b.parent
    → IsLog overlay overlay_log b.overlay
    → All (λ e. 0 < e.lsn) overlay_log
    → scan_wal parent overlay after b
      ≡ (ok (entries_after after (spliced b.base_lsn parent_log overlay_log)), b)
unfolding scan_wal scan_both
scan_wal-spliced parent overlay b parent_log overlay_log after p o pos =
    let base : ℕ = b.base_lsn in
    let split =
      entries_after-append after (entries_upto base parent_log) (global_entries base overlay_log) in
    elim (Bool-cases (ltb after base)) [
      | inl below ↦
          let lt : after < base = ground arith in
          rw
            (
              below,
              p after,
              scan_overlay-IsLog parent overlay b
                  (entries_upto base (entries_after after parent_log)) overlay_log 0 o,
              entries_after_zero overlay_log pos,
              entries_upto-entries_after base after parent_log,
              split,
              entries_after-global_entries base after overlay_log lt,
            )
            refl
      | inr above ↦
          let le : base ≤ after = ground arith in
          rw
            (
              above,
              scan_overlay-IsLog parent overlay b [] overlay_log (after - base) o,
              split,
              entries_after-entries_upto base after parent_log le,
              global_entries-entries_after base after overlay_log le,
            )
            refl
    ]

Shows-IsLog :
    {S : Type 0} (store : Storage S) (log : List LogEntry) (s : S)
    → Shows store log s
    → IsLog store log s
Shows-IsLog store log s shows after =
    let (out, scanned, selected) = shows after in
    scanned
    ∙ ap (λ es. (ok es, s))
        (Selects-unique log out (entries_after after log) selected
          (entries_after-Selects after log))

pub IsLog-Shows :
    {S : Type 0} (store : Storage S) (log : List LogEntry) (s : S)
    → ((after : ℕ) → store.scan_wal after s ≡ (ok (entries_after after log), s))
    → Shows store log s
IsLog-Shows store log s scans after =
    (entries_after after log, scans after, entries_after-Selects after log)

entries_upto-Selects :
    (base : ℕ) (es : List LogEntry) → Selects (λ e. e.lsn ≤ base) es (entries_upto base es)
unfolding entries_upto
entries_upto-Selects base [] = selects_none
entries_upto-Selects base (e ∷ es) = elim (Bool-cases (leb e.lsn base)) [
  | inl yes_it ↦ rw yes_it (selects_this (ground arith) (entries_upto-Selects base es))
  | inr no_it ↦ rw no_it (selects_past (λ h. ground arith) (entries_upto-Selects base es))
]

global_entries-shifted : (base : ℕ) (es : List LogEntry) → global_entries base es ≡ shifted base es
unfolding global_entries
global_entries-shifted base [] = refl
global_entries-shifted base (e ∷ es) =
    ap (λ r. record { lsn = base + e.lsn; bytes = e.bytes } ∷ r) (global_entries-shifted base es)

-- On backends whose scans return, in order, exactly the entries of a log above their argument, a scan
-- of the branch does so too, and changes nothing. The log of the branch is the entries of the parent's
-- at or below the fork point, and behind them all of the overlay's, their LSNs counted from the fork
-- point on. The overlay numbers its entries from 1 or above.
pub scan_wal-Shows :
    {P O : Type 0} (parent : Storage P) (overlay : Storage O) (b : BranchStorage P O)
    (parent_log upto overlay_log : List LogEntry) (after : ℕ)
    → Shows parent parent_log b.parent
    → Shows overlay overlay_log b.overlay
    → All (λ e. 0 < e.lsn) overlay_log
    → Selects (λ e. e.lsn ≤ b.base_lsn) parent_log upto
    → (out : List LogEntry) × (scan_wal parent overlay after b ≡ (ok out, b))
      × Selects (λ e. after < e.lsn) (upto ++ shifted b.base_lsn overlay_log) out
scan_wal-Shows parent overlay b parent_log upto overlay_log after p o pos forked =
    let code = entries_upto b.base_lsn parent_log ++ global_entries b.base_lsn overlay_log in
    let same : code ≡ upto ++ shifted b.base_lsn overlay_log =
      rw
        (
          global_entries-shifted b.base_lsn overlay_log,
          Selects-unique parent_log (entries_upto b.base_lsn parent_log) upto
              (entries_upto-Selects b.base_lsn parent_log) forked,
        )
        refl in
    (
      entries_after after code,
      scan_wal-spliced parent overlay b parent_log overlay_log after
          (Shows-IsLog parent parent_log b.parent p) (Shows-IsLog overlay overlay_log b.overlay o)
          pos,
      subst (λ log. Selects (λ e. after < e.lsn) log (entries_after after code)) same
          (entries_after-Selects after code),
    )
