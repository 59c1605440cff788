-- ===== src/Branch/Overlay.antt =====
-- A branch of crates/storage/src/branch.rs whose overlay is the file backend of
-- crates/storage/src/local.rs, over a parent of any kind.
use bydesigns_db.Base.{
  ℕ, ◌+◌, ◌-◌, ◌≤◌, ◌<◌, ◌≡◌, refl, ap, Bool, true, false, ◌&&◌, leb, ◌==◌, Bool-cases, inl, inr,
  List, length, arith,
}
use bydesigns_db.Types.{
  Result, ok, err, not_found, fenced, contended, transient, durability_unconfirmed, corruption,
  invalid, Page, FenceToken, page_size,
}
use bydesigns_db.Local.State.{Inner, done}
use bydesigns_db.Local.Ops
use bydesigns_db.Local.Pages.{read_after, put_page_ok, get_page_after}
use bydesigns_db.Branch.FileStore.{local_storage}
use bydesigns_db.Branch.{Storage, BranchStorage, global_lsn, get_page, put_page, overlay_page}

-- What a branch answers for a page above its fork point, from what the parent answers at the fork
-- point and what the overlay answers.
abbrev answer : ℕ → ℕ → Result Page → Result Page → Result Page
answer base_lsn page_id fallback (ok p) =
    ok (record { id = page_id; lsn = base_lsn + p.lsn; bytes = p.bytes })
answer base_lsn page_id fallback (err not_found) = fallback
answer base_lsn page_id fallback (err e) = err e

answer-read_after :
    (base_lsn at id : ℕ) (image : List ℕ) (page_id lsn : ℕ) (fallback old : Result Page)
    → base_lsn < lsn
    → answer base_lsn page_id fallback (read_after id at image page_id (lsn - base_lsn) old)
      ≡ read_after id (base_lsn + at) image page_id lsn (answer base_lsn page_id fallback old)
answer-read_after base_lsn at id image page_id lsn fallback old above =
    let same : leb at (lsn - base_lsn) ≡ leb (base_lsn + at) lsn = ground arith in
    rw same (elim (Bool-cases (id == page_id && leb (base_lsn + at) lsn)) [
      | inl hit ↦ rw hit refl
      | inr miss ↦ rw miss refl
    ])

and_false : (t : Bool) → (t && false) ≡ false
and_false true = refl
and_false false = refl

module _ {P : Type 0} (parent : Storage P) where
  overlay_page-answer :
      (page_id : ℕ) (res : Result Page) (b : BranchStorage P Inner)
      → (overlay_page parent local_storage page_id res b).0
        ≡ answer b.base_lsn page_id (parent.get_page page_id b.base_lsn b.parent).0 res
  unfolding overlay_page
  overlay_page-answer page_id (ok p) b = refl
  overlay_page-answer page_id (err not_found) b = refl
  overlay_page-answer page_id (err (fenced h c)) b = refl
  overlay_page-answer page_id (err contended) b = refl
  overlay_page-answer page_id (err transient) b = refl
  overlay_page-answer page_id (err durability_unconfirmed) b = refl
  overlay_page-answer page_id (err corruption) b = refl
  overlay_page-answer page_id (err invalid) b = refl

  get_page_above :
      (b : BranchStorage P Inner) (page_id lsn : ℕ)
      → b.base_lsn < lsn
      → (get_page parent local_storage page_id lsn b).0
        ≡ answer b.base_lsn page_id
            (parent.get_page page_id b.base_lsn b.parent).0
            (Ops.get_page page_id (lsn - b.base_lsn) b.overlay).0
  unfolding get_page local_storage
  get_page_above b page_id lsn above =
      let not_below : leb lsn b.base_lsn ≡ false = ground arith in
      let (res, o) = Ops.get_page page_id (lsn - b.base_lsn) b.overlay in
      rw not_below (overlay_page-answer page_id res (record b { overlay = o }))

  get_page_below :
      (b : BranchStorage P Inner) (page_id lsn : ℕ)
      → lsn ≤ b.base_lsn
      → (get_page parent local_storage page_id lsn b).0 ≡ (parent.get_page page_id lsn b.parent).0
  unfolding get_page
  get_page_below b page_id lsn below =
      let is_below : leb lsn b.base_lsn ≡ true = ground arith in rw is_below refl

  branch_get_page_after :
      (b : BranchStorage P Inner) (token : FenceToken) (id : ℕ) (image : List ℕ) (page_id lsn : ℕ)
      → length image ≤ page_size
      → token.epoch ≡ b.overlay.epoch
      → 0 < b.overlay.next_lsn
      → b.overlay.retention_floor ≤ lsn - b.base_lsn
      → (get_page parent local_storage page_id lsn
          (put_page parent local_storage token id image b).1).0
        ≡ read_after id
            (b.base_lsn + b.overlay.next_lsn)
            image
            page_id
            lsn
            (get_page parent local_storage page_id lsn b).0
  unfolding put_page local_storage
  branch_get_page_after b token id image page_id lsn small held pos floor =
      let after : BranchStorage P Inner = record b {
        overlay = (Ops.put_page done token id image b.overlay).1;
      } in
      elim (Bool-cases (leb lsn b.base_lsn)) [
        | inl low ↦
            let below : lsn ≤ b.base_lsn = ground arith in
            let early : leb (b.base_lsn + b.overlay.next_lsn) lsn ≡ false = ground arith in
            rw
              (
                get_page_below after page_id lsn below,
                get_page_below b page_id lsn below,
                early,
                and_false (id == page_id),
              )
              refl
        | inr high ↦
            let above : b.base_lsn < lsn = ground arith in
            rw
              (
                get_page_above after page_id lsn above,
                get_page_above b page_id lsn above,
                get_page_after b.overlay token id image page_id (lsn - b.base_lsn) small held floor,
              )
              (answer-read_after b.base_lsn b.overlay.next_lsn id image page_id lsn _ _ above)
      ]

  -- A write of a page of at most the page size by the overlay's current writer, to a branch whose
  -- overlay is a file, returns the overlay's next LSN counted from the fork point. After it, a read of
  -- the branch returns the new image, padded to the page size, if it is of that page and at or above
  -- the LSN that the write returned; any other read, of any page and at any LSN, at or below the fork
  -- point too, returns what it returned before. The overlay numbers its entries from 1 or above, and
  -- the read is not below its retention floor.
  pub branch_get_page-put_page :
      (b : BranchStorage P Inner) (token : FenceToken) (id : ℕ) (image : List ℕ) (page_id lsn : ℕ)
      → length image ≤ page_size
      → token.epoch ≡ b.overlay.epoch
      → 0 < b.overlay.next_lsn
      → b.overlay.retention_floor ≤ lsn - b.base_lsn
      → ((put_page parent local_storage token id image b).0 ≡ ok (b.base_lsn + b.overlay.next_lsn))
        × ((get_page parent local_storage page_id lsn
              (put_page parent local_storage token id image b).1).0
            ≡ read_after id
                (b.base_lsn + b.overlay.next_lsn)
                image
                page_id
                lsn
                (get_page parent local_storage page_id lsn b).0)
  unfolding put_page local_storage
  branch_get_page-put_page b token id image page_id lsn small held pos floor = (
    ap (global_lsn b.base_lsn) (put_page_ok b.overlay token id image small held),
    branch_get_page_after b token id image page_id lsn small held pos floor,
  )
