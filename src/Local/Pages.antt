-- ===== src/Local/Pages.antt =====
-- `put_page` and `get_page` of crates/storage/src/local.rs: the read floor of MVCC.
use bydesigns_db.Base.{
  ℕ, ◌≤◌, ◌≡◌, refl, inl, inr, true, Option, none, some, List, [], ◌∷◌, ◌++◌, arith, leb, ◌==◌,
  ◌&&◌, if◌then◌else◌, length, Bool-cases, le→ltb_not,
}
use bydesigns_db.Base.Assoc.{Assoc, get}
use bydesigns_db.Types.{Result, ok, err, not_found, Page, FenceToken, page_size, fit_page}
use bydesigns_db.Local.State.{Inner, PageChain, done, push_version}
use bydesigns_db.Local.Ops.{append_frame, check_fence, put_page, get_page, find_version}

-- The chain of a page, empty if it has none.
abbrev chain_of : Option PageChain → PageChain
chain_of none = []
chain_of (some c) = c

get-push_version :
    (m : Assoc PageChain) (id k : ℕ) (v : ℕ × List ℕ)
    → get (push_version m id v) k
      ≡ (if id == k then some (chain_of (get m k) ++ (v ∷ [])) else get m k)
unfolding get push_version
get-push_version [] id k v = ground arith
get-push_version ((i, c) ∷ m) id k v = ground (arith, get-push_version m id k v)

find_version-append :
    (c : PageChain) (lsn image_lsn : ℕ) (image : List ℕ)
    → find_version lsn (c ++ ((image_lsn, image) ∷ []))
      ≡ (if leb image_lsn lsn then some (image_lsn, image) else find_version lsn c)
unfolding find_version
find_version-append [] lsn l image = ground arith
find_version-append ((k, i) ∷ c) lsn l image = ground (arith, find_version-append c lsn l image)

-- A version that is found is not above the snapshot.
pub find_version-le :
    (c : PageChain) (lsn v : ℕ) (image : List ℕ) → find_version lsn c ≡ some (v, image) → v ≤ lsn
unfolding find_version
find_version-le [] lsn v image h = cc
find_version-le ((k, i) ∷ c) lsn v image h = ground (arith, find_version-le c lsn v image)

-- What a read of `page_id` at `lsn` returns after a write at `at` of `image` to `id`.
abbrev pub read_after : ℕ → ℕ → List ℕ → ℕ → ℕ → Result Page → Result Page
read_after id at image page_id lsn before =
    if id == page_id && leb at lsn
    then ok (record { id = page_id; lsn = at; bytes = fit_page image })
    else before

abbrev shown : ℕ → Option (ℕ × List ℕ) → Result Page
shown page_id none = err not_found
shown page_id (some (v, image)) = ok (record { id = page_id; lsn = v; bytes = image })

-- What the chain of a page shows at an LSN.
abbrev visible : ℕ → ℕ → Option PageChain → Result Page
visible page_id lsn o = shown page_id (find_version lsn (chain_of o))

get_page-visible :
    (page_id lsn : ℕ) (s : Inner)
    → s.retention_floor ≤ lsn
    → (get_page page_id lsn s).0 ≡ visible page_id lsn (get s.pages page_id)
unfolding get_page find_version
get_page-visible page_id lsn s floor = ground arith

visible_after :
    (id at : ℕ) (image : List ℕ) (page_id lsn : ℕ) (o : Option PageChain)
    → visible page_id lsn (if id == page_id then some (chain_of o ++ ((at, image) ∷ [])) else o) ≡ (
        if id == page_id && leb at lsn
        then ok (record { id = page_id; lsn = at; bytes = image })
        else visible page_id lsn o)
unfolding find_version
visible_after id at image page_id lsn o = elim (Bool-cases (id == page_id)) [
  | inr other ↦ rw other
  | inl same ↦ elim (Bool-cases (leb at lsn)) [
    | inl seen ↦ rw same (rw (find_version-append (chain_of o) lsn at image, seen))
    | inr unseen ↦ rw same (rw (find_version-append (chain_of o) lsn at image, unseen))
  ]
]

pages-put_page :
    (s : Inner) (token : FenceToken) (id : ℕ) (image : List ℕ)
    → length image ≤ page_size
    → token.epoch ≡ s.epoch
    → ((put_page done token id image s).1.pages
        ≡ push_version s.pages id (s.next_lsn, fit_page image))
      × ((put_page done token id image s).1.retention_floor ≡ s.retention_floor)
unfolding put_page check_fence append_frame
pages-put_page s token id image small held =
    let fence : (token.epoch == s.epoch) ≡ true = ground arith in
    rw (le→ltb_not page_size (length image) small, fence) (refl, refl)

pub put_page_ok :
    (s : Inner) (token : FenceToken) (id : ℕ) (image : List ℕ)
    → length image ≤ page_size
    → token.epoch ≡ s.epoch
    → (put_page done token id image s).0 ≡ ok s.next_lsn
unfolding put_page check_fence append_frame
put_page_ok s token id image small held =
    let fence : (token.epoch == s.epoch) ≡ true = ground arith in
    rw (le→ltb_not page_size (length image) small, fence) refl

pub get_page_after :
    (s : Inner) (token : FenceToken) (id : ℕ) (image : List ℕ) (page_id lsn : ℕ)
    → length image ≤ page_size
    → token.epoch ≡ s.epoch
    → s.retention_floor ≤ lsn
    → (get_page page_id lsn (put_page done token id image s).1).0
      ≡ read_after id s.next_lsn image page_id lsn (get_page page_id lsn s).0
get_page_after s token id image page_id lsn small held floor =
    let (pages_eq, floor_eq) = pages-put_page s token id image small held in
    rw
      (
        get_page-visible page_id lsn (put_page done token id image s).1 (rw floor_eq floor),
        get_page-visible page_id lsn s floor,
        pages_eq,
        get-push_version s.pages id page_id (s.next_lsn, fit_page image),
      )
      (visible_after id s.next_lsn (fit_page image) page_id lsn (get s.pages page_id))

-- A write of a page of at most the page size by the current writer, whose file calls succeed, returns
-- the next LSN. After it, a read of any page at any LSN from the retention floor on returns the new
-- image, padded to the page size, if it is of that page and at or above the LSN that the write
-- returned; any other read returns what it returned before.
pub get_page-put_page :
    (s : Inner) (token : FenceToken) (id : ℕ) (image : List ℕ) (page_id lsn : ℕ)
    → length image ≤ page_size
    → token.epoch ≡ s.epoch
    → s.retention_floor ≤ lsn
    → ((put_page done token id image s).0 ≡ ok s.next_lsn)
      × ((get_page page_id lsn (put_page done token id image s).1).0
          ≡ read_after id s.next_lsn image page_id lsn (get_page page_id lsn s).0)
get_page-put_page s token id image page_id lsn small held floor = (
  put_page_ok s token id image small held,
  get_page_after s token id image page_id lsn small held floor,
)
