-- ===== src/Local/Payload.antt =====
-- The payloads that the methods of crates/storage/src/local.rs write, read back by `read_payload`.
use bydesigns_db.Base.{
  ℕ, ◌+◌, ◌≤◌, ◌≡◌, refl, sym, ◌∙◌, false, some, List, [], ◌∷◌, ◌++◌, append-nil, append_assoc,
  arith, length, take, drop, All, length-append, take-append, drop-append, le→ltb_not, take_all,
}
use bydesigns_db.Base.Bytes.{IsU32, IsU64, to_le, from_le, length-to_le, from_le-to_le}
use bydesigns_db.Types.{LogEntry, branch_root}
use bydesigns_db.Local.Format.{
  wal, page, fence, retention, branch, branch_del, t_wal, t_page, t_fence, t_retention, t_branch,
  t_branch_del, read_records, last_lsn, read_wal, read_payload,
}
use bydesigns_db.Local.Ops.{encode_records, wal_payload}

-- The records of a batch at consecutive LSNs.
abbrev pub entries : ℕ → List (List ℕ) → List LogEntry
entries lsn [] = []
entries lsn (r ∷ rs) = record { lsn = lsn; bytes = r } ∷ entries (lsn + 1) rs

pub last_lsn-entries :
    (lsn : ℕ) (r : List ℕ) (rs : List (List ℕ)) → last_lsn (entries lsn (r ∷ rs)) ≡ lsn + length rs
unfolding last_lsn
last_lsn-entries lsn r [] = omega arith
last_lsn-entries lsn r (s ∷ rs) = last_lsn-entries (lsn + 1) s rs ∙ omega arith

read_records-encode_records :
    (rs : List (List ℕ)) (lsn : ℕ)
    → All (λ r. IsU32 (length r)) rs
    → read_records (length rs) (encode_records rs) lsn ≡ (entries lsn rs, lsn + length rs, false)
unfolding read_records encode_records
read_records-encode_records [] lsn h = ground arith
read_records-encode_records (r ∷ rs) lsn (h, hs) =
    let size : List ℕ = to_le 4 (length r) in
    let size_len : length size ≡ 4 = length-to_le 4 (length r) in
    let rest : List ℕ = encode_records rs in
    rw
      (
        le→ltb_not (length (size ++ (r ++ rest))) 4 (omega (arith, length-append size (r ++ rest))),
        take-append 4 size (r ++ rest) (sym size_len),
        drop-append 4 size (r ++ rest) (sym size_len),
        from_le-to_le 4 (length r) h,
        le→ltb_not (length (r ++ rest)) (length r) (omega (arith, length-append r rest)),
        take-append (length r) r rest refl,
        drop-append (length r) r rest refl,
        read_records-encode_records rs (lsn + 1) hs,
      )
      (ground arith)

pub read_payload-wal :
    (r : List ℕ) (rs : List (List ℕ)) (lsn : ℕ)
    → IsU32 (length (r ∷ rs))
    → All (λ r. IsU32 (length r)) (r ∷ rs)
    → read_payload t_wal (wal_payload (r ∷ rs)) lsn
      ≡ (some (wal (entries lsn (r ∷ rs)) (lsn + length rs)), lsn + length (r ∷ rs))
unfolding read_payload wal_payload
read_payload-wal r rs lsn h hs =
    let size : List ℕ = to_le 4 (length (r ∷ rs)) in
    let size_len : length size ≡ 4 = length-to_le 4 (length (r ∷ rs)) in
    let body : List ℕ = encode_records (r ∷ rs) in
    unfold read_wal in
    rw (
      le→ltb_not (length (size ++ body)) 4 (omega (arith, length-append size body)),
      take-append 4 size body (sym size_len),
      drop-append 4 size body (sym size_len),
      from_le-to_le 4 (length (r ∷ rs)) h,
      read_records-encode_records (r ∷ rs) lsn hs,
      last_lsn-entries lsn r rs,
    )

module _ (id lsn : ℕ) (fits : IsU64 id) where
  first_eq : (rest : List ℕ) → from_le (take 8 (to_le 8 id ++ rest)) ≡ id
  first_eq rest =
      rw (take-append 8 (to_le 8 id) rest (sym (length-to_le 8 id))) (from_le-to_le 8 id fits)

  long : (rest : List ℕ) → 8 ≤ length (to_le 8 id ++ rest)
  long rest = omega (arith, length-append (to_le 8 id) rest, length-to_le 8 id)

  pub read_payload-page :
      (image : List ℕ)
      → read_payload t_page (to_le 8 id ++ image) lsn ≡ (some (page lsn id image), lsn + 1)
  unfolding read_payload
  read_payload-page image = rw (
    first_eq image,
    le→ltb_not (length (to_le 8 id ++ image)) 8 (long image),
    drop-append 8 (to_le 8 id) image (sym (length-to_le 8 id)),
  )

  alone : from_le (take 8 (to_le 8 id)) ≡ id
  alone = rw append-nil at (first_eq [])

  pub read_payload-fence : read_payload t_fence (to_le 8 id) lsn ≡ (some (fence id), lsn)
  unfolding read_payload
  read_payload-fence = rw (alone, length-to_le 8 id)

  pub read_payload-retention :
      read_payload t_retention (to_le 8 id) lsn ≡ (some (retention id), lsn)
  unfolding read_payload
  read_payload-retention = rw (alone, length-to_le 8 id)

  pub read_payload-branch_del :
      read_payload t_branch_del (to_le 8 id) lsn ≡ (some (branch_del id), lsn)
  unfolding read_payload
  read_payload-branch_del = rw (alone, length-to_le 8 id)

  pub read_payload-branch :
      (base : ℕ)
      → IsU64 base
      → read_payload t_branch (to_le 8 id ++ (to_le 8 base ++ to_le 8 branch_root)) lsn
        ≡ (some (branch id base branch_root), lsn)
  unfolding read_payload
  read_payload-branch base hb =
      let b : List ℕ = to_le 8 base in
      let parent : List ℕ = to_le 8 branch_root in
      let id_len = length-to_le 8 id in
      let b_len = length-to_le 8 base in
      let parent_len = length-to_le 8 branch_root in
      let behind_base : drop 16 (to_le 8 id ++ (b ++ parent)) ≡ parent =
        rw (← append_assoc (to_le 8 id) b parent)
          (drop-append 16 (to_le 8 id ++ b) parent (omega (arith, length-append (to_le 8 id) b))) in
      rw (
        le→ltb_not (length (to_le 8 id ++ (b ++ parent))) 24
            (omega (arith, length-append (to_le 8 id) (b ++ parent), length-append b parent)),
        first_eq (b ++ parent),
        behind_base,
        drop-append 8 (to_le 8 id) (b ++ parent) (sym id_len),
        take-append 8 b parent (sym b_len),
        from_le-to_le 8 base hb,
        take_all 8 parent (omega arith),
        from_le-to_le 8 branch_root (omega arith),
      )
