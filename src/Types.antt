-- ===== src/Types.antt =====
-- crates/storage/src/types.rs: the types of the storage seam.
-- An `Lsn`, a `PageId`, a `BranchId` is its number; a byte string is a list of numbers below 256.
-- The texts of the errors are diagnostics and are left out: an error is its kind, with the
-- numbers that `Fenced` carries. `lease_until`, an `Instant` that the modelled code writes and
-- never reads, is left out of `FenceToken`.
use bydesigns_db.Base.{
  ℕ, ◌-◌, ◌≡◌, ◌⊎◌, inl, inr, refl, Bool, true, false, List, ◌++◌, length, take, replicate,
}
use bydesigns_db.Base.{arith, length-append, length-take, length-replicate}

abbrev pub page_size : ℕ
page_size = 4096

abbrev pub lsn_zero : ℕ
lsn_zero = 0

abbrev pub branch_root : ℕ
branch_root = 0

pub data StorageError : Type 0 where
  not_found : StorageError
  fenced : ℕ → ℕ → StorageError
  contended : StorageError
  transient : StorageError
  durability_unconfirmed : StorageError
  corruption : StorageError
  invalid : StorageError

pub is_retryable : StorageError → Bool
is_retryable transient = true
is_retryable contended = true
is_retryable _ = false

-- `Result<T, StorageError>`; `?` is the bind.
pub data Result {ℓ} (A : Type ℓ) : Type ℓ where
  ok : A → Result A
  err : StorageError → Result A

pub Result-cases {ℓ} :
    {A : Type ℓ} (r : Result A) → ((a : A) × (r ≡ ok a)) ⊎ ((e : StorageError) × (r ≡ err e))
Result-cases (ok a) = inl (a, refl)
Result-cases (err e) = inr (e, refl)

module _ {ℓ κ} {X : Type ℓ} {Y : Type κ} where
  infixl 5 ◌>>=◌
  abbrev pub ◌>>=◌ : Result X → (X → Result Y) → Result Y
  ok x >>= next = next x
  err why >>= next = err why

  -- What a successful chain of two steps consists of.
  pub >>=-eq-ok :
      (first : Result X) (next : X → Result Y) {y : Y}
      → (first >>= next) ≡ ok y
      → (x : X) × (first ≡ ok x) × (next x ≡ ok y)
  >>=-eq-ok (err why) next h = cc
  >>=-eq-ok (ok x) next h = (x, refl, h)

pub record Page : Type 0 where
  pub id : ℕ
  pub lsn : ℕ
  pub bytes : List ℕ

-- The image that a page keeps: zero-padded or truncated to `page_size`.
abbrev pub fit_page : List ℕ → List ℕ
fit_page image = take page_size image ++ replicate (page_size - length image) 0

pub from_slice : ℕ → ℕ → List ℕ → Page
from_slice id lsn image = record { id = id; lsn = lsn; bytes = fit_page image }

pub length-fit_page : (image : List ℕ) → length (fit_page image) ≡ page_size
length-fit_page image = omega (
  arith,
  length-append (take page_size image) (replicate (page_size - length image) 0),
  length-take page_size image,
  length-replicate {A = ℕ} (page_size - length image) 0,
)

pub record LogEntry : Type 0 where
  pub lsn : ℕ
  pub bytes : List ℕ

pub record StorageStats : Type 0 where
  pub wal_appends : ℕ
  pub wal_bytes : ℕ
  pub page_reads : ℕ
  pub page_read_bytes : ℕ
  pub cache_hits : ℕ
  pub cache_misses : ℕ
  pub fetch_latency_us_total : ℕ
  pub fsyncs : ℕ

abbrev pub no_stats : StorageStats
no_stats = record {
  wal_appends = 0;
  wal_bytes = 0;
  page_reads = 0;
  page_read_bytes = 0;
  cache_hits = 0;
  cache_misses = 0;
  fetch_latency_us_total = 0;
  fsyncs = 0;
}

pub record FenceToken : Type 0 where
  pub epoch : ℕ
  pub owner : ℕ

pub record BranchRef : Type 0 where
  pub id : ℕ
  pub parent : ℕ
  pub base_lsn : ℕ
  pub head_lsn : ℕ
