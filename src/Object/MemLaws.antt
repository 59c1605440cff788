-- ===== src/Object/MemLaws.antt =====
-- The in-memory client of crates/storage/src/object/mem.rs under a write of a new object.
use bydesigns_db.Base.{
  ℕ, ◌≤◌, ◌<◌, ◌≡◌, refl, max, Bool, true, false, ltb, if◌then◌else◌, Bool-cases, ◌⊎◌, inl, inr,
  Option, none, some, Option-cases, List, [], ◌∷◌, ◌++◌, append-nil, arith,
}
use bydesigns_db.Object.Client.{
  Key, lease, retention, log, delta, image, branch_ptr, overlay, Prefix, all_logs, all_deltas,
  key_eq, starts_with, GetResult, find, store_at, keys_under,
}
use bydesigns_db.Object.State.{DeltaMeta, ImageMeta}
use bydesigns_db.Object.Log.{max_seq}
use bydesigns_db.Object.Recover.{insert_asc, deltas_of, flushed_of}

-- The first of two answers that is one.
abbrev pub first : {A : Type 0} → Option A → Option A → Option A
first (some a) b = some a
first none b = b

abbrev pub one_if : {A : Type 0} → Bool → A → Option A
one_if true a = some a
one_if false a = none

abbrev pub key_if : Bool → Key → List Key
key_if true k = k ∷ []
key_if false k = []

if_none :
    {A : Type 0} (b : Bool) (a : A) {o : Option A}
    → (if b then some a else o) ≡ none
    → (b ≡ false) × (o ≡ none)
if_none true a h = cc
if_none false a h = (refl, h)

if-first :
    {A : Type 0} (b : Bool) (a : A) (o p : Option A)
    → (if b then some a else first o p) ≡ first (if b then some a else o) p
if-first true a o p = refl
if-first false a o p = refl

if-append :
    (b : Bool) (k : Key) (ks more : List Key)
    → (if b then k ∷ (ks ++ more) else ks ++ more) ≡ (if b then k ∷ ks else ks) ++ more
if-append true k ks more = refl
if-append false k ks more = refl

-- A write of a new object is seen at its key, and nowhere else.
pub find-store_at_new :
    (k j : Key) (v : GetResult) (m : List (Key × GetResult))
    → find k m ≡ none
    → find j (store_at k v m) ≡ first (find j m) (one_if (key_eq k j) v)
unfolding find store_at
find-store_at_new k j v [] h = one (key_eq k j)
  where
    one : (b : Bool) → (if b then some v else none) ≡ one_if b v
    one true = refl
    one false = refl
find-store_at_new k j v ((i, w) ∷ m) h =
    let (miss, rest) = if_none (key_eq i k) w h in
    rw (miss, find-store_at_new k j v m rest) (if-first (key_eq i j) w (find j m) _)

pub keys_under-store_at_new :
    (p : Prefix) (k : Key) (v : GetResult) (m : List (Key × GetResult))
    → find k m ≡ none
    → keys_under p (store_at k v m) ≡ keys_under p m ++ key_if (starts_with p k) k
unfolding find store_at keys_under
keys_under-store_at_new p k v [] h = one (starts_with p k)
  where
    one : (b : Bool) → (if b then k ∷ [] else []) ≡ key_if b k
    one true = refl
    one false = refl
keys_under-store_at_new p k v ((i, w) ∷ m) h =
    let (miss, rest) = if_none (key_eq i k) w h in
    rw (miss, keys_under-store_at_new p k v m rest)
      (if-append (starts_with p i) i (keys_under p m) _)

-- A slot of the log above all that are listed is free.
log_bound : (i : Key) (n : ℕ) (ks : List Key) → key_eq i (log n) ≡ true → n ≤ max_seq (i ∷ ks)
unfolding max_seq
log_bound lease n ks h = cc
log_bound retention n ks h = cc
log_bound (log m) n ks h = ground arith
log_bound (delta lo hi) n ks h = cc
log_bound (image m) n ks h = cc
log_bound (branch_ptr m) n ks h = cc
log_bound (overlay m xs) n ks h = cc

some_if :
    {A : Type 0} (b : Bool) (a v : A) {o : Option A}
    → (if b then some a else o) ≡ some v
    → (b ≡ true) ⊎ (o ≡ some v)
some_if true a v h = inl refl
some_if false a v h = inr h

max_seq-cons : (i : Key) (ks : List Key) → max_seq ks ≤ max_seq (i ∷ ks)
unfolding max_seq
max_seq-cons lease ks = omega arith
max_seq-cons retention ks = omega arith
max_seq-cons (log m) ks = omega arith
max_seq-cons (delta lo hi) ks = omega arith
max_seq-cons (image m) ks = omega arith
max_seq-cons (branch_ptr m) ks = omega arith
max_seq-cons (overlay m xs) ks = omega arith

max_seq_other :
    (i : Key) (ks : List Key) → starts_with all_logs i ≡ false → max_seq (i ∷ ks) ≡ max_seq ks
unfolding max_seq
max_seq_other lease ks h = refl
max_seq_other retention ks h = refl
max_seq_other (log m) ks h = cc
max_seq_other (delta lo hi) ks h = refl
max_seq_other (image m) ks h = refl
max_seq_other (branch_ptr m) ks h = refl
max_seq_other (overlay m xs) ks h = refl

max_seq-keys_under :
    (i : Key) (w : GetResult) (m : List (Key × GetResult))
    → max_seq (keys_under all_logs ((i, w) ∷ m)) ≡ max_seq (i ∷ keys_under all_logs m)
unfolding keys_under
max_seq-keys_under i w m = elim (Bool-cases (starts_with all_logs i)) [
  | inl yes_log ↦ rw yes_log refl
  | inr no_log ↦ rw (no_log, max_seq_other i (keys_under all_logs m) no_log) refl
]

listed :
    (n : ℕ) (v : GetResult) (m : List (Key × GetResult))
    → find (log n) m ≡ some v
    → n ≤ max_seq (keys_under all_logs m)
unfolding find
listed n v [] h = cc
listed n v ((i, w) ∷ m) h =
    let bound = max_seq-cons i (keys_under all_logs m) in
    rw (max_seq-keys_under i w m) (elim (some_if (key_eq i (log n)) w v h) [
      | inl hit ↦ log_bound i n (keys_under all_logs m) hit
      | inr rest ↦ let ih = listed n v m rest in omega arith
    ])

pub free_slot :
    (n : ℕ) (m : List (Key × GetResult))
    → max_seq (keys_under all_logs m) < n
    → find (log n) m ≡ none
free_slot n m h = elim (Option-cases (find (log n) m)) [
  | inl free ↦ free
  | inr (v, taken) ↦ let bound = listed n v m taken in ground arith
]

first-none : {A : Type 0} (o : Option A) → first o none ≡ o
first-none none = refl
first-none (some a) = refl

-- What a new object leaves alone.
pub find_same :
    (k j : Key) (v : GetResult) (m : List (Key × GetResult))
    → key_eq k j ≡ false
    → find k m ≡ none
    → find j (store_at k v m) ≡ find j m
find_same k j v m other h = rw (find-store_at_new k j v m h, other) (first-none (find j m))

pub keys_under_same :
    (p : Prefix) (k : Key) (v : GetResult) (m : List (Key × GetResult))
    → starts_with p k ≡ false
    → find k m ≡ none
    → keys_under p (store_at k v m) ≡ keys_under p m
keys_under_same p k v m other h =
    rw (keys_under-store_at_new p k v m h, other) (append-nil (keys_under p m))

pub flushed_of-insert_asc :
    (d : DeltaMeta) (ds : List DeltaMeta) (top : Option ImageMeta)
    → flushed_of (insert_asc d ds) top ≡ max d.hi (flushed_of ds top)
unfolding flushed_of insert_asc
flushed_of-insert_asc d [] top = refl
flushed_of-insert_asc d (c ∷ cs) top = elim (Bool-cases (ltb c.hi d.hi)) [
  | inl lt ↦ let ih = flushed_of-insert_asc d cs top in rw (lt, ih) (omega arith)
  | inr ge ↦ rw ge refl
]

flushed_of-cons :
    (i : Key) (ks : List Key) (top : Option ImageMeta)
    → flushed_of (deltas_of ks) top ≤ flushed_of (deltas_of (i ∷ ks)) top
unfolding deltas_of
flushed_of-cons lease ks top = omega arith
flushed_of-cons retention ks top = omega arith
flushed_of-cons (log m) ks top = omega arith
flushed_of-cons (delta lo hi) ks top =
    rw (flushed_of-insert_asc (record { lo = lo; hi = hi; key = delta lo hi }) (deltas_of ks) top)
      (omega arith)
flushed_of-cons (image m) ks top = omega arith
flushed_of-cons (branch_ptr m) ks top = omega arith
flushed_of-cons (overlay m xs) ks top = omega arith

flushed_of_other :
    (i : Key) (ks : List Key) → starts_with all_deltas i ≡ false → deltas_of (i ∷ ks) ≡ deltas_of ks
unfolding deltas_of
flushed_of_other lease ks h = refl
flushed_of_other retention ks h = refl
flushed_of_other (log m) ks h = refl
flushed_of_other (delta lo hi) ks h = cc
flushed_of_other (image m) ks h = refl
flushed_of_other (branch_ptr m) ks h = refl
flushed_of_other (overlay m xs) ks h = refl

-- A delta of a span that ends above all that are listed is free.
delta_bound :
    (i : Key) (lo hi : ℕ) (ks : List Key) (top : Option ImageMeta)
    → key_eq i (delta lo hi) ≡ true
    → hi ≤ flushed_of (deltas_of (i ∷ ks)) top
unfolding deltas_of
delta_bound lease lo hi ks top h = cc
delta_bound retention lo hi ks top h = cc
delta_bound (log m) lo hi ks top h = cc
delta_bound (delta l u) lo hi ks top h =
    let same : u ≡ hi = ground arith in
    rw (flushed_of-insert_asc (record { lo = l; hi = u; key = delta l u }) (deltas_of ks) top)
      (omega arith)
delta_bound (image m) lo hi ks top h = cc
delta_bound (branch_ptr m) lo hi ks top h = cc
delta_bound (overlay m xs) lo hi ks top h = cc

deltas_of-keys_under :
    (i : Key) (w : GetResult) (m : List (Key × GetResult))
    → deltas_of (keys_under all_deltas ((i, w) ∷ m)) ≡ deltas_of (i ∷ keys_under all_deltas m)
unfolding keys_under
deltas_of-keys_under i w m = elim (Bool-cases (starts_with all_deltas i)) [
  | inl is_delta ↦ rw is_delta refl
  | inr no_delta ↦ rw (no_delta, flushed_of_other i (keys_under all_deltas m) no_delta) refl
]

delta_listed :
    (lo hi : ℕ) (v : GetResult) (m : List (Key × GetResult)) (top : Option ImageMeta)
    → find (delta lo hi) m ≡ some v
    → hi ≤ flushed_of (deltas_of (keys_under all_deltas m)) top
unfolding find
delta_listed lo hi v [] top h = cc
delta_listed lo hi v ((i, w) ∷ m) top h =
    let more = flushed_of-cons i (keys_under all_deltas m) top in
    rw (deltas_of-keys_under i w m) (elim (some_if (key_eq i (delta lo hi)) w v h) [
      | inl hit ↦ delta_bound i lo hi (keys_under all_deltas m) top hit
      | inr rest ↦ let ih = delta_listed lo hi v m top rest in omega arith
    ])

pub free_delta :
    (lo hi : ℕ) (m : List (Key × GetResult)) (top : Option ImageMeta)
    → flushed_of (deltas_of (keys_under all_deltas m)) top < hi
    → find (delta lo hi) m ≡ none
free_delta lo hi m top h = elim (Option-cases (find (delta lo hi) m)) [
  | inl free ↦ free
  | inr (v, taken) ↦ let bound = delta_listed lo hi v m top taken in ground arith
]
