-- ===== src/Group.antt =====
-- crates/engine/src/group_commit.rs: the coordinator that makes the commits of many threads durable
-- with one append. A database is its coordinator, its storage, given by the trait as an interface,
-- and its tables. Each function is what one thread does under the lock of the coordinator, or what
-- the leader does between two of them. An error keeps its status and not its text; the write lane,
-- the condition variable and the vector indexes are not part of the model.
pub mod Batch
pub mod Lead
pub mod Stamp
pub mod Interleave
pub mod Resolving
pub mod Covered
pub mod Quiet
mod Runs
use bydesigns_db.Base.{
  ℕ, zero, suc, ◌+◌, ◌-◌, max, Bool, true, false, ◌&&◌, not, ltb, ◌==◌, if◌then◌else◌, Option, none,
  some, List, [], ◌∷◌, ◌++◌, length,
}
use bydesigns_db.Base.Assoc.{Assoc, get, insert, remove}
use bydesigns_db.Types.{
  StorageError, not_found, fenced, contended, transient, durability_unconfirmed, corruption,
  invalid, FenceToken,
}
use bydesigns_db.Types
use Prim.Native.String.{String}
use bydesigns_db.Branch.{Storage}
use bydesigns_db.Mvcc.{Table, finalize_owner, rollback_owner}

pub data EngineStatus : Type 0 where
  success err_sql err_constraint err_conflict err_storage err_txn err_misuse err_internal :
      EngineStatus

pub data Outcome : Type 0 where
  committed : ℕ → Outcome
  failed : EngineStatus → Outcome

unfoldable pub commit_error : StorageError → EngineStatus
commit_error (fenced held current) = err_conflict
commit_error contended = err_conflict
commit_error not_found = err_storage
commit_error transient = err_storage
commit_error durability_unconfirmed = err_storage
commit_error corruption = err_storage
commit_error invalid = err_storage

abbrev pub max_batch_records : ℕ
max_batch_records = 1024

pub record Member : Type 0 where
  pub owner : ℕ
  pub records : List (List ℕ)
  pub result : Option Outcome
  pub is_done : Bool

pub record Inner : Type 0 where
  pub queue : List ℕ
  pub members : Assoc Member
  pub leader_active : Bool
  pub next_id : ℕ

pub record GroupCommit : Type 0 where
  pub inner : Inner
  pub batches : ℕ
  pub commits : ℕ

-- What the coordinator uses of a `Database`: itself, the storage with its token, and the store.
pub record Database (S V : Type 0) : Type 0 where
  pub group : GroupCommit
  pub storage : S
  pub token : FenceToken
  pub tables : List (String × Table V)
  pub committed_lsn : ℕ

unfoldable pub new_group : GroupCommit
new_group = record {
  inner = record { queue = []; members = []; leader_active = false; next_id = 1 };
  batches = 0;
  commits = 0;
}

-- The first lock of `commit`: the id, and whether the caller is the leader.
unfoldable pub enqueue : ℕ → List (List ℕ) → Inner → (ℕ × Bool) × Inner
enqueue owner records g = (
  (g.next_id, not g.leader_active),
  record {
    queue = g.queue ++ (g.next_id ∷ []);
    members =
        insert g.members g.next_id
          (record { owner = owner; records = records; result = none; is_done = false });
    leader_active = true;
    next_id = g.next_id + 1;
  },
)

-- Commits that enqueue one after the other: the owner and the records of each.
unfoldable pub arrive : List (ℕ × List (List ℕ)) → Inner → Inner
unfolding enqueue
arrive [] g = g
arrive ((owner, records) ∷ more) g = arrive more (enqueue owner records g).1

-- The commits that enqueue in one turn of the leader: before its drain takes the lock, and between the
-- drain and the lock that ends the turn.
pub record Arrivals : Type 0 where
  pub early : List (ℕ × List (List ℕ))
  pub late : List (ℕ × List (List ℕ))

-- The last lock of `commit`: the result of a member that is done, which leaves, or a wait.
unfoldable pub collect_done : Option Member → ℕ → Inner → Option Outcome × Inner
collect_done none id g = (none, g)
collect_done (some m) id g =
    if m.is_done then (m.result, record g { members = remove g.members id }) else (none, g)

unfoldable pub collect : ℕ → Inner → Option Outcome × Inner
unfolding collect_done
collect id g = collect_done (get g.members id) id g

-- The records of a queued member; the code indexes the map and would panic without it.
abbrev pub records_of : Option Member → List (List ℕ)
records_of none = []
records_of (some m) = m.records

abbrev pub owner_of : Option Member → ℕ
owner_of none = 0
owner_of (some m) = m.owner

-- The loop of `drain_batch`: what it takes from the front of the queue, and what it leaves, with
-- whether it has taken one and the records that it has taken.
unfoldable pub drain_from : Assoc Member → List ℕ → Bool → ℕ → List ℕ × List ℕ
drain_from ms [] taken nrec = ([], [])
drain_from ms (id ∷ queue) taken nrec =
    let len = length (records_of (get ms id)) in
    let (batch, rest) = drain_from ms queue true (nrec + len) in
    if taken && ltb max_batch_records (nrec + len) then ([], id ∷ queue) else (id ∷ batch, rest)

unfoldable pub drain_batch : Inner → List ℕ × Inner
unfolding drain_from
drain_batch g =
    let (batch, rest) = drain_from g.members g.queue false 0 in (batch, record g { queue = rest })

-- What `flush_batch` keeps of a member: its id, its owner and the number of its records.
pub record Slice : Type 0 where
  pub id : ℕ
  pub owner : ℕ
  pub count : ℕ

unfoldable pub slices_of : Assoc Member → List ℕ → List Slice
slices_of ms [] = []
slices_of ms (id ∷ batch) =
    record { id = id; owner = owner_of (get ms id); count = length (records_of (get ms id)) }
    ∷ slices_of ms batch

unfoldable pub all_records : Assoc Member → List ℕ → List (List ℕ)
all_records ms [] = []
all_records ms (id ∷ batch) = records_of (get ms id) ++ all_records ms batch

unfoldable pub total_of : List Slice → ℕ
total_of [] = 0
total_of (s ∷ slices) = s.count + total_of slices

-- `resolve`.
unfoldable pub resolve_one : Option Member → ℕ → Outcome → Assoc Member → Assoc Member
resolve_one none id r ms = ms
resolve_one (some m) id r ms = insert ms id (record m { result = some r; is_done = true })

unfoldable pub resolve : List (ℕ × Outcome) → Assoc Member → Assoc Member
unfolding resolve_one
resolve [] ms = ms
resolve ((id, r) ∷ results) ms = resolve results (resolve_one (get ms id) id r ms)

-- The lock with which the leader ends a turn: whether it is the last.
unfoldable pub relinquish : Inner → Bool × Inner
relinquish g = elim g.queue [
  | [] ↦ (true, record g { leader_active = false })
  | id ∷ rest ↦ (false, g)
]

abbrev pub is_quiet : Inner → Bool
is_quiet g = not g.leader_active && (length g.queue == 0)

module _ {V : Type 0} where
  -- The loop over the members of a durable batch: the tables, and the LSN of each commit.
  unfoldable pub stamp :
      ℕ → ℕ → List Slice → List (String × Table V) → List (String × Table V) × List (ℕ × ℕ)
  stamp first acc [] tables = (tables, [])
  stamp first acc (s ∷ slices) tables =
      let commit_lsn = first + (acc + s.count) - 1 in
      let (stamped, results) =
        stamp first (acc + s.count) slices (finalize_owner s.owner commit_lsn tables).0 in
      (stamped, (s.id, commit_lsn) ∷ results)

  unfoldable pub roll_back : List Slice → List (String × Table V) → List (String × Table V)
  roll_back [] tables = tables
  roll_back (s ∷ slices) tables = roll_back slices (rollback_owner s.owner tables)

-- `max_lsn`: that of the last member.
unfoldable pub max_lsn_of : List (ℕ × ℕ) → ℕ → ℕ
max_lsn_of [] lsn = lsn
max_lsn_of ((id, commit_lsn) ∷ results) lsn = max_lsn_of results commit_lsn

unfoldable pub all_committed : List (ℕ × ℕ) → List (ℕ × Outcome)
all_committed [] = []
all_committed ((id, lsn) ∷ results) = (id, committed lsn) ∷ all_committed results

unfoldable pub all_failed : EngineStatus → List Slice → List (ℕ × Outcome)
all_failed e [] = []
all_failed e (s ∷ slices) = (s.id, failed e) ∷ all_failed e slices

module _ {S V : Type 0} (storage : Storage S) where
  abbrev pub with_inner : Inner → Database S V → Database S V
  with_inner g d = record d { group = record d.group { inner = g } }

  -- `flush_batch` once the append has answered.
  unfoldable pub settle : List Slice → Types.Result ℕ → Database S V → Database S V
  unfolding stamp roll_back total_of max_lsn_of all_committed all_failed resolve
  settle slices (Types.ok last) d =
      let first = last - total_of slices + 1 in
      let (stamped, results) = stamp first 0 slices d.tables in
      record d {
        group = record d.group {
          commits = d.group.commits + length slices;
          inner = record d.group.inner {
            members = resolve (all_committed results) d.group.inner.members;
          };
        };
        tables = stamped;
        committed_lsn = max d.committed_lsn (max_lsn_of results 0);
      }
  settle slices (Types.err e) d = record d {
    group = record d.group {
      inner = record d.group.inner {
        members = resolve (all_failed (commit_error e) slices) d.group.inner.members;
      };
    };
    tables = roll_back slices d.tables;
  }

  unfoldable pub flush_batch : List ℕ → Database S V → Database S V
  unfolding settle slices_of all_records
  flush_batch batch d =
      let slices = slices_of d.group.inner.members batch in
      let (answer, s) =
        storage.append_wal d.token (all_records d.group.inner.members batch) d.storage in
      settle slices answer
        (record d { storage = s; group = record d.group { batches = d.group.batches + 1 } })

  abbrev pub flush_some : List ℕ → Database S V → Database S V
  flush_some [] d = d
  flush_some (id ∷ batch) d = flush_batch (id ∷ batch) d

  -- One turn of the loop of `lead` with the commits that enqueue in it: whether it was the last.
  unfoldable pub turn : Arrivals → Database S V → Bool × Database S V
  unfolding drain_batch flush_batch relinquish arrive
  turn a d =
      let (batch, drained) = drain_batch (arrive a.early d.group.inner) in
      let d1 = flush_some batch (with_inner drained d) in
      let (last, g) = relinquish (arrive a.late d1.group.inner) in (last, with_inner g d1)

  -- `lead`, for at most as many turns as the list has, each with what enqueues in it.
  unfoldable pub lead : List Arrivals → Database S V → Database S V
  unfolding turn
  lead [] d = d
  lead (a ∷ turns) d =
      let (last, d1) = turn a d in let rest = lead turns d1 in if last then d1 else rest
