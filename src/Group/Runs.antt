-- ===== src/Group/Runs.antt =====
-- Runs of the commit coordinator over the file backend, and its theorems at concrete inputs.
use bydesigns_db.Base.{
  ℕ, ◌+◌, ◌≤◌, ◌<◌, ◌≡◌, refl, true, false, ◌⊎◌, some, none, List, [], ◌∷◌, ◌++◌, length, arith,
}
use bydesigns_db.Base.Assoc.{get, insert}
use bydesigns_db.Types.{FenceToken}
use bydesigns_db.Local.State.{Inner, fresh}
use bydesigns_db.Local.Ops
use bydesigns_db.Branch.FileStore.{local_storage}
use bydesigns_db.Mvcc.{contains}
use bydesigns_db.Group.{
  Member, Database, Arrivals, new_group, committed, enqueue, drain_batch, drain_from, lead,
  is_quiet, all_records, Slice, slices_of, settle, stamp, total_of, all_committed, resolve,
  resolve_one, relinquish,
}
use bydesigns_db.Group.Batch.{drain_batch_lem, record_count, head_count}
use bydesigns_db.Group.Lead.{lead-is_quiet}
use bydesigns_db.Group.Interleave.{
  System, absent, begin_commit, drain, gather, is_leading, in_flight, here, next, commit_begins,
  batch_drained, batch_gathered, batch_appended, turn_ended, append_batch, end_turn,
}
use bydesigns_db.Group.Quiet.{no_commit_stranded, quiet_all_done}

abbrev writer : FenceToken
writer = record { epoch = 0; owner = 9 }

-- A database over a fresh file.
abbrev opened : Database Inner ℕ
opened = record {
  group = new_group;
  storage = fresh;
  token = writer;
  tables = [];
  committed_lsn = 0;
}

-- Two commits in the queue, of two records and of one.
abbrev first_member : Member
first_member = record {
  owner = 3;
  records = (1 ∷ []) ∷ (2 ∷ []) ∷ [];
  result = none;
  is_done = false;
}

abbrev queued : Database Inner ℕ
queued = record opened {
  group = record new_group {
    inner = (enqueue 4 ((7 ∷ []) ∷ []) (enqueue 3 ((1 ∷ []) ∷ (2 ∷ []) ∷ []) new_group.inner).1).1;
  };
}

drain_batch_lem_example :
    let (batch, g) = drain_batch queued.group.inner in
    (batch ++ g.queue ≡ queued.group.inner.queue)
    × ((queued.group.inner.queue ≡ []) ⊎ (0 < length batch))
    × ((length batch ≤ 1) ⊎ (record_count queued.group.inner.members batch ≤ 1024))
    × ((g.queue ≡ [])
        ⊎ (1024
            < record_count queued.group.inner.members batch
              + head_count queued.group.inner.members g.queue))
drain_batch_lem_example = drain_batch_lem queued.group.inner

-- While the first batch is flushed, a third commit enqueues.
abbrev turns : List Arrivals
turns =
    record { early = []; late = (5, (8 ∷ []) ∷ []) ∷ [] }
    ∷ record { early = []; late = [] }
    ∷ record { early = []; late = [] }
    ∷ []

lead-is_quiet_example : is_quiet (lead local_storage turns queued).group.inner ≡ true
unfolding enqueue new_group
lead-is_quiet_example = lead-is_quiet local_storage turns queued (omega arith) (omega arith)

-- A commit under way, whose member the leader has drained.
abbrev started : System Inner ℕ
started = record { db = opened; leader = absent }

abbrev under_way : System Inner ℕ
under_way = drain local_storage (begin_commit local_storage 3 ((1 ∷ []) ∷ (2 ∷ []) ∷ []) started)

no_commit_stranded_example :
    (first_member.is_done ≡ true)
    ⊎ ((is_leading under_way.leader ≡ true)
        × (contains (in_flight under_way.leader ++ under_way.db.group.inner.queue) 1 ≡ true))
unfolding begin_commit drain enqueue new_group get insert drain_batch drain_from
no_commit_stranded_example =
    no_commit_stranded local_storage {s = started} {s' = under_way} 1 first_member refl refl
      (next (next here (commit_begins 3 ((1 ∷ []) ∷ (2 ∷ []) ∷ []))) (batch_drained refl)) refl

-- The commit once the leader has appended its batch and has left.
abbrev records : List (List ℕ)
records = (1 ∷ []) ∷ (2 ∷ []) ∷ []

abbrev slices : List Slice
slices = record { id = 1; owner = 3; count = 2 } ∷ []

abbrev finished : System Inner ℕ
finished =
    end_turn local_storage
      (append_batch local_storage slices records (gather local_storage (1 ∷ []) under_way))

quiet_all_done_example :
    (record first_member { result = some (committed 2); is_done = true }).is_done ≡ true
unfolding begin_commit drain gather append_batch end_turn enqueue new_group get insert drain_batch
    drain_from slices_of all_records settle stamp total_of all_committed resolve resolve_one
    relinquish fresh local_storage Ops.append_wal Ops.check_fence Ops.append_frame
quiet_all_done_example =
    quiet_all_done local_storage {s = started} {s' = finished} 1
      (record first_member { result = some (committed 2); is_done = true }) refl refl
      (next
        (next
          (next (next (next here (commit_begins 3 records)) (batch_drained refl))
            (batch_gathered (1 ∷ []) refl))
          (batch_appended slices records refl))
        (turn_ended refl))
      refl refl
