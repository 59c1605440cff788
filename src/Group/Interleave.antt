-- ===== src/Group/Interleave.antt =====
-- The commits of many threads in crates/engine/src/group_commit.rs, in any interleaving of what each
-- does under the lock of the coordinator.
use bydesigns_db.Base.{ℕ, ◌+◌, ◌≡◌, Bool, true, false, if◌then◌else◌, List, [], ◌∷◌}
use bydesigns_db.Branch.{Storage}
use bydesigns_db.Group.{
  Database, Slice, enqueue, collect, drain_batch, slices_of, all_records, settle, relinquish,
  with_inner,
}

-- Where the leader stands: with a batch that it drained, with an append under way, or before the
-- lock that ends a turn.
pub data Leader : Type 0 where
  absent : Leader
  draining : Leader
  drained : List ℕ → Leader
  appending : List Slice → List (List ℕ) → Leader
  deciding : Leader

pub record System (S V : Type 0) : Type 0 where
  pub db : Database S V
  pub leader : Leader

abbrev pub is_leading : Leader → Bool
is_leading absent = false
is_leading _ = true

abbrev pub ids_of : List Slice → List ℕ
ids_of [] = []
ids_of (s ∷ slices) = s.id ∷ ids_of slices

-- The members that the leader has taken from the queue and not resolved.
abbrev pub in_flight : Leader → List ℕ
in_flight (drained batch) = batch
in_flight (appending slices records) = ids_of slices
in_flight _ = []

abbrev pub after_drain : List ℕ → Leader
after_drain [] = deciding
after_drain (id ∷ batch) = drained (id ∷ batch)

module _ {S V : Type 0} (storage : Storage S) where
  unfoldable pub begin_commit : ℕ → List (List ℕ) → System S V → System S V
  begin_commit owner records s =
      let ((id, am_leader), g) = enqueue owner records s.db.group.inner in
      record { db = with_inner storage g s.db; leader = if am_leader then draining else s.leader }

  unfoldable pub end_commit : ℕ → System S V → System S V
  end_commit id s = record s { db = with_inner storage (collect id s.db.group.inner).1 s.db }

  unfoldable pub drain : System S V → System S V
  drain s =
      let (batch, g) = drain_batch s.db.group.inner in
      record { db = with_inner storage g s.db; leader = after_drain batch }

  unfoldable pub gather : List ℕ → System S V → System S V
  gather batch s =
      let ms = s.db.group.inner.members in
      record {
        db = record s.db { group = record s.db.group { batches = s.db.group.batches + 1 } };
        leader = appending (slices_of ms batch) (all_records ms batch);
      }

  unfoldable pub append_batch : List Slice → List (List ℕ) → System S V → System S V
  append_batch slices records s =
      let (answer, after) = storage.append_wal s.db.token records s.db.storage in
      record {
        db = settle storage slices answer (record s.db { storage = after });
        leader = deciding;
      }

  unfoldable pub end_turn : System S V → System S V
  end_turn s =
      let (last, g) = relinquish s.db.group.inner in
      record { db = with_inner storage g s.db; leader = if last then absent else draining }

  -- One step of one thread.
  pub data Step (s : System S V) : System S V → Type 0 where
    commit_begins : (owner : ℕ) (records : List (List ℕ)) → Step s (begin_commit owner records s)
    commit_ends : (id : ℕ) → Step s (end_commit id s)
    batch_drained : s.leader ≡ draining → Step s (drain s)
    batch_gathered : (batch : List ℕ) → s.leader ≡ drained batch → Step s (gather batch s)
    batch_appended :
        (slices : List Slice) (records : List (List ℕ))
        → s.leader ≡ appending slices records
        → Step s (append_batch slices records s)
    turn_ended : s.leader ≡ deciding → Step s (end_turn s)

  pub data Reach (s : System S V) : System S V → Type 0 where
    here : Reach s s
    next : {s1 s2 : System S V} → Reach s s1 → Step s1 s2 → Reach s s2
