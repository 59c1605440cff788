-- ===== src/Group/Quiet.antt =====
-- Commits in crates/engine/src/group_commit.rs in every interleaving: none is left without a leader.
use bydesigns_db.Base.{
  ℕ, ◌+◌, ◌-◌, ◌≡◌, refl, ◌∙◌, true, false, Bool-cases, ◌⊎◌, inl, inr, none, some, List, ◌++◌,
}
use bydesigns_db.Base.Assoc.{get}
use bydesigns_db.Types.{Result, ok, err}
use bydesigns_db.Branch.{Storage}
use bydesigns_db.Mvcc.{contains}
use bydesigns_db.Group.{
  Member, Database, Slice, new_group, collect, settle, all_committed, all_failed, commit_error,
  stamp, total_of, is_quiet,
}
use bydesigns_db.Group.Interleave.{
  absent, drained, appending, deciding, System, is_leading, in_flight, begin_commit, end_commit,
  drain, gather, append_batch, end_turn, Step, commit_begins, commit_ends, batch_drained,
  batch_gathered, batch_appended, turn_ended, Reach, here, next,
}
use bydesigns_db.Group.Resolving.{ids_of-slices_of, committed_ids, failed_ids, resolve-covered}
use bydesigns_db.Group.Covered.{
  IsCovered, idle_in_flight, enqueue-IsCovered, drain-IsCovered, relinquish-IsCovered,
  collect_done-IsCovered,
}

abbrev Covered : {S V : Type 0} → System S V → Type 0
Covered s = IsCovered s.db.group.inner s.leader

module _ {S V : Type 0} (storage : Storage S) where
  gather-Covered :
      (batch : List ℕ) (s : System S V)
      → s.leader ≡ drained batch
      → Covered s
      → Covered (gather storage batch s)
  unfolding gather
  gather-Covered batch s e h =
      let held = rw e at h in
      record {
        active = held.active;
        idle = inl refl;
        covered = λ id m there.
            rw (ids_of-slices_of s.db.group.inner.members batch) (held.covered id m there);
      }

  settle-IsCovered :
      (slices : List Slice) (records : List (List ℕ)) (answer : Result ℕ) (d : Database S V)
      → IsCovered d.group.inner (appending slices records)
      → IsCovered (settle storage slices answer d).group.inner deciding
  unfolding settle
  settle-IsCovered slices records (ok last) d h =
      let results = all_committed (stamp (last - total_of slices + 1) 0 slices d.tables).1 in
      let ids = committed_ids (last - total_of slices + 1) 0 slices d.tables in
      record {
        active = h.active;
        idle = inl refl;
        covered = λ id m there.
            resolve-covered results d.group.inner.queue id m d.group.inner.members
              (λ was. rw ids (h.covered id m was)) there;
      }
  settle-IsCovered slices records (err e) d h =
      let ids = failed_ids (commit_error e) slices in
      record {
        active = h.active;
        idle = inl refl;
        covered = λ id m there.
            resolve-covered (all_failed (commit_error e) slices) d.group.inner.queue id m
              d.group.inner.members (λ was. rw ids (h.covered id m was)) there;
      }

  append_batch-Covered :
      (slices : List Slice) (records : List (List ℕ)) (s : System S V)
      → s.leader ≡ appending slices records
      → Covered s
      → Covered (append_batch storage slices records s)
  unfolding append_batch
  append_batch-Covered slices records s e h =
      settle-IsCovered slices records (storage.append_wal s.db.token records s.db.storage).0
        (record s.db { storage = (storage.append_wal s.db.token records s.db.storage).1 })
        (rw e at h)

  Step-Covered : {s s' : System S V} → Covered s → Step storage s s' → Covered s'
  unfolding begin_commit end_commit drain end_turn collect
  Step-Covered {s = s} h (commit_begins owner records) =
      enqueue-IsCovered s.db.group.inner s.leader owner records h
  Step-Covered {s = s} h (commit_ends id) =
      collect_done-IsCovered (get s.db.group.inner.members id) id s.db.group.inner s.leader h
  Step-Covered {s = s} h (batch_drained e) = drain-IsCovered s.db.group.inner (rw e at h)
  Step-Covered {s = s} h (batch_gathered batch e) = gather-Covered batch s e h
  Step-Covered {s = s} h (batch_appended slices records e) =
      append_batch-Covered slices records s e h
  Step-Covered {s = s} h (turn_ended e) = relinquish-IsCovered s.db.group.inner (rw e at h)

  Reach-Covered : {s s' : System S V} → Covered s → Reach storage s s' → Covered s'
  Reach-Covered h here = h
  Reach-Covered h (next run step) = Step-Covered (Reach-Covered h run) step

  new_group-Covered : (s : System S V) → s.db.group ≡ new_group → s.leader ≡ absent → Covered s
  unfolding new_group get
  new_group-Covered s e idle =
      rw (e, idle)
        (record {
          active = refl;
          idle = inr refl;
          covered = λ id m there. let no : none ≡ some m = there in cc;
        })

  -- From a new coordinator, whatever threads commit, in whatever order their steps and the leader's
  -- come, and whatever the storage answers: a member that has not collected its result is done, or
  -- a leader is at work and has the member in its hands or in the queue. So no commit waits without
  -- a leader that will come to it.
  pub no_commit_stranded :
      {s s' : System S V} (id : ℕ) (m : Member)
      → s.db.group ≡ new_group
      → s.leader ≡ absent
      → Reach storage s s'
      → get s'.db.group.inner.members id ≡ some m
      → (m.is_done ≡ true)
        ⊎ ((is_leading s'.leader ≡ true)
            × (contains (in_flight s'.leader ++ s'.db.group.inner.queue) id ≡ true))
  unfolding contains
  no_commit_stranded {s = s} {s' = s'} id m new idle run there =
      let h = Reach-Covered (new_group-Covered s new idle) run in
      elim (h.covered id m there) [
        | inl done ↦ inl done
        | inr held ↦ elim (Bool-cases (is_leading s'.leader)) [
          | inl led ↦ inr (led, held)
          | inr unled ↦ elim h.idle [
            | inl led ↦ inr (led, held)
            | inr empty ↦
                let no : false ≡ true = rw (idle_in_flight s'.leader unled, empty) at held in cc
          ]
        ]
      ]

  -- What `quiesce` waits for is that no commit is in flight: in every state that threads reach from a
  -- new coordinator, when no leader is active and the queue is empty, every member is done.
  pub quiet_all_done :
      {s s' : System S V} (id : ℕ) (m : Member)
      → s.db.group ≡ new_group
      → s.leader ≡ absent
      → Reach storage s s'
      → is_quiet s'.db.group.inner ≡ true
      → get s'.db.group.inner.members id ≡ some m
      → m.is_done ≡ true
  quiet_all_done {s = s} {s' = s'} id m new idle run quiet there =
      let h = Reach-Covered (new_group-Covered s new idle) run in
      elim (no_commit_stranded id m new idle run there) [
        | inl done ↦ done
        | inr (led, held) ↦
            let busy = h.active ∙ led in let no : false ≡ true = rw busy at quiet in cc
      ]
