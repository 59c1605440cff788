-- ===== src/Group/Lead.antt =====
-- The loop of the leader in crates/engine/src/group_commit.rs ends, also while other commits enqueue.
use bydesigns_db.Base.{
  ℕ, ◌+◌, ◌<◌, ◌≤◌, ◌≡◌, refl, ap, ◌∙◌, Bool, true, false, if◌then◌else◌, ◌⊎◌, inl, inr, List, [],
  ◌∷◌, ◌++◌, length, length-append, arith,
}
use bydesigns_db.Types.{Result, ok, err}
use bydesigns_db.Branch.{Storage}
use bydesigns_db.Group.{
  Inner, Database, Arrivals, arrive, enqueue, slices_of, all_records, drain_batch, flush_some,
  flush_batch, settle, relinquish, is_quiet, turn, lead, with_inner, Slice,
}
use bydesigns_db.Group.Batch.{drain_batch_lem}

-- The last turn of a leader leaves the queue empty and no leader; another leaves the state.
pub data Relinquished (g : Inner) : Bool × Inner → Type 0 where
  over : g.queue ≡ [] → Relinquished g (true, record g { leader_active = false })
  going : 0 < length g.queue → Relinquished g (false, g)

pub relinquish-Relinquished : (g : Inner) → Relinquished g (relinquish g)
unfolding relinquish
relinquish-Relinquished g = at g.queue refl
  where
    at :
        (queue : List ℕ)
        → g.queue ≡ queue
        → Relinquished g (elim queue [
          | [] ↦ (true, record g { leader_active = false })
          | id ∷ rest ↦ (false, g)
        ])
    at [] e = over e
    at (id ∷ rest) e = going (rw e (omega arith))

arrive-queue :
    (commits : List (ℕ × List (List ℕ))) (g : Inner)
    → length (arrive commits g).queue ≡ length g.queue + length commits
unfolding arrive enqueue
arrive-queue [] g = omega arith
arrive-queue ((owner, records) ∷ more) g =
    omega
      (arith, arrive-queue more (enqueue owner records g).1, length-append g.queue (g.next_id ∷ []))

-- The number of commits that enqueue in a turn, and in all turns.
abbrev pub arriving : Arrivals → ℕ
arriving a = length a.early + length a.late

abbrev pub all_arriving : List Arrivals → ℕ
all_arriving [] = 0
all_arriving (a ∷ turns) = arriving a + all_arriving turns

shrink :
    (batch rest queue : List ℕ) (found late left : ℕ)
    → batch ++ rest ≡ queue
    → (queue ≡ []) ⊎ (0 < length batch)
    → length queue ≡ found
    → 0 < found
    → left ≡ length rest + late
    → left < found + late
shrink batch rest queue found late left joined (inl none_queued) counted some_found same =
    let none_there = ap length none_queued in absurd (omega arith)
shrink batch rest queue found late left joined (inr taken) counted some_found same =
    let parts = length-append batch rest in let all = ap length joined in omega arith

module _ {S V : Type 0} (storage : Storage S) where
  settle-queue :
      (slices : List Slice) (answer : Result ℕ) (d : Database S V)
      → (settle storage slices answer d).group.inner.queue ≡ d.group.inner.queue
  unfolding settle
  settle-queue slices (ok last) d = refl
  settle-queue slices (err e) d = refl

  pub flush_some-queue :
      (batch : List ℕ) (d : Database S V)
      → (flush_some storage batch d).group.inner.queue ≡ d.group.inner.queue
  unfolding flush_batch
  flush_some-queue [] d = refl
  flush_some-queue (id ∷ batch) d =
      settle-queue (slices_of d.group.inner.members (id ∷ batch))
        (storage.append_wal d.token (all_records d.group.inner.members (id ∷ batch)) d.storage).0
        (record d {
          storage =
              (storage.append_wal d.token (all_records d.group.inner.members (id ∷ batch))
                d.storage).1;
          group = record d.group { batches = d.group.batches + 1 };
        })

  -- A turn that finds members and is the last leaves an empty queue and no leader; another leaves
  -- some in the queue, but less than it found and than came in together.
  data Turned (a : Arrivals) (d : Database S V) : Bool × Database S V → Type 0 where
    done : (d1 : Database S V) → is_quiet d1.group.inner ≡ true → Turned a d (true, d1)
    more :
        (d1 : Database S V)
        → 0 < length d1.group.inner.queue
        → length d1.group.inner.queue < length d.group.inner.queue + arriving a
        → Turned a d (false, d1)

  turn-Turned :
      (a : Arrivals) (d : Database S V)
      → 0 < length d.group.inner.queue
      → Turned a d (turn storage a d)
  unfolding turn
  turn-Turned a d some_there =
      let g0 = arrive a.early d.group.inner in
      let (batch, drained) = drain_batch g0 in
      let (joined, some_taken, short, full) = drain_batch_lem g0 in
      let d1 = flush_some storage batch (with_inner storage drained d) in
      let kept : d1.group.inner.queue ≡ drained.queue = flush_some-queue batch _ in
      let g1 = arrive a.late d1.group.inner in
      let counted : length g1.queue ≡ length drained.queue + length a.late =
        arrive-queue a.late d1.group.inner ∙ ap (λ q. length q + length a.late) kept in
      let less =
        shrink batch drained.queue g0.queue (length d.group.inner.queue + length a.early)
          (length a.late) (length g1.queue) joined some_taken (arrive-queue a.early d.group.inner)
          (omega arith) counted in
      turned d1 g1 (relinquish g1) (relinquish-Relinquished g1) (omega (arith, less))
    where
      turned :
          (d1 : Database S V) (g1 : Inner) (out : Bool × Inner)
          → Relinquished g1 out
          → length g1.queue < length d.group.inner.queue + arriving a
          → Turned a d (out.0, with_inner storage out.1 d1)
      turned d1 g1 out (over e) less = done _ (rw e refl)
      turned d1 g1 out (going left) less = more _ left less

  -- The leader's loop comes to its end, whatever the storage answers and whichever commits enqueue
  -- before, while and after each batch is flushed: if there is a member in the queue at its begin, as
  -- that of the leader itself, then within as many turns as there are members in the queue and commits
  -- that enqueue in these turns, it leaves an empty queue and no leader.
  pub lead-is_quiet :
      (turns : List Arrivals) (d : Database S V)
      → 0 < length d.group.inner.queue
      → length d.group.inner.queue + all_arriving turns ≤ length turns
      → is_quiet (lead storage turns d).group.inner ≡ true
  unfolding lead
  lead-is_quiet [] d some_there h = absurd (omega arith)
  lead-is_quiet (a ∷ turns) d some_there h =
      after (turn storage a d) (turn-Turned a d some_there)
        (λ d1 left less. lead-is_quiet turns d1 left less)
    where
      after :
          (out : Bool × Database S V)
          → Turned a d out
          → ((d1 : Database S V)
              → 0 < length d1.group.inner.queue
              → length d1.group.inner.queue + all_arriving turns ≤ length turns
              → is_quiet (lead storage turns d1).group.inner ≡ true)
          → is_quiet (if out.0 then out.1 else lead storage turns out.1).group.inner ≡ true
      after out (done d1 quiet) ih = quiet
      after out (more d1 left less) ih = ih d1 left (omega arith)
