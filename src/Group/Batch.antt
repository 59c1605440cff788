-- ===== src/Group/Batch.antt =====
-- What `drain_batch` of crates/engine/src/group_commit.rs takes from the queue.
use bydesigns_db.Base.{
  ℕ, ◌+◌, ◌≤◌, ◌<◌, ◌≡◌, refl, ap, true, false, Bool-cases, ltb, ◌⊎◌, inl, inr, List, [], ◌∷◌, ◌++◌,
  length, arith,
}
use bydesigns_db.Base.Assoc.{Assoc, get}
use bydesigns_db.Group.{
  Member, Inner, records_of, max_batch_records, drain_from, drain_batch, slices_of, total_of,
}

-- The records of a list of members, and of the first of a queue.
abbrev pub record_count : Assoc Member → List ℕ → ℕ
record_count ms batch = total_of (slices_of ms batch)

abbrev pub head_count : Assoc Member → List ℕ → ℕ
head_count ms [] = 0
head_count ms (id ∷ queue) = length (records_of (get ms id))

-- Behind `nrec` records, the loop takes members while they fit.
record Drained (ms : Assoc Member) (queue : List ℕ) (nrec : ℕ) (out : List ℕ × List ℕ)
    : Type 0 where
  joined : out.0 ++ out.1 ≡ queue
  bounded : (out.0 ≡ []) ⊎ (nrec + record_count ms out.0 ≤ max_batch_records)
  maximal : (out.1 ≡ []) ⊎ (max_batch_records < nrec + record_count ms out.0 + head_count ms out.1)

within :
    (ms : Assoc Member) (n len : ℕ) (batch : List ℕ)
    → n + len ≤ max_batch_records
    → (batch ≡ []) ⊎ (n + len + record_count ms batch ≤ max_batch_records)
    → n + (len + record_count ms batch) ≤ max_batch_records
unfolding slices_of total_of
within ms n len batch h (inl e) = rw e (omega arith)
within ms n len batch h (inr k) = omega arith

beyond :
    (ms : Assoc Member) (n len : ℕ) (batch rest : List ℕ)
    → (rest ≡ []) ⊎ (max_batch_records < n + len + record_count ms batch + head_count ms rest)
    → (rest ≡ []) ⊎ (max_batch_records < n + (len + record_count ms batch) + head_count ms rest)
beyond ms n len batch rest (inl e) = inl e
beyond ms n len batch rest (inr k) = inr (omega arith)

alone :
    (ms : Assoc Member) (len id : ℕ) (batch : List ℕ)
    → (batch ≡ []) ⊎ (len + record_count ms batch ≤ max_batch_records)
    → (length (id ∷ batch) ≤ 1) ⊎ (len + record_count ms batch ≤ 1024)
alone ms len id batch (inl e) = rw e (inl (omega arith))
alone ms len id batch (inr k) = inr k

drain_from-Drained :
    (ms : Assoc Member) (queue : List ℕ) (nrec : ℕ)
    → Drained ms queue nrec (drain_from ms queue true nrec)
unfolding drain_from slices_of total_of
drain_from-Drained ms [] nrec = record { joined = refl; bounded = inl refl; maximal = inl refl }
drain_from-Drained ms (id ∷ queue) nrec =
    let len = length (records_of (get ms id)) in
    let ih = drain_from-Drained ms queue (nrec + len) in
    elim (Bool-cases (ltb max_batch_records (nrec + len))) [
      | inl full ↦
          rw full (record { joined = refl; bounded = inl refl; maximal = inr (ground arith) })
      | inr fits ↦ rw fits (record {
        joined = ap (λ q. id ∷ q) ih.joined;
        bounded = inr (within ms nrec len _ (ground arith) ih.bounded);
        maximal = beyond ms nrec len _ _ ih.maximal;
      })
    ]

-- A batch is a front of the queue in the order of submission: it is not empty unless the queue is,
-- it has at most 1024 records unless it is a single member, and it leaves no member that would
-- still have fitted.
pub drain_batch_lem :
    (g : Inner)
    → let (batch, g') = drain_batch g in
      (batch ++ g'.queue ≡ g.queue)
      × ((g.queue ≡ []) ⊎ (0 < length batch))
      × ((length batch ≤ 1) ⊎ (record_count g.members batch ≤ 1024))
      × ((g'.queue ≡ []) ⊎ (1024 < record_count g.members batch + head_count g.members g'.queue))
unfolding drain_batch drain_from slices_of total_of
drain_batch_lem g = from_queue g.queue g.members
  where
    from_queue :
        (queue : List ℕ) (ms : Assoc Member)
        → let (batch, rest) = drain_from ms queue false 0 in
          (batch ++ rest ≡ queue)
          × ((queue ≡ []) ⊎ (0 < length batch))
          × ((length batch ≤ 1) ⊎ (record_count ms batch ≤ 1024))
          × ((rest ≡ []) ⊎ (1024 < record_count ms batch + head_count ms rest))
    from_queue [] ms = (refl, inl refl, inl (omega arith), inl refl)
    from_queue (id ∷ queue) ms =
        let len = length (records_of (get ms id)) in
        let ih = drain_from-Drained ms queue len in
        let from_zero : 0 + len ≡ len = omega arith in
        rw from_zero
          (ap (λ q. id ∷ q) ih.joined, inr (omega arith), alone ms _ id _ ih.bounded, ih.maximal)
