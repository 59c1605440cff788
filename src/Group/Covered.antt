-- ===== src/Group/Covered.antt =====
-- A member of the coordinator in crates/engine/src/group_commit.rs that is not done is in the queue or
-- in the hands of a leader: what each step does to this.
use bydesigns_db.Base.{
  ℕ, ◌≡◌, refl, ap, sym, subst, ◌∙◌, Bool, true, false, ◌||◌, Bool-cases, if◌then◌else◌, ◌==◌, ◌⊎◌,
  inl, inr, Option, none, some, List, [], ◌∷◌, ◌++◌,
}
use bydesigns_db.Base.Assoc.{get, get-insert, get-remove}
use bydesigns_db.Mvcc.{contains}
use bydesigns_db.Group.{Member, Inner, enqueue, collect_done, drain_batch, relinquish}
use bydesigns_db.Group.Batch.{drain_batch_lem}
use bydesigns_db.Group.Lead.{Relinquished, over, going, relinquish-Relinquished}
use bydesigns_db.Group.Interleave.{
  Leader, absent, draining, drained, appending, deciding, is_leading, in_flight, after_drain,
}
use bydesigns_db.Group.Resolving.{contains-append}

-- A leader is at work exactly when the flag says so, an idle coordinator has an empty queue, and a
-- member that is not done is in the queue or in the leader's hands.
pub record IsCovered (g : Inner) (leader : Leader) : Type 0 where
  pub active : g.leader_active ≡ is_leading leader
  pub idle : (is_leading leader ≡ true) ⊎ (g.queue ≡ [])
  pub covered :
      (id : ℕ) (m : Member)
      → get g.members id ≡ some m
      → (m.is_done ≡ true) ⊎ (contains (in_flight leader ++ g.queue) id ≡ true)

pub idle_in_flight : (leader : Leader) → is_leading leader ≡ false → in_flight leader ≡ []
idle_in_flight absent h = refl
idle_in_flight draining h = cc
idle_in_flight (drained batch) h = cc
idle_in_flight (appending slices records) h = cc
idle_in_flight deciding h = refl

or_left : (a b c : Bool) → (a || b) ≡ true → (a || (b || c)) ≡ true
or_left true b c h = refl
or_left false b c h = rw h refl

or_last : (a b : Bool) {c : Bool} → c ≡ true → (a || (b || c)) ≡ true
or_last true b h = refl
or_last false true h = refl
or_last false false h = h

-- What stands in the queue still does when another joins it.
still_queued :
    (flight queue : List ℕ) (joined id : ℕ)
    → contains (flight ++ queue) id ≡ true
    → contains (flight ++ (queue ++ (joined ∷ []))) id ≡ true
still_queued flight queue joined id c =
    contains-append flight (queue ++ (joined ∷ [])) id
    ∙ ap (λ b. contains flight id || b) (contains-append queue (joined ∷ []) id)
    ∙ or_left (contains flight id) (contains queue id) _ (sym (contains-append flight queue id) ∙ c)

newly_queued :
    (flight queue : List ℕ) (joined id : ℕ)
    → (joined == id) ≡ true
    → contains (flight ++ (queue ++ (joined ∷ []))) id ≡ true
unfolding contains
newly_queued flight queue joined id same =
    contains-append flight (queue ++ (joined ∷ [])) id
    ∙ ap (λ b. contains flight id || b) (contains-append queue (joined ∷ []) id)
    ∙ or_last (contains flight id) (contains queue id) (rw same refl)

enqueued :
    (flight : List ℕ) (g : Inner) (owner : ℕ) (records : List (List ℕ)) (id : ℕ) (m : Member)
    → ((m : Member)
        → get g.members id ≡ some m
        → (m.is_done ≡ true) ⊎ (contains (flight ++ g.queue) id ≡ true))
    → get (enqueue owner records g).1.members id ≡ some m
    → (m.is_done ≡ true) ⊎ (contains (flight ++ (enqueue owner records g).1.queue) id ≡ true)
unfolding enqueue
enqueued flight g owner records id m covered there =
    let fresh : Member = record {
      owner = owner;
      records = records;
      result = none;
      is_done = false;
    } in
    let seen = get-insert g.members g.next_id id fresh in
    elim (Bool-cases (g.next_id == id)) [
      | inl new ↦ inr (newly_queued flight g.queue g.next_id id new)
      | inr old ↦
          let known : get g.members id ≡ some m = sym (seen ∙ rw old refl) ∙ there in
          elim (covered m known) [
            | inl done ↦ inl done
            | inr queued ↦ inr (still_queued flight g.queue g.next_id id queued)
          ]
    ]

pub enqueue-IsCovered :
    (g : Inner) (leader : Leader) (owner : ℕ) (records : List (List ℕ))
    → IsCovered g leader
    → let ((id, am_leader), g1) = enqueue owner records g in
      IsCovered g1 (if am_leader then draining else leader)
unfolding enqueue
enqueue-IsCovered g leader owner records h = elim (Bool-cases g.leader_active) [
  | inl busy ↦
      let led = sym h.active ∙ busy in
      rw busy (record {
        active = sym led;
        idle = inl led;
        covered =
            λ id m there. enqueued (in_flight leader) g owner records id m (h.covered id) there;
      })
  | inr free ↦
      let none_led = sym h.active ∙ free in
      rw free (record {
        active = refl;
        idle = inl refl;
        covered = λ id m there.
            enqueued [] g owner records id m
              (λ m known.
                subst (λ f. (m.is_done ≡ true) ⊎ (contains (f ++ g.queue) id ≡ true))
                  (idle_in_flight leader none_led) (h.covered id m known))
              there;
      })
]

after_drain-leads : (batch : List ℕ) → is_leading (after_drain batch) ≡ true
after_drain-leads [] = refl
after_drain-leads (id ∷ batch) = refl

in_flight-after_drain : (batch : List ℕ) → in_flight (after_drain batch) ≡ batch
in_flight-after_drain [] = refl
in_flight-after_drain (id ∷ batch) = refl

pub drain-IsCovered :
    (g : Inner)
    → IsCovered g draining
    → let (batch, g1) = drain_batch g in IsCovered g1 (after_drain batch)
unfolding drain_batch
drain-IsCovered g h =
    let (batch, g1) = drain_batch g in
    let (joined, some_taken, short, full) = drain_batch_lem g in
    record {
      active = h.active ∙ sym (after_drain-leads batch);
      idle = inl (after_drain-leads batch);
      covered = λ id m there.
          subst (λ ids. (m.is_done ≡ true) ⊎ (contains ids id ≡ true))
            (sym (ap (λ ids. ids ++ g1.queue) (in_flight-after_drain batch) ∙ joined))
            (h.covered id m there);
    }

pub relinquish-IsCovered :
    (g : Inner)
    → IsCovered g deciding
    → let (last, g1) = relinquish g in IsCovered g1 (if last then absent else draining)
relinquish-IsCovered g h = at (relinquish g) (relinquish-Relinquished g)
  where
    at :
        (out : Bool × Inner)
        → Relinquished g out
        → IsCovered out.1 (if out.0 then absent else draining)
    at out (over e) = record { active = refl; idle = inr e; covered = h.covered }
    at out (going left) = record { active = h.active; idle = inl refl; covered = h.covered }

pub collect_done-IsCovered :
    (found : Option Member) (id : ℕ) (g : Inner) (leader : Leader)
    → IsCovered g leader
    → IsCovered (collect_done found id g).1 leader
unfolding collect_done
collect_done-IsCovered none id g leader h = h
collect_done-IsCovered (some m) id g leader h = elim (Bool-cases m.is_done) [
  | inl done ↦ rw done (record {
    active = h.active;
    idle = h.idle;
    covered = λ j m' there. elim (Bool-cases (id == j)) [
      | inl same ↦
          let no : none ≡ some m' = sym (get-remove g.members id j ∙ rw same refl) ∙ there in cc
      | inr other ↦ h.covered j m' (sym (get-remove g.members id j ∙ rw other refl) ∙ there)
    ];
  })
  | inr waiting ↦ rw waiting h
]
