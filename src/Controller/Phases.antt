-- ===== src/Controller/Phases.antt =====
-- What holds of an instance of crates/controller/src/lib.rs in every run.
use bydesigns_db.Base.{
  ℕ, ◌≡◌, refl, Bool, true, false, Bool-cases, inl, inr, ◌==◌, Option, none, some,
}
use bydesigns_db.Controller.{
  LifecycleState, cold, warming, active, idle, stopping, Instance, initial, is_open, is_warm, start,
  start_in, warm_end, drop_lease, stop, reap, reap_unused, heartbeat, unused_phase, used_phase,
  lease, Step, started, warmed, dropped, stopped, renewed, reaped, fenced_off, Run, begin,
  then_step,
}

is_warm-unused_phase : (p : LifecycleState) → is_warm (unused_phase p) ≡ is_warm p
is_warm-unused_phase cold = refl
is_warm-unused_phase warming = refl
is_warm-unused_phase active = refl
is_warm-unused_phase idle = refl
is_warm-unused_phase stopping = refl

is_warm-used_phase : (p : LifecycleState) → is_warm (used_phase p) ≡ is_warm p
is_warm-used_phase cold = refl
is_warm-used_phase warming = refl
is_warm-used_phase active = refl
is_warm-used_phase idle = refl
is_warm-used_phase stopping = refl

-- A warm phase comes with an open handle.
abbrev IsServing : LifecycleState → Option ℕ → Type 0
IsServing p handle = is_warm p ≡ true → is_open handle ≡ true

start_in-IsServing :
    (p : LifecycleState) (s : Instance)
    → p ≡ s.phase
    → IsServing s.phase s.handle
    → IsServing (start_in p s).1.phase (start_in p s).1.handle
unfolding start_in
start_in-IsServing cold s q h e = cc
start_in-IsServing warming s q h e = h e
start_in-IsServing active s q h e = h (rw⁻¹ q refl)
start_in-IsServing idle s q h e = h (rw⁻¹ q refl)
start_in-IsServing stopping s q h e = h e

reap_unused-IsServing :
    (p : LifecycleState) (expired : Bool) (s : Instance)
    → IsServing p s.handle
    → IsServing (reap_unused p expired s).phase (reap_unused p expired s).handle
unfolding reap_unused
reap_unused-IsServing cold expired s h e = h e
reap_unused-IsServing warming expired s h e = h e
reap_unused-IsServing active expired s h e = h e
reap_unused-IsServing idle true s h e = cc
reap_unused-IsServing idle false s h e = h e
reap_unused-IsServing stopping expired s h e = h e

reap-IsServing :
    (expired : Bool) (s : Instance)
    → IsServing s.phase s.handle
    → IsServing (reap false expired s).phase (reap false expired s).handle
unfolding reap
reap-IsServing expired s h = elim (Bool-cases (s.leases == 0)) [
  | inl free ↦
      rw free (
        reap_unused-IsServing (unused_phase s.phase) expired s
          (rw (is_warm-unused_phase s.phase) h))
  | inr used ↦ rw used (rw (is_warm-used_phase s.phase) h)
]

stop-IsServing :
    (s : Instance) → IsServing s.phase s.handle → IsServing (stop s).phase (stop s).handle
unfolding stop
stop-IsServing s h = elim (Bool-cases (s.leases == 0)) [
  | inl free ↦ rw free (λ e. cc)
  | inr used ↦ rw used h
]

Step-IsServing :
    {calm : Bool} {s t : Instance}
    → Step calm s t
    → IsServing s.phase s.handle
    → IsServing t.phase t.handle
unfolding start warm_end drop_lease heartbeat reap
Step-IsServing {calm} {s} started h = start_in-IsServing s.phase s refl h
Step-IsServing (warmed (some db) pos) h = λ e. refl
Step-IsServing (warmed none pos) h = λ e. cc
Step-IsServing dropped h = h
Step-IsServing {calm} {s} (stopped c) h = stop-IsServing s h
Step-IsServing renewed h = h
Step-IsServing {calm} {s} (reaped expired) h = reap-IsServing expired s h
Step-IsServing (fenced_off expired c) h = λ e. cc

Run-IsServing : {calm : Bool} {s : Instance} → Run calm s → IsServing s.phase s.handle
unfolding initial
Run-IsServing begin = λ e. cc
Run-IsServing (then_step r st) = Step-IsServing st (Run-IsServing r)

opened : (handle : Option ℕ) → is_open handle ≡ true → (db : ℕ) × (lease handle ≡ lease (some db))
opened none e = cc
opened (some db) e = (db, refl)

start_in-open :
    (p : LifecycleState) (s : Instance)
    → is_warm p ≡ true
    → is_open s.handle ≡ true
    → (db : ℕ) × ((start_in p s).0 ≡ lease (some db))
unfolding start_in
start_in-open active s w e = opened s.handle e
start_in-open idle s w e = opened s.handle e
start_in-open cold s w e = cc
start_in-open warming s w e = cc
start_in-open stopping s w e = cc

-- In every run, calm or not, a call of `start` on a warm instance returns a lease on an open
-- database: the handle that it takes without a check is there.
pub start_returns_open :
    {calm : Bool} {s : Instance}
    → Run calm s
    → is_warm s.phase ≡ true
    → (db : ℕ) × ((start s).0 ≡ lease (some db))
unfolding start
start_returns_open {calm} {s} r h = start_in-open s.phase s h (Run-IsServing r h)
