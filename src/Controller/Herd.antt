-- ===== src/Controller/Herd.antt =====
-- How many threads warm one instance of crates/controller/src/lib.rs at a time.
use bydesigns_db.Base.{
  ℕ, ◌<◌, ◌≡◌, refl, sym, Bool, true, false, if◌then◌else◌, Bool-cases, inl, inr, ◌==◌, Option,
  none, some, arith,
}
use bydesigns_db.Controller.{
  LifecycleState, cold, warming, active, idle, stopping, Instance, initial, is_warming, start,
  start_in, warm_end, drop_lease, stop, reap, reap_unused, heartbeat, unused_phase, used_phase,
  Step, started, warmed, dropped, stopped, renewed, reaped, fenced_off, Run, begin, then_step,
}

is_warming-unused_phase : (p : LifecycleState) → is_warming (unused_phase p) ≡ is_warming p
is_warming-unused_phase cold = refl
is_warming-unused_phase warming = refl
is_warming-unused_phase active = refl
is_warming-unused_phase idle = refl
is_warming-unused_phase stopping = refl

is_warming-used_phase : (p : LifecycleState) → is_warming (used_phase p) ≡ is_warming p
is_warming-used_phase cold = refl
is_warming-used_phase warming = refl
is_warming-used_phase active = refl
is_warming-used_phase idle = refl
is_warming-used_phase stopping = refl

-- One thread warms when the phase says so, and none otherwise.
abbrev IsSingle : LifecycleState → ℕ → Type 0
IsSingle p warmers = warmers ≡ (if is_warming p then 1 else 0)

start_in-IsSingle :
    (p : LifecycleState) (s : Instance)
    → p ≡ s.phase
    → IsSingle s.phase s.warmers
    → IsSingle (start_in p s).1.phase (start_in p s).1.warmers
unfolding start_in
start_in-IsSingle cold s q h = let none_yet : s.warmers ≡ 0 = rw (sym q) at h in ground arith
start_in-IsSingle warming s q h = h
start_in-IsSingle active s q h = rw (sym q) at h
start_in-IsSingle idle s q h = rw (sym q) at h
start_in-IsSingle stopping s q h = h

reap_unused-IsSingle :
    (p : LifecycleState) (expired : Bool) (s : Instance)
    → IsSingle p s.warmers
    → IsSingle (reap_unused p expired s).phase (reap_unused p expired s).warmers
unfolding reap_unused
reap_unused-IsSingle cold expired s h = h
reap_unused-IsSingle warming expired s h = h
reap_unused-IsSingle active expired s h = h
reap_unused-IsSingle idle true s h = h
reap_unused-IsSingle idle false s h = h
reap_unused-IsSingle stopping expired s h = h

reap-IsSingle :
    (expired : Bool) (s : Instance)
    → IsSingle s.phase s.warmers
    → IsSingle (reap false expired s).phase (reap false expired s).warmers
unfolding reap
reap-IsSingle expired s h = elim (Bool-cases (s.leases == 0)) [
  | inl free ↦ rw free (
      reap_unused-IsSingle (unused_phase s.phase) expired s
        (rw (is_warming-unused_phase s.phase) h))
  | inr used ↦ rw used (rw (is_warming-used_phase s.phase) h)
]

warm_end-IsSingle :
    (db : Option ℕ) (s : Instance)
    → 0 < s.warmers
    → IsSingle s.phase s.warmers
    → IsSingle (warm_end db s).phase (warm_end db s).warmers
unfolding warm_end
warm_end-IsSingle (some db) s pos h = ground arith
warm_end-IsSingle none s pos h = ground arith

-- Where the instance does not warm, no thread does.
none_warms :
    (s : Instance) → IsSingle s.phase s.warmers → is_warming s.phase ≡ false → s.warmers ≡ 0
none_warms s h calm = rw calm at h

stop-IsSingle :
    (s : Instance)
    → is_warming s.phase ≡ false
    → IsSingle s.phase s.warmers
    → IsSingle (stop s).phase (stop s).warmers
unfolding stop
stop-IsSingle s calm h = elim (Bool-cases (s.leases == 0)) [
  | inl free ↦ rw free (none_warms s h calm)
  | inr used ↦ rw used h
]

Step-IsSingle :
    {s t : Instance} → Step true s t → IsSingle s.phase s.warmers → IsSingle t.phase t.warmers
unfolding start drop_lease heartbeat reap
Step-IsSingle {s} started h = start_in-IsSingle s.phase s refl h
Step-IsSingle {s} (warmed db pos) h = warm_end-IsSingle db s pos h
Step-IsSingle dropped h = h
Step-IsSingle {s} (stopped c) h = stop-IsSingle s c h
Step-IsSingle renewed h = h
Step-IsSingle {s} (reaped expired) h = reap-IsSingle expired s h
Step-IsSingle {s} (fenced_off expired c) h = none_warms s h c

-- In a calm run, where no stop and no reaper that lost its fence takes the lock of a warming
-- instance, exactly one thread warms it while its phase says so, and none in any other phase,
-- however many call `start`.
pub one_warmer : {s : Instance} → Run true s → s.warmers ≡ (if is_warming s.phase then 1 else 0)
unfolding initial
one_warmer begin = refl
one_warmer (then_step r st) = Step-IsSingle st (one_warmer r)
