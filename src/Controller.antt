-- ===== src/Controller.antt =====
-- crates/controller/src/lib.rs: the phases of one instance under concurrent calls. Each function is
-- what one thread does between taking and leaving the instance's lock. The clocks, the time
-- counters, the admission semaphore and the thread of the reaper are not part of the model.
pub mod Phases
pub mod Herd
mod Runs
use bydesigns_db.Base.{
  ℕ, ◌+◌, ◌-◌, ◌<◌, ◌≡◌, Bool, true, false, not, ◌&&◌, if◌then◌else◌, ltb, ◌==◌, Option, none, some,
}

pub data LifecycleState : Type 0 where
  cold warming active idle stopping : LifecycleState

-- The state behind the lock, and the counters of the controller that it moves. A handle is the
-- number of an open database. `warmers` are the threads that won the right to warm and have not
-- reported back.
pub record Instance : Type 0 where
  pub phase : LifecycleState
  pub handle : Option ℕ
  pub leases : ℕ
  pub warmers : ℕ
  pub warm_count : ℕ
  pub warm_starts : ℕ
  pub scale_to_zero : ℕ
  pub lease_renews : ℕ

unfoldable pub initial : Instance
initial = record {
  phase = cold;
  handle = none;
  leases = 0;
  warmers = 0;
  warm_count = 0;
  warm_starts = 0;
  scale_to_zero = 0;
  lease_renews = 0;
}

abbrev pub is_open : Option ℕ → Bool
is_open none = false
is_open (some db) = true

abbrev pub is_warm : LifecycleState → Bool
is_warm active = true
is_warm idle = true
is_warm _ = false

abbrev pub is_warming : LifecycleState → Bool
is_warming warming = true
is_warming _ = false

-- What one pass of the loop of `start` gives its caller: a lease on the handle, which is `none` where
-- the code panics, the right to warm, or a wait.
pub data Started : Type 0 where
  lease : Option ℕ → Started
  warm : Started
  wait : Started

pub start_in : LifecycleState → Instance → Started × Instance
start_in cold s = (warm, record s { phase = warming; warmers = s.warmers + 1 })
start_in warming s = (wait, s)
start_in active s = (
  lease s.handle,
  record s { phase = active; leases = s.leases + 1; warm_starts = s.warm_starts + 1 },
)
start_in idle s = (
  lease s.handle,
  record s { phase = active; leases = s.leases + 1; warm_starts = s.warm_starts + 1 },
)
start_in stopping s = (wait, s)

unfoldable pub start : Instance → Started × Instance
unfolding start_in
start s = start_in s.phase s

-- The end of a warm: the database that was opened, or the failure.
unfoldable pub warm_end : Option ℕ → Instance → Instance
warm_end (some db) s = record s {
  phase = active;
  handle = some db;
  leases = s.leases + 1;
  warmers = s.warmers - 1;
  warm_count = s.warm_count + 1;
}
warm_end none s = record s { phase = cold; warmers = s.warmers - 1 }

-- `Drop for Lease`.
unfoldable pub drop_lease : Instance → Instance
drop_lease s = record s { leases = s.leases - 1 }

unfoldable pub stop : Instance → Instance
stop s =
    if s.leases == 0
    then record s {
      scale_to_zero = if is_open s.handle then s.scale_to_zero + 1 else s.scale_to_zero;
      handle = none;
      phase = cold;
    }
    else s

-- The idle part of a reaper pass on an instance without leases, by whether the idle timeout is over
-- and the instance is not kept warm.
pub reap_unused : LifecycleState → Bool → Instance → Instance
reap_unused idle true s = record s {
  handle = none;
  phase = cold;
  scale_to_zero = s.scale_to_zero + 1;
}
reap_unused phase expired s = record s { phase = phase }

abbrev pub unused_phase : LifecycleState → LifecycleState
unused_phase active = idle
unused_phase phase = phase

abbrev pub used_phase : LifecycleState → LifecycleState
used_phase idle = active
used_phase phase = phase

-- What a reaper pass does at its second lock, by the outcome of the heartbeat before it.
unfoldable pub reap : Bool → Bool → Instance → Instance
unfolding reap_unused
reap true expired s = record s { handle = none; phase = cold }
reap false expired s =
    if s.leases == 0
    then reap_unused (unused_phase s.phase) expired s
    else record s { phase = used_phase s.phase }

-- A heartbeat between the two locks.
unfoldable pub heartbeat : Instance → Instance
heartbeat s = record s { lease_renews = s.lease_renews + 1 }

-- One step of any thread. In a calm run neither a stop nor a reaper that lost its fence takes the
-- lock while the instance warms. The relation also has reaper passes on an instance without a
-- handle, which the code skips.
pub data Step (calm : Bool) (s : Instance) : Instance → Type 0 where
  started : Step calm s (start s).1
  warmed : (db : Option ℕ) → 0 < s.warmers → Step calm s (warm_end db s)
  dropped : Step calm s (drop_lease s)
  stopped : (calm && is_warming s.phase) ≡ false → Step calm s (stop s)
  renewed : Step calm s (heartbeat s)
  reaped : (expired : Bool) → Step calm s (reap false expired s)
  fenced_off :
      (expired : Bool) → (calm && is_warming s.phase) ≡ false → Step calm s (reap true expired s)

pub data Run (calm : Bool) : Instance → Type 0 where
  begin : Run calm initial
  then_step : {s t : Instance} → Run calm s → Step calm s t → Run calm t
