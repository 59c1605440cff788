-- ===== src/Controller/Runs.antt =====
-- Runs of an instance of crates/controller/src/lib.rs.
use bydesigns_db.Base.{ℕ, ◌≡◌, refl, Bool, false, if◌then◌else◌, some, arith}
use bydesigns_db.Controller.{
  Instance, initial, start, warm_end, drop_lease, stop, lease, is_warming, Step, started, warmed,
  dropped, stopped, reaped, Run, begin, then_step,
}
use bydesigns_db.Controller.Phases.{start_returns_open}
use bydesigns_db.Controller.Herd.{one_warmer}

-- Two callers start the cold instance, and the first opens database 5.
abbrev opened_once : Instance
opened_once = warm_end (some 5) (start (start initial).1).1

opened_once-Run : {calm : Bool} → Run calm opened_once
unfolding initial start bydesigns_db.Controller.start_in
opened_once-Run =
    then_step (then_step (then_step begin started) started) (warmed (some 5) (omega arith))

start_returns_open_example : (db : ℕ) × ((start opened_once).0 ≡ lease (some db))
unfolding initial start bydesigns_db.Controller.start_in warm_end
start_returns_open_example = start_returns_open (opened_once-Run {calm = false}) refl

one_warmer_example : opened_once.warmers ≡ (if is_warming opened_once.phase then 1 else 0)
one_warmer_example = one_warmer opened_once-Run

-- A stop while the first caller warms lets a second one warm too.
stop_lets_two_warm : (start (stop (start initial).1)).1.warmers ≡ 2
unfolding initial start bydesigns_db.Controller.start_in stop
stop_lets_two_warm = refl
