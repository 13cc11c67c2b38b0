-- ===== src/Mutex/Tests.antt =====
-- Two lock operations on one mutex, and the theorems there.
use asio_experiments.Prelude.{◌+◌, ◌≡◌, refl, none, true, false, [], ◌∷◌, ◌++◌, arith}
use asio_experiments.ErrorCode.{success}
use asio_experiments.Semaphore.State.{Handler, WaitOp}
use asio_experiments.Semaphore.Spec
use asio_experiments.Mutex.{
  LockGuard, assign_guard, resume, finish, Mutex, make, async_lock, unlock, try_lock, perform,
  move_guard,
}
use asio_experiments.Mutex.Exclusion.{
  Run, start, locking, unlocking, performing, grants, one_if, Run-exclusive,
}
use asio_experiments.Mutex.Wakeup.{Wakes, Granted, Run-Wakes}
use asio_experiments.Mutex.Rounds.{AtRest, rounds, rounds-count}
use asio_experiments.Mutex.Handover.{
  Handover, none_yet, constructs, assigns, destroy_all, unlocks, Handover-unlocks,
}
use asio_experiments.Mutex.Guard.{try_lock_inverted}

abbrev holder : Handler
holder = record { id = 1; executor = none; slot = none }

abbrev other : Handler
other = record { id = 2; executor = none; slot = none }

abbrev other_op : WaitOp
other_op = record { host = 0; work_guard = 7; handler = other }

-- One holds the lock, the other waits.
abbrev contended : Mutex
contended = record {
  locked = true;
  semaphore = record { count = 0; waiting = other_op ∷ []; posted = [] };
  host = 0;
  exec = 7;
  ready = [];
  completed = (holder, success) ∷ [];
  tried = 0;
}

-- The semaphore's first token sends the other round once before it waits.
contended-Run : Run 7 contended 0
unfolding make async_lock perform Spec.acquire
contended-Run =
    performing
      (performing (locking (locking (start 0) holder) other) [] (finish holder)
        (resume other success ∷ []) refl)
      [] (resume other success) [] refl

-- The holder unlocks.
abbrev handed_on : Mutex
handed_on = record {
  locked = false;
  semaphore = record { count = 0; waiting = []; posted = [] };
  host = 0;
  exec = 7;
  ready = resume other success ∷ [];
  completed = (holder, success) ∷ [];
  tried = 0;
}

unlocked : unlock contended ≡ handed_on
unfolding unlock Spec.release
unlocked = refl

-- The holder unlocks while a third operation waits behind the other.
abbrev third : Handler
third = record { id = 3; executor = none; slot = none }

abbrev third_op : WaitOp
third_op = record { host = 0; work_guard = 7; handler = third }

abbrev crowded : Mutex
crowded = record handed_on {
  semaphore = record { count = 0; waiting = third_op ∷ []; posted = [] };
}

crowded-Run : Run 7 crowded 1
unfolding async_lock unlock Spec.release Spec.acquire
crowded-Run = unlocking (locking contended-Run third) (omega arith)

Run-exclusive_example : grants contended ≡ 0 + one_if true
Run-exclusive_example = Run-exclusive 7 contended-Run

Run-Wakes_example :
    (w : Wakes crowded) × Granted w.handler crowded
      (perform (resume w.handler success) (record crowded { ready = w.before ++ w.behind }))
Run-Wakes_example = Run-Wakes 7 crowded-Run refl (λ e. cc)

fresh-AtRest : AtRest (make 0 7)
unfolding make
fresh-AtRest = record { free = refl; none_waits = refl; none_posted = refl; none_ready = refl }

rounds-count_example :
    AtRest (rounds 5 holder (make 0 7))
    × ((rounds 5 holder (make 0 7)).semaphore.count ≡ (make 0 7).semaphore.count + 5)
unfolding make
rounds-count_example = rounds-count 5 holder (make 0 7) fresh-AtRest (omega arith)

try_lock_inverted_example :
    ((try_lock contended).0 ≡ true → grants contended ≡ 1)
    × ((try_lock contended).0 ≡ false → grants contended ≡ 0)
    × ((try_lock contended).1.locked ≡ true)
    × Run 7 (try_lock contended).1 0
try_lock_inverted_example = try_lock_inverted 7 contended-Run

-- A guard is moved, and the new one is assigned to what is left of the first.
abbrev owning : LockGuard
owning = record { owns = true }

handed_round : Handover (owning ∷ []) (owning ∷ record { owns = false } ∷ [])
unfolding move_guard assign_guard
handed_round = assigns [] (record { owns = false }) [] owning [] (constructs [] owning [] none_yet)

Handover-unlocks_example :
    destroy_all (owning ∷ record { owns = false } ∷ []) contended ≡ unlocks 1 contended
Handover-unlocks_example = Handover-unlocks contended handed_round
