-- ===== src/Condvar/Tests.antt =====
-- A condition variable whose predicate is that a number has been reached.
use asio_experiments.Prelude.{ℕ, ◌+◌, ◌≡◌, ◌≢◌, refl, Bool, Option, none, some, [], leb}
use asio_experiments.ErrorCode.{success}
use asio_experiments.Semaphore.State.{Handler}
use asio_experiments.Semaphore.Spec
use asio_experiments.Condvar.{resume, Condvar, make, enter, notify_one, begin_wait, perform}
use asio_experiments.Condvar.Notify.{
  pending, wakeups, Run, start, waiting, notifying_one, performing, Run-notified,
}
use asio_experiments.Condvar.Predicates.{score, found, score-found}

abbrev first : Handler
first = record { id = 1; executor = none; slot = none }

abbrev second : Handler
second = record { id = 2; executor = none; slot = none }

-- The first waits for 5.
abbrev five : Handler → Option (ℕ → Bool)
five h = some (λ world. leb 5 world)

-- It is notified once too early, and waits again.
abbrev again : Condvar
again =
    perform five (resume first success) 3
      (record (notify_one (begin_wait five first 2 (make 0 7))) { ready = [] })

again-Run : Run five 7 again 1 0 1
unfolding make begin_wait enter notify_one Spec.acquire Spec.release
again-Run =
    performing (notifying_one (waiting (start 0) first 2)) 3 [] (resume first success) [] refl

Run-notified_example :
    (pending again + 1 ≡ 1) × (again.semaphore.waiting ≢ [] → wakeups again.ready + 1 ≡ 1)
Run-notified_example = Run-notified five 7 again-Run

-- It is notified once more, when the number is 5.
abbrev reached : Condvar
reached = perform five (resume first success) 5 (record (notify_one again) { ready = [] })

reached-Run : Run five 7 reached 2 0 2
unfolding make begin_wait enter notify_one perform Spec.acquire Spec.release
reached-Run = performing (notifying_one again-Run) 5 [] (resume first success) [] refl

score-found_example : score five 1 reached ≡ found five 1 reached-Run
score-found_example = score-found five 1 reached-Run

reached_once : score five 1 reached ≡ 1
unfolding make begin_wait enter notify_one perform Spec.acquire Spec.release
reached_once = refl
