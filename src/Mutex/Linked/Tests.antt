-- ===== src/Mutex/Linked/Tests.antt =====
-- One holds the mutex in memory, and another comes.
use asio_experiments.Prelude.{refl, none, true, [], ◌∷◌}
use asio_experiments.ErrorCode.{success}
use asio_experiments.Semaphore
use asio_experiments.Semaphore.State.{Handler}
use asio_experiments.Mutex.{finish}
use asio_experiments.Mutex.Linked.{
  Linked, make, enter, perform, locking, performing, exec, LinkedRun, start, event,
}
use asio_experiments.Mutex.Linked.Simulates.{Simulates, linked-Simulates}

abbrev holder : Handler
holder = record { id = 1; executor = none; slot = none }

abbrev other : Handler
other = record { id = 2; executor = none; slot = none }

-- The semaphore stands at the address 50, and its executor is 7.
abbrev held : Linked
held = record {
  locked = true;
  semaphore = (make 50 7).semaphore;
  ready = [];
  completed = (holder, success) ∷ [];
}

held-LinkedRun : LinkedRun 50 7 held 0
unfolding make exec enter perform
held-LinkedRun =
    event (event start (locking 100 holder) (λ l. cc) refl) (performing 100 [] (finish holder) [])
      (refl, tt) refl

linked-Simulates_example : Simulates 7 0 held (locking 100 other)
unfolding make Semaphore.make
linked-Simulates_example =
    linked-Simulates held-LinkedRun (locking 100 other) (λ l. (refl, λ k e. cc))
