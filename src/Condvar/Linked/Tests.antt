-- ===== src/Condvar/Linked/Tests.antt =====
-- Waits for a number of at least five, at a condition variable in memory.
use asio_experiments.Prelude.{ℕ, refl, Bool, Option, none, some, [], ◌∷◌, leb}
use asio_experiments.Semaphore
use asio_experiments.Semaphore.State.{Handler}
use asio_experiments.Condvar.{finish}
use asio_experiments.Condvar.Linked.{
  Linked, make, enter, begin_wait, waiting, exec, LinkedRun, start, event,
}
use asio_experiments.Condvar.Linked.Simulates.{Simulates, linked_condvar-Simulates}

abbrev first : Handler
first = record { id = 1; executor = none; slot = none }

abbrev second : Handler
second = record { id = 2; executor = none; slot = none }

abbrev at_least_five : Handler → Option (ℕ → Bool)
at_least_five h = some (λ n. leb 5 n)

-- The first wait goes on at once.
abbrev posted_once : Linked
posted_once = record {
  semaphore = (make 50 7).semaphore;
  ready = finish first ∷ [];
  completed = [];
}

posted_once-LinkedRun : LinkedRun at_least_five 50 7 posted_once
unfolding make Semaphore.make exec begin_wait enter
posted_once-LinkedRun = event start (waiting 100 first 6) (refl, λ k e. cc) refl

linked_condvar-Simulates_example : Simulates at_least_five 7 posted_once (waiting 100 second 2)
unfolding make Semaphore.make
linked_condvar-Simulates_example =
    linked_condvar-Simulates at_least_five posted_once-LinkedRun (waiting 100 second 2)
      (refl, λ k e. cc)
