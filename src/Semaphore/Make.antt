-- ===== src/Semaphore/Make.antt =====
-- The constructor of a semaphore.
use asio_experiments.Prelude.{ℕ, refl, [], arith}
use asio_experiments.Prelude.Int.{pos}
use asio_experiments.Bilist.Heap.{Ptr}
use asio_experiments.Semaphore.{make}
use asio_experiments.Semaphore.Spec.{Spec}
use asio_experiments.Semaphore.Abs.{Abs}

abbrev pub fresh : ℕ → Spec
fresh n = record { count = n; waiting = []; posted = [] }

-- A new semaphore has its initial count, nobody waits at it, and nothing has been posted.
pub make-Abs : (at : Ptr) (exec n : ℕ) → Abs (make at exec (pos n)) [] (fresh n)
unfolding make
make-Abs at exec n = record {
  queue = record {
    ring = record { chain = ground arith; distinct = (refl, tt) };
    items = tt;
    installed = λ p k m e. ground arith;
    owned = λ p k e. ground arith;
  };
  count = refl;
  posted = refl;
}
