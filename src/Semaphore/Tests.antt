-- ===== src/Semaphore/Tests.antt =====
-- A semaphore at which two operations wait, and the theorems at it.
use asio_experiments.Prelude.{◌≡◌, refl, Option, none, some, List, [], ◌∷◌, arith, ◌⊎◌}
use asio_experiments.Prelude.Int.{ℤ, pos, negsuc}
use asio_experiments.ErrorCode.{success, operation_aborted}
use asio_experiments.Bilist.{init, unlink, link_before, size}
use asio_experiments.Bilist.Heap.{Ptr, update}
use asio_experiments.Semaphore.{
  make, complete, on_cancel, emit, construct, add_waiter, decrement, increment, release, destroy,
  value, enqueue, async_acquire,
}
use asio_experiments.Semaphore.State.{
  Handler, WaitOp, Semaphore, Post, completion, ◌>>=◌, ◌>>◌, pure, get,
}
use asio_experiments.Semaphore.Spec
use asio_experiments.Semaphore.Spec.{Spec}
use asio_experiments.Semaphore.Abs.{Abs, Yields}
use asio_experiments.Semaphore.Release.{release_refines}
use asio_experiments.Semaphore.Drain.{destroy_refines}
use asio_experiments.Semaphore.Acquire.{op_of, outcome, async_acquire_refines}
use asio_experiments.Semaphore.Cancel.{Aborts, NoneOn, emit_refines}
use asio_experiments.Semaphore.Ledger.{Ledger, one_given}
use asio_experiments.Semaphore.History.{releases, start, call, IsSound, exec, Run-IsSound}

abbrev first_handler : Handler
first_handler = record { id = 1; executor = none; slot = some 5 }

abbrev second_handler : Handler
second_handler = record { id = 2; executor = some 8; slot = none }

abbrev first_op : WaitOp
first_op = record { host = 100; work_guard = 7; handler = first_handler }

abbrev second_op : WaitOp
second_op = record { host = 100; work_guard = 8; handler = second_handler }

-- The head is at 100, the operations at 200 and 300.
abbrev two : Semaphore
two = record {
  waiters = 100;
  count = pos 0;
  exec = 7;
  heap = record {
    next = update (update (update (λ _. none) 100 (some 200)) 200 (some 300)) 300 (some 100);
    prev = update (update (update (λ _. none) 100 (some 300)) 200 (some 100)) 300 (some 200);
    item = update (update (λ _. none) 200 (some first_op)) 300 (some second_op);
  };
  slots = update (λ _. none) 5 (some 200);
  posted = [];
}

abbrev nodes : List Ptr
nodes = 200 ∷ 300 ∷ []

abbrev two_waiting : Spec
two_waiting = record { count = 0; waiting = first_op ∷ second_op ∷ []; posted = [] }

two-Abs : Abs two nodes two_waiting
two-Abs = record {
  queue = record {
    ring = record { chain = ground arith; distinct = ground arith };
    items = ground arith;
    installed = λ p k m e. ground arith;
    owned = λ p k e. ground arith;
  };
  count = refl;
  posted = refl;
}

abbrev result {ℓ κ} : {A : Type ℓ} {B : Type κ} → Option (A × B) → Option A
result none = none
result (some (a, b)) = some a

-- Two acquires of a semaphore with no token, and a release.
first_come :
    result {A = ℤ × ℤ × List Post} (
      (do
        _ ← async_acquire (some 200) first_handler
        _ ← async_acquire (some 300) second_handler
        before ← value 9
        release
        after ← value 9
        s ← get
        pure (before, after, s.posted))
        (make 100 7 (pos 0)))
    ≡ some (negsuc 1, negsuc 0, completion first_op success ∷ [])
unfolding async_acquire enqueue construct add_waiter init link_before value size make complete
    release decrement increment unlink
first_come = refl

release_refines_example : Yields release two tt (Spec.release two_waiting)
release_refines_example = release_refines two nodes two_waiting two-Abs (omega arith)

destroy_refines_example :
    Yields (destroy 3) two tt (Spec.complete_all operation_aborted two_waiting)
destroy_refines_example = destroy_refines two nodes two_waiting 3 two-Abs (omega arith)

async_acquire_refines_example :
    Yields
      (async_acquire (some 400) second_handler)
      two
      (outcome 0 400)
      (Spec.acquire (op_of two second_handler) two_waiting)
async_acquire_refines_example =
    async_acquire_refines two nodes two_waiting 400 second_handler two-Abs refl (λ k e. cc)

emit_refines_example :
    Aborts two two_waiting 5 4 ⊎ ((emit 5 4 two ≡ some (tt, two)) × NoneOn 5 two_waiting.waiting)
emit_refines_example = emit_refines two nodes two_waiting 5 4 two-Abs refl

-- The signal of a type that the semaphore does not support is ignored.
emit_other_type : emit 5 8 two ≡ some (tt, two)
unfolding emit on_cancel
emit_other_type = refl

abbrev empty_books : Ledger
empty_books = record { arrivals = []; given = 1; taken = 0 }

abbrev one_token : Semaphore
one_token = record {
  waiters = 100;
  count = pos 2;
  exec = 7;
  heap = record {
    next = update (λ _. none) 100 (some 100);
    prev = update (λ _. none) 100 (some 100);
    item = λ _. none;
  };
  slots = λ _. none;
  posted = [];
}

Run-IsSound_example : IsSound one_token (one_given empty_books)
unfolding exec release increment make
Run-IsSound_example =
    Run-IsSound 100 7 1 one_token (one_given empty_books) (omega arith)
      (call start releases refl refl)

one_token-IsSound : IsSound one_token (one_given empty_books)
unfolding exec release increment make
one_token-IsSound =
    Run-IsSound 100 7 1 one_token (one_given empty_books) (omega arith)
      (call start releases refl refl)
