-- ===== src/Condvar.antt =====
-- include/asioex/condition_variable.hpp: a condition variable over an asynchronous semaphore, which
-- is taken by its specification (Semaphore/Spec).
pub mod Notify
pub mod Remembered
pub mod Predicates
pub mod Linked
mod Tests
use asio_experiments.Prelude.{
  ℕ, Bool, true, false, Option, none, some, List, [], ◌∷◌, ◌++◌, map, if◌then◌else◌,
}
use asio_experiments.ErrorCode.{ErrorCode, success, failed}
use asio_experiments.Semaphore.State.{Handler, get_associated_executor, WaitOp, Post}
use asio_experiments.Semaphore.Spec
use asio_experiments.Semaphore.Spec.{Spec}

-- What an executor has been handed: what the semaphore reports to a waiting operation, and the
-- completion that is posted where the predicate holds at once.
pub data Task : Type 0 where
  resume : Handler → ErrorCode → Task
  finish : Handler → Task

-- A `basic_condition_variable`, with the address of its semaphore, the tasks that wait for an
-- executor, and the completions of its operations, oldest first.
pub record Condvar : Type 0 where
  pub semaphore : Spec
  pub host : ℕ
  pub exec : ℕ
  pub ready : List Task
  pub completed : List (Handler × ErrorCode)

-- `basic_condition_variable(exec)`, with its semaphore at the address `host`.
unfoldable pub make : ℕ → ℕ → Condvar
make host exec = record {
  semaphore = record { count = 0; waiting = []; posted = [] };
  host = host;
  exec = exec;
  ready = [];
  completed = [];
}

abbrev pub resumption : Post → Task
resumption c = resume c.handler c.code

-- What the semaphore has posted goes to the executors.
abbrev pub with_semaphore : Condvar → Spec → Condvar
with_semaphore cv a = record cv {
  semaphore = record a { posted = [] };
  ready = cv.ready ++ map resumption a.posted;
}

abbrev pub wait_op : Condvar → Handler → WaitOp
wait_op cv h = record {
  host = cv.host;
  work_guard = get_associated_executor h cv.exec;
  handler = h;
}

-- `semaphore_.async_acquire`
abbrev pub acquire : Handler → Condvar → Condvar
acquire h cv = with_semaphore cv (Spec.acquire (wait_op cv h) cv.semaphore)

abbrev pub complete : Handler → ErrorCode → Condvar → Condvar
complete h ec cv = record cv { completed = cv.completed ++ ((h, ec) ∷ []) }

-- `async_wait` without a predicate.
unfoldable pub async_wait : Handler → Condvar → Condvar
async_wait h cv = acquire h cv

-- The body of `async_wait` with a predicate, which is `holds` at this time.
unfoldable pub enter : Bool → Handler → Bool → ErrorCode → Condvar → Condvar
enter holds h did_suspend ec cv =
    if failed ec
    then complete h ec cv
    else if holds
    then (if did_suspend
        then complete h ec cv
        else record cv { ready = cv.ready ++ (finish h ∷ []) })
    else acquire h cv

unfoldable pub notify_one : Condvar → Condvar
notify_one cv = with_semaphore cv (Spec.release cv.semaphore)

unfoldable pub notify_all : Condvar → Condvar
notify_all cv = with_semaphore cv (Spec.complete_all success cv.semaphore)

-- A waiting operation is cancelled.
unfoldable pub cancel : List WaitOp → WaitOp → List WaitOp → Condvar → Condvar
cancel before w behind cv = with_semaphore cv (Spec.abort before w behind cv.semaphore)

-- `W` is what the predicates look at; an operation that was started without one has none.
module _ {W : Type 0} (predicate : Handler → Option (W → Bool)) where
  -- `async_wait` with the predicate of `h`, if it has one.
  unfoldable pub begin_wait : Handler → W → Condvar → Condvar
  begin_wait h world cv = elim (predicate h) [
    | none ↦ async_wait h cv
    | some p ↦ enter (p world) h false success cv
  ]

  -- An executor runs a task.
  unfoldable pub perform : Task → W → Condvar → Condvar
  perform (resume h ec) world cv = elim (predicate h) [
    | none ↦ complete h ec cv
    | some p ↦ enter (p world) h true ec cv
  ]
  perform (finish h) world cv = complete h success cv
