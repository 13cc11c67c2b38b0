-- ===== src/Mutex.antt =====
-- include/asioex/mutex.hpp: an asynchronous mutex over an asynchronous semaphore, which is taken by
-- its specification (Semaphore/Spec), with a counter that has no largest value. Mutex/Linked has the
-- semaphore in memory, whose counter is an `int`.
pub mod Exclusion
pub mod Wakeup
pub mod Guard
pub mod Rounds
pub mod Handover
pub mod Linked
mod Tests
use asio_experiments.Prelude.{
  ℕ, suc, Bool, true, false, Option, none, some, List, [], ◌∷◌, ◌++◌, map, if◌then◌else◌,
}
use asio_experiments.ErrorCode.{ErrorCode, success, failed}
use asio_experiments.Semaphore.State.{Handler, get_associated_executor, WaitOp, Post}
use asio_experiments.Semaphore.Spec
use asio_experiments.Semaphore.Spec.{Spec}

-- What an executor has been handed: a lock operation that goes on with what the semaphore reports,
-- and the completion that the uncontended path posts.
pub data Task : Type 0 where
  resume : Handler → ErrorCode → Task
  finish : Handler → Task

-- A `basic_mutex`, with the address of its semaphore, the tasks that wait for an executor, the
-- completions of its lock operations, oldest first, and the number of locks that `try_lock` has taken.
pub record Mutex : Type 0 where
  pub locked : Bool
  pub semaphore : Spec
  pub host : ℕ
  pub exec : ℕ
  pub ready : List Task
  pub completed : List (Handler × ErrorCode)
  pub tried : ℕ

-- `basic_mutex(exec)`; `semaphore_(exec)`, at the address `host`, has the default count of 1.
pub make : ℕ → ℕ → Mutex
make host exec = record {
  locked = false;
  semaphore = record { count = 1; waiting = []; posted = [] };
  host = host;
  exec = exec;
  ready = [];
  completed = [];
  tried = 0;
}

abbrev pub resumption : Post → Task
resumption c = resume c.handler c.code

-- What the semaphore has posted goes to the executors.
abbrev pub with_semaphore : Mutex → Spec → Mutex
with_semaphore m a = record m {
  semaphore = record a { posted = [] };
  ready = m.ready ++ map resumption a.posted;
}

abbrev pub complete : Handler → ErrorCode → Mutex → Mutex
complete h ec m = record m { completed = m.completed ++ ((h, ec) ∷ []) }

abbrev pub lock_op : Mutex → Handler → WaitOp
lock_op m h = record { host = m.host; work_guard = get_associated_executor h m.exec; handler = h }

-- The body of `async_lock`, run with `ec`. An operation that the semaphore resumes has suspended.
pub enter : Handler → Bool → ErrorCode → Mutex → Mutex
enter h did_suspend ec m =
    if failed ec
    then complete h ec m
    else if m.locked
    then with_semaphore m (Spec.acquire (lock_op m h) m.semaphore)
    else if did_suspend
    then complete h ec (record m { locked = true })
    else record m { locked = true; ready = m.ready ++ (finish h ∷ []) }

pub async_lock : Handler → Mutex → Mutex
unfolding enter
async_lock h m = enter h false success m

pub unlock : Mutex → Mutex
unlock m = with_semaphore (record m { locked = false }) (Spec.release m.semaphore)

pub try_lock : Mutex → Bool × Mutex
try_lock m =
    (m.locked, record m { locked = true; tried = if m.locked then m.tried else suc m.tried })

-- An executor runs a task.
pub perform : Task → Mutex → Mutex
unfolding enter
perform (resume h ec) m = enter h true ec m
perform (finish h) m = complete h success m

-- A waiting lock operation is cancelled, through the slot of its handler.
pub cancel : List WaitOp → WaitOp → List WaitOp → Mutex → Mutex
cancel before w behind m = with_semaphore m (Spec.abort before w behind m.semaphore)

-- A `basic_lock_guard`: whether its `mtx_` points to the mutex.
pub record LockGuard : Type 0 where
  pub owns : Bool

-- `async_guard` completes its caller with the error of the lock operation and a guard, whatever the
-- error is. The lambda that it passes to `async_lock` has no cancellation slot.
pub guard_of : Handler × ErrorCode → ErrorCode × LockGuard
guard_of (h, ec) = (ec, record { owns = true })

-- The move constructor: the new guard, and what is left of the old one.
pub move_guard : LockGuard → LockGuard × LockGuard
move_guard g = (g, record { owns = false })

-- Move assignment of `lhs` to a guard: the guard, and what is left of `lhs`.
pub assign_guard : LockGuard → LockGuard → LockGuard × LockGuard
assign_guard this lhs = (lhs, this)

-- `~basic_lock_guard`
pub destroy_guard : LockGuard → Mutex → Mutex
unfolding unlock
destroy_guard g m = if g.owns then unlock m else m
