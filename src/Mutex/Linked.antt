-- ===== src/Mutex/Linked.antt =====
-- include/asioex/mutex.hpp on include/asioex/impl/async_semaphore_base.hpp: the asynchronous mutex
-- with its semaphore in memory.
pub mod Stands
pub mod Simulates
mod Tests
use asio_experiments.Prelude.{
  ℕ, ◌≡◌, ◌<◌, suc, Bool, true, false, Option, none, some, List, [], ◌∷◌, ◌++◌, map, if◌then◌else◌,
}
use asio_experiments.Prelude.Int.{pos, is_int_max}
use asio_experiments.ErrorCode.{ErrorCode, success, failed}
use asio_experiments.Bilist.Heap.{Ptr}
use asio_experiments.Semaphore
use asio_experiments.Semaphore.{cancels, release, async_acquire, emit}
use asio_experiments.Semaphore.State.{Handler, Semaphore, M}
use asio_experiments.Mutex.{Task, resume, finish, resumption}
use asio_experiments.Mutex.Exclusion.{locks}

pub record Linked : Type 0 where
  pub locked : Bool
  pub semaphore : Semaphore
  pub ready : List Task
  pub completed : List (Handler × ErrorCode)

-- `basic_mutex(exec)`, with its semaphore at the address `at`.
unfoldable pub make : Ptr → ℕ → Linked
make at exec = record {
  locked = false;
  semaphore = Semaphore.make at exec (pos 1);
  ready = [];
  completed = [];
}

-- What the semaphore has posted goes to the executors.
abbrev pub hand_over : Linked → Semaphore → Linked
hand_over m s = record m {
  semaphore = record s { posted = [] };
  ready = m.ready ++ map resumption s.posted;
}

-- A call of the semaphore; `none` is a fault of it.
abbrev pub calls : {B : Type 0} → M B → Linked → Option Linked
calls c m = elim (c m.semaphore) [ none ↦ none | some (b, s) ↦ some (hand_over m s) ]

abbrev pub complete : Handler → ErrorCode → Linked → Linked
complete h ec m = record m { completed = m.completed ++ ((h, ec) ∷ []) }

-- The body of `async_lock`, run with `ec`; `mem` is the storage of the semaphore's operation.
unfoldable pub enter : Ptr → Handler → Bool → ErrorCode → Linked → Option Linked
enter mem h did_suspend ec m =
    if failed ec
    then some (complete h ec m)
    else if m.locked
    then calls (async_acquire (some mem) h) m
    else if did_suspend
    then some (complete h ec (record m { locked = true }))
    else some (record m { locked = true; ready = m.ready ++ (finish h ∷ []) })

unfoldable pub unlock : Linked → Option Linked
unlock m = calls release (record m { locked = false })

unfoldable pub perform : Ptr → Task → Linked → Option Linked
unfolding enter
perform mem (resume h ec) m = enter mem h true ec m
perform mem (finish h) m = some (complete h success m)

-- What happens to a mutex: `async_lock`, `unlock`, an executor that runs one of the tasks, and a
-- signal to a cancellation slot; `try_lock` does not use the semaphore and is left to the mutex over
-- the promise.
pub data Event : Type 0 where
  locking : (mem : Ptr) → Handler → Event
  unlocking : Event
  performing : (mem : Ptr) → List Task → Task → List Task → Event
  emitting : (slot type : ℕ) → Event

unfoldable pub exec : Event → Linked → Option Linked
unfolding enter unlock perform
exec (locking mem h) m = enter mem h false success m
exec unlocking m = unlock m
exec (performing mem before t after) m = perform mem t (record m { ready = before ++ after })
exec (emitting slot type) m = calls (emit slot type) m

-- The allocator returns unused storage, and the handler's slot is not in use, where `async_lock` has
-- to wait.
abbrev pub HasRoom : Linked → Ptr → Handler → Type 0
HasRoom m mem h =
    m.locked ≡ true
    → (m.semaphore.heap.next mem ≡ none) × ((k : ℕ) → h.slot ≡ some k → m.semaphore.slots k ≡ none)

abbrev pub HasRoomFor : Linked → Ptr → Task → Type 0
HasRoomFor m mem (resume h ec) = HasRoom m mem h
HasRoomFor m mem (finish h) = Unit {0}

-- What the users see to, after `n` unlocks: who unlocks has been told that the lock is held, the
-- semaphore's counter is not at the largest `int` then, a task that runs is one that is ready, and
-- signals are of a type that the semaphore supports.
abbrev pub Allowed : ℕ → Linked → Event → Type 0
Allowed n m (locking mem h) = HasRoom m mem h
Allowed n m unlocking = (n < locks m.completed) × (is_int_max m.semaphore.count ≡ false)
Allowed n m (performing mem before t after) = (m.ready ≡ before ++ (t ∷ after)) × HasRoomFor m mem t
Allowed n m (emitting slot type) = cancels type ≡ true

abbrev pub unlocks_after : Event → ℕ → ℕ
unlocks_after unlocking n = suc n
unlocks_after (locking mem h) n = n
unlocks_after (performing mem before t after) n = n
unlocks_after (emitting slot type) n = n

-- The states that allowed events lead to, with the number of unlocks.
pub data LinkedRun (at : Ptr) (dx : ℕ) : Linked → ℕ → Type 0 where
  start : LinkedRun at dx (make at dx) 0
  event :
      {m : Linked} {n : ℕ}
      → LinkedRun at dx m n
      → (e : Event) → Allowed n m e
      → {t : Linked} → exec e m ≡ some t
      → LinkedRun at dx t (unlocks_after e n)
