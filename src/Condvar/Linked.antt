-- ===== src/Condvar/Linked.antt =====
-- include/asioex/condition_variable.hpp on include/asioex/impl/async_semaphore_base.hpp: the condition
-- variable with its semaphore in memory.
pub mod Stands
pub mod Simulates
mod Tests
use asio_experiments.Prelude.{
  ℕ, ◌≡◌, ◌<◌, Bool, true, false, Option, none, some, List, [], ◌∷◌, ◌++◌, map, length,
  if◌then◌else◌,
}
use asio_experiments.Prelude.Int.{pos, is_int_max}
use asio_experiments.ErrorCode.{ErrorCode, success, failed}
use asio_experiments.Bilist.Heap.{Ptr}
use asio_experiments.Bilist.Ring.{Ring}
use asio_experiments.Semaphore
use asio_experiments.Semaphore.{cancels, release, release_all, async_acquire, emit}
use asio_experiments.Semaphore.State.{Handler, Semaphore, M}
use asio_experiments.Condvar.{Task, resume, finish, resumption}

pub record Linked : Type 0 where
  pub semaphore : Semaphore
  pub ready : List Task
  pub completed : List (Handler × ErrorCode)

-- `basic_condition_variable(exec)`, with its semaphore at the address `at`.
unfoldable pub make : Ptr → ℕ → Linked
make at exec = record { semaphore = Semaphore.make at exec (pos 0); ready = []; completed = [] }

-- What the semaphore has posted goes to the executors.
abbrev pub hand_over : Linked → Semaphore → Linked
hand_over cv s = record cv {
  semaphore = record s { posted = [] };
  ready = cv.ready ++ map resumption s.posted;
}

-- A call of the semaphore; `none` is a fault of it.
abbrev pub calls : {B : Type 0} → M B → Linked → Option Linked
calls c cv = elim (c cv.semaphore) [ none ↦ none | some (b, s) ↦ some (hand_over cv s) ]

abbrev pub complete : Handler → ErrorCode → Linked → Linked
complete h ec cv = record cv { completed = cv.completed ++ ((h, ec) ∷ []) }

-- `async_wait` without a predicate; `mem` is the storage of the semaphore's operation.
unfoldable pub async_wait : Ptr → Handler → Linked → Option Linked
async_wait mem h cv = calls (async_acquire (some mem) h) cv

-- The body of `async_wait` with a predicate, which is `holds` at this time.
unfoldable pub enter : Ptr → Bool → Handler → Bool → ErrorCode → Linked → Option Linked
enter mem holds h did_suspend ec cv =
    if failed ec
    then some (complete h ec cv)
    else if holds
    then (if did_suspend
        then some (complete h ec cv)
        else some (record cv { ready = cv.ready ++ (finish h ∷ []) }))
    else calls (async_acquire (some mem) h) cv

unfoldable pub notify_one : Linked → Option Linked
notify_one cv = calls release cv

unfoldable pub notify_all : ℕ → Linked → Option Linked
notify_all fuel cv = calls (release_all fuel) cv

-- The allocator returns unused storage, and the handler's slot is not in use.
abbrev pub HasRoom : Linked → Ptr → Handler → Type 0
HasRoom cv mem h =
    (cv.semaphore.heap.next mem ≡ none) × ((k : ℕ) → h.slot ≡ some k → cv.semaphore.slots k ≡ none)

abbrev pub HasRoomFor : Linked → Ptr → Task → Type 0
HasRoomFor cv mem (resume h ec) = HasRoom cv mem h
HasRoomFor cv mem (finish h) = Unit {0}

-- What happens to a condition variable: both kinds of `async_wait`, `notify_one`, `notify_all`, an
-- executor that runs one of the tasks, and a signal to a cancellation slot.
pub data Event (W : Type 0) : Type 0 where
  waiting : (mem : Ptr) → Handler → W → Event W
  notifying_one : Event W
  notifying_all : (fuel : ℕ) → Event W
  performing : (mem : Ptr) → W → List Task → Task → List Task → Event W
  emitting : (slot type : ℕ) → Event W

-- What the users see to: a wait has room, also where it goes on; a notification is not stored at the
-- largest `int`, `notify_all` has more rounds than there are nodes, a task that runs is one that is
-- ready, and signals are of a type that the semaphore supports.
abbrev pub Allowed : {W : Type 0} → Linked → Event W → Type 0
Allowed cv (waiting mem h world) = HasRoom cv mem h
Allowed cv notifying_one = is_int_max cv.semaphore.count ≡ false
Allowed cv (notifying_all fuel) =
    (ps : List Ptr) → Ring cv.semaphore.heap cv.semaphore.waiters ps → length ps < fuel
Allowed cv (performing mem world before t after) =
    (cv.ready ≡ before ++ (t ∷ after)) × HasRoomFor cv mem t
Allowed cv (emitting slot type) = cancels type ≡ true

-- `W` is what the predicates look at.
module _ {W : Type 0} (predicate : Handler → Option (W → Bool)) where
  unfoldable pub begin_wait : Ptr → Handler → W → Linked → Option Linked
  begin_wait mem h world cv = elim (predicate h) [
    | none ↦ async_wait mem h cv
    | some p ↦ enter mem (p world) h false success cv
  ]

  -- An executor runs a task.
  unfoldable pub perform : Ptr → Task → W → Linked → Option Linked
  perform mem (resume h ec) world cv = elim (predicate h) [
    | none ↦ some (complete h ec cv)
    | some p ↦ enter mem (p world) h true ec cv
  ]
  perform mem (finish h) world cv = some (complete h success cv)

  unfoldable pub exec : Event W → Linked → Option Linked
  unfolding notify_one notify_all begin_wait perform
  exec (waiting mem h world) cv = begin_wait mem h world cv
  exec notifying_one cv = notify_one cv
  exec (notifying_all fuel) cv = notify_all fuel cv
  exec (performing mem world before t after) cv =
      perform mem t world (record cv { ready = before ++ after })
  exec (emitting slot type) cv = calls (emit slot type) cv

  -- The states that allowed events lead to.
  pub data LinkedRun (at : Ptr) (dx : ℕ) : Linked → Type 0 where
    start : LinkedRun at dx (make at dx)
    event :
        {cv : Linked}
        → LinkedRun at dx cv
        → (e : Event W) → Allowed cv e
        → {t : Linked} → exec e cv ≡ some t
        → LinkedRun at dx t
