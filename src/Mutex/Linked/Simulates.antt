-- ===== src/Mutex/Linked/Simulates.antt =====
-- The mutex with its semaphore in memory does what the mutex over the semaphore's promise does.
use asio_experiments.Prelude.{
  ◌≤◌, ◌+◌, ℕ, ◌≡◌, ◌<◌, refl, sym, ◌∙◌, subst, some_inj, inl, inr, true, false, some, List, [],
  ◌∷◌, ◌++◌, append-nil, arith,
}
use asio_experiments.Prelude.Int.{int_max, is_int_max}
use asio_experiments.ErrorCode.{success}
use asio_experiments.Bilist.Heap.{Ptr}
use asio_experiments.Semaphore
use asio_experiments.Semaphore.{cancels, release, async_acquire, emit}
use asio_experiments.Semaphore.State.{Handler}
use asio_experiments.Semaphore.Spec
use asio_experiments.Semaphore.Spec.{Spec}
use asio_experiments.Semaphore.Abs.{Yields-unchanged}
use asio_experiments.Semaphore.Release.{release_refines}
use asio_experiments.Semaphore.Cancel.{emit_refines}
use asio_experiments.Semaphore.Make.{make-Abs}
use asio_experiments.Mutex
use asio_experiments.Mutex.{Mutex, Task, resume, finish, resumption, with_semaphore, lock_op}
use asio_experiments.Mutex.Exclusion.{Run, locks}
use asio_experiments.Mutex.Linked.{
  Linked, make, unlock, perform, Event, locking, unlocking, performing, emitting, exec, Allowed,
  HasRoom, HasRoomFor, unlocks_after, LinkedRun, start, event,
}
use asio_experiments.Mutex.Linked.Stands.{
  Stands, Leaves, calls-Leaves, set_locked, set_ready, completing, Leaves-eq, enter-Leaves,
}

-- What the event `e` leads to, for a mutex that stands for one that can be reached.
pub record Implements (dx : ℕ) (c : Linked) (n : ℕ) : Type 0 where
  pub mutex : Mutex
  pub reached : Run dx mutex n
  pub stands : Stands c mutex

-- The event does not fault, and what it leaves implements the mutex over the promise.
pub record Simulates (dx n : ℕ) (c : Linked) (e : Event) : Type 0 where
  pub final : Linked
  pub runs : exec e c ≡ some final
  pub implements : Implements dx final (unlocks_after e n)

simulate :
    {dx n : ℕ} {c : Linked} (e : Event) (m : Mutex)
    → Leaves (exec e c) m
    → Run dx m (unlocks_after e n)
    → Simulates dx n c e
simulate e m (t, r, v) run = record {
  final = t;
  runs = r;
  implements = record { mutex = m; reached = run; stands = v };
}

same : (m : Mutex) → m.semaphore.posted ≡ [] → m ≡ with_semaphore m m.semaphore
same m e = ground (arith, append-nil m.ready)

module _ (dx : ℕ) (c : Linked) (n : ℕ) (i : Implements dx c n) where
  open i use {mutex, reached, stands}

  locking-Simulates : (mem : Ptr) (h : Handler) → HasRoom c mem h → Simulates dx n c (locking mem h)
  unfolding exec Mutex.async_lock
  locking-Simulates mem h room =
      simulate (locking mem h) (Mutex.async_lock h mutex)
        (enter-Leaves mem h false success c mutex stands room) (Run.locking reached h)

  unlocking-Simulates :
      n < locks c.completed → is_int_max c.semaphore.count ≡ false → Simulates dx n c unlocking
  unfolding exec unlock Mutex.unlock
  unlocking-Simulates held small =
      let room : mutex.semaphore.count < int_max =
        ground (arith, stands.semaphore.count, small, stands.bounded) in
      let few : locks c.completed ≤ locks mutex.completed + mutex.tried =
        ground (arith, stands.completed_same) in
      simulate unlocking (Mutex.unlock mutex)
        (calls-Leaves release (record c { locked = false }) (record mutex { locked = false }) tt _
          (set_locked c mutex stands false)
          (omega (arith, room, Spec.count-release mutex.semaphore))
          (release_refines c.semaphore stands.nodes mutex.semaphore stands.semaphore room))
        (Run.unlocking reached (ground (arith, held, stands.completed_same, few)))

  performing-Simulates :
      (mem : Ptr) (before : List Task) (t : Task) (after : List Task)
      → c.ready ≡ before ++ (t ∷ after)
      → HasRoomFor c mem t
      → Simulates dx n c (performing mem before t after)
  unfolding exec perform Mutex.perform
  performing-Simulates mem before (resume h ec) after e room =
      simulate (performing mem before (resume h ec) after)
        (Mutex.perform (resume h ec) (record mutex { ready = before ++ after }))
        (enter-Leaves mem h true ec _ _
          (set_ready c mutex stands (before ++ after) (before ++ after) refl) room)
        (Run.performing reached before (resume h ec) after (sym stands.ready_same ∙ e))
  performing-Simulates mem before (finish h) after e room =
      simulate (performing mem before (finish h) after)
        (Mutex.perform (finish h) (record mutex { ready = before ++ after }))
        (
          _,
          refl,
          completing _ _ (set_ready c mutex stands (before ++ after) (before ++ after) refl) h
              success,
        )
        (Run.performing reached before (finish h) after (sym stands.ready_same ∙ e))

  emitting-Simulates : (slot type : ℕ) → cancels type ≡ true → Simulates dx n c (emitting slot type)
  unfolding exec Mutex.cancel
  emitting-Simulates slot type ok =
      elim (emit_refines c.semaphore stands.nodes mutex.semaphore slot type stands.semaphore ok) [
        | inl x ↦
            simulate (emitting slot type) (Mutex.cancel x.before x.op x.behind mutex)
              (calls-Leaves (emit slot type) c mutex tt
                (Spec.abort x.before x.op x.behind mutex.semaphore) stands
                (omega
                  (arith, stands.bounded, Spec.count-abort x.before x.op x.behind mutex.semaphore))
                x.yields)
              (Run.cancelling reached x.before x.op x.behind x.waiting x.slot)
        | inr x ↦
            simulate (emitting slot type) mutex
              (Leaves-eq refl (same mutex stands.drained) (
                calls-Leaves (emit slot type) c mutex tt mutex.semaphore stands stands.bounded (
                  Yields-unchanged (emit slot type) c.semaphore stands.nodes mutex.semaphore tt
                    stands.semaphore x.0)))
              reached
      ]

exec-Simulates :
    (dx : ℕ) (c : Linked) (n : ℕ) (e : Event)
    → Implements dx c n
    → Allowed n c e
    → Simulates dx n c e
exec-Simulates dx c n (locking mem h) i room = locking-Simulates dx c n i mem h room
exec-Simulates dx c n unlocking i (held, small) = unlocking-Simulates dx c n i held small
exec-Simulates dx c n (performing mem before t after) i (e, room) =
    performing-Simulates dx c n i mem before t after e room
exec-Simulates dx c n (emitting slot type) i ok = emitting-Simulates dx c n i slot type ok

make-Implements : (at dx : ℕ) → Implements dx (make at dx) 0
unfolding make Mutex.make Semaphore.make
make-Implements at dx = record {
  mutex = Mutex.make at dx;
  reached = Run.start at;
  stands = record {
    nodes = [];
    semaphore = make-Abs at dx 1;
    drained = refl;
    bounded = omega arith;
    host_same = refl;
    exec_same = refl;
    locked_same = refl;
    ready_same = refl;
    completed_same = refl;
  };
}

pub LinkedRun-Implements : {at dx n : ℕ} {c : Linked} → LinkedRun at dx c n → Implements dx c n
LinkedRun-Implements {at} {dx} start = make-Implements at dx
LinkedRun-Implements {dx = dx} (event {m} {n} r e ok {t} x) =
    let s = exec-Simulates dx m n e (LinkedRun-Implements r) ok in
    subst (λ (c : Linked). Implements dx c (unlocks_after e n)) (some_inj _ _ (sym s.runs ∙ x))
      s.implements

-- After any allowed events, a further one runs without a fault in the semaphore, though its
-- operations are linked in memory, and leaves a mutex that stands for one which lock operations,
-- unlocks, tasks and cancellations on the semaphore's promise can reach: with the same flag, tasks and
-- completions, and with the same operations waiting.
pub linked-Simulates :
    {at dx n : ℕ} {c : Linked}
    → LinkedRun at dx c n
    → (e : Event) → Allowed n c e
    → Simulates dx n c e
linked-Simulates {dx = dx} {n = n} {c = c} r e ok =
    exec-Simulates dx c n e (LinkedRun-Implements r) ok
