-- ===== src/Condvar/Linked/Simulates.antt =====
-- The condition variable with its semaphore in memory does what the one over the semaphore's promise
-- does.
use asio_experiments.Prelude.{
  ℕ, ◌≡◌, ◌<◌, refl, sym, ◌∙◌, subst, some_inj, inl, inr, Bool, true, false, Option, Option-cases,
  some, [], ◌++◌, append-nil, length, arith,
}
use asio_experiments.Prelude.Int.{int_max, is_int_max}
use asio_experiments.ErrorCode.{success}
use asio_experiments.Bilist.Heap.{Ptr}
use asio_experiments.Semaphore
use asio_experiments.Semaphore.{cancels, release, release_all, emit}
use asio_experiments.Semaphore.State.{Handler}
use asio_experiments.Semaphore.Spec
use asio_experiments.Semaphore.Abs.{Items-length, Yields-unchanged}
use asio_experiments.Semaphore.Release.{release_refines}
use asio_experiments.Semaphore.Drain.{release_all_refines}
use asio_experiments.Semaphore.Cancel.{emit_refines}
use asio_experiments.Semaphore.Make.{make-Abs}
use asio_experiments.Condvar
use asio_experiments.Condvar.{Condvar, Task, resume, finish, with_semaphore}
use asio_experiments.Condvar.Notify.{Run}
use asio_experiments.Condvar.Linked.{
  Linked, make, async_wait, notify_one, notify_all, HasRoom, HasRoomFor, Event, waiting,
  notifying_one, notifying_all, performing, emitting, Allowed, begin_wait, perform, exec, LinkedRun,
  start, event,
}
use asio_experiments.Condvar.Linked.Stands.{
  Stands, Leaves, Leaves-eq, calls-Leaves, set_ready, completing, acquire-Leaves, enter-Leaves,
}

-- A call that completes nothing posts nothing.
same : (m : Condvar) → m.semaphore.posted ≡ [] → m ≡ with_semaphore m m.semaphore
same m e = ground (arith, append-nil m.ready)

module _ {W : Type 0} (predicate : Handler → Option (W → Bool)) where
  -- `c` stands for a condition variable that can be reached, with the counts of the notifications.
  pub record Implements (dx : ℕ) (c : Linked) : Type 0 where
    pub condvar : Condvar
    pub ones : ℕ
    pub found : ℕ
    pub woken : ℕ
    pub reached : Run predicate dx condvar ones found woken
    pub stands : Stands c condvar

  -- The event does not fault, and what it leaves implements the condition variable over the promise.
  pub record Simulates (dx : ℕ) (c : Linked) (e : Event W) : Type 0 where
    pub final : Linked
    pub runs : exec predicate e c ≡ some final
    pub implements : Implements dx final

  simulate :
      {dx : ℕ} {c : Linked} (e : Event W) (m : Condvar) {n k w : ℕ}
      → Leaves (exec predicate e c) m
      → Run predicate dx m n k w
      → Simulates dx c e
  simulate e m {n} {k} {w} (t, r, v) run = record {
    final = t;
    runs = r;
    implements = record { condvar = m; ones = n; found = k; woken = w; reached = run; stands = v };
  }

  begin-Leaves :
      (mem : Ptr) (h : Handler) (world : W) (c : Linked) (m : Condvar)
      → Stands c m
      → HasRoom c mem h
      → Leaves (begin_wait predicate mem h world c) (Condvar.begin_wait predicate h world m)
  unfolding begin_wait Condvar.begin_wait async_wait Condvar.async_wait
  begin-Leaves mem h world c m v room = elim (Option-cases (predicate h)) [
    | inl e ↦ rw (e, begin_wait, Condvar.begin_wait) (acquire-Leaves mem h c m v room)
    | inr (q, e) ↦
        rw (e, begin_wait, Condvar.begin_wait)
          (enter-Leaves mem (q world) h false success c m v room)
  ]

  perform-Leaves :
      (mem : Ptr) (t : Task) (world : W) (c : Linked) (m : Condvar)
      → Stands c m
      → HasRoomFor c mem t
      → Leaves (perform predicate mem t world c) (Condvar.perform predicate t world m)
  unfolding perform Condvar.perform
  perform-Leaves mem (finish h) world c m v room = (_, refl, completing c m v h success)
  perform-Leaves mem (resume h ec) world c m v room = elim (Option-cases (predicate h)) [
    | inl e ↦ rw (e, perform, Condvar.perform) (_, refl, completing c m v h ec)
    | inr (q, e) ↦
        rw (e, perform, Condvar.perform) (enter-Leaves mem (q world) h true ec c m v room)
  ]

  module _ (dx : ℕ) (c : Linked) (i : Implements dx c) where
    open i use {condvar, reached, stands}

    notifying_one-Simulates : is_int_max c.semaphore.count ≡ false → Simulates dx c notifying_one
    unfolding exec notify_one Condvar.notify_one
    notifying_one-Simulates small =
        let room : condvar.semaphore.count < int_max =
          ground (arith, stands.semaphore.count, small, stands.bounded) in
        simulate notifying_one (Condvar.notify_one condvar)
          (calls-Leaves release c condvar tt _ stands
            (omega (arith, room, Spec.count-release condvar.semaphore))
            (release_refines c.semaphore stands.nodes condvar.semaphore stands.semaphore room))
          (Run.notifying_one reached)

    notifying_all-Simulates :
        (fuel : ℕ) → Allowed {W = W} c (notifying_all fuel) → Simulates dx c (notifying_all fuel)
    unfolding exec notify_all Condvar.notify_all
    notifying_all-Simulates fuel enough =
        let rounds : length condvar.semaphore.waiting < fuel = omega (
          arith,
          enough stands.nodes stands.semaphore.queue.ring,
          Items-length c.semaphore.heap stands.nodes condvar.semaphore.waiting
              stands.semaphore.queue.items,
        ) in
        simulate (notifying_all fuel) (Condvar.notify_all condvar)
          (calls-Leaves (release_all fuel) c condvar _ (Spec.complete_all success condvar.semaphore)
            stands
            (omega (arith, stands.bounded, Spec.count-complete_all success condvar.semaphore))
            (release_all_refines c.semaphore stands.nodes condvar.semaphore fuel stands.semaphore
              rounds))
          (Run.notifying_all reached)

    emitting-Simulates : (slot type : ℕ) → cancels type ≡ true → Simulates dx c (emitting slot type)
    unfolding exec Condvar.cancel
    emitting-Simulates slot type ok =
        elim (emit_refines c.semaphore stands.nodes condvar.semaphore slot type stands.semaphore
          ok) [
            | inl x ↦
                simulate (emitting slot type) (Condvar.cancel x.before x.op x.behind condvar)
                  (calls-Leaves (emit slot type) c condvar tt
                    (Spec.abort x.before x.op x.behind condvar.semaphore) stands
                    (omega (
                      arith,
                      stands.bounded,
                      Spec.count-abort x.before x.op x.behind condvar.semaphore,
                    ))
                    x.yields)
                  (Run.cancelling reached x.before x.op x.behind x.waiting)
            | inr x ↦
                simulate (emitting slot type) condvar
                  (Leaves-eq refl (same condvar stands.drained) (
                    calls-Leaves (emit slot type) c condvar tt condvar.semaphore stands
                      stands.bounded
                      (Yields-unchanged (emit slot type) c.semaphore stands.nodes condvar.semaphore
                        tt stands.semaphore x.0)))
                  reached
          ]

  exec-Simulates :
      (dx : ℕ) (c : Linked) (e : Event W) → Implements dx c → Allowed c e → Simulates dx c e
  unfolding exec
  exec-Simulates dx c (waiting mem h world) i room =
      simulate (waiting mem h world) (Condvar.begin_wait predicate h world i.condvar)
        (begin-Leaves mem h world c i.condvar i.stands room) (Run.waiting i.reached h world)
  exec-Simulates dx c notifying_one i small = notifying_one-Simulates dx c i small
  exec-Simulates dx c (notifying_all fuel) i enough = notifying_all-Simulates dx c i fuel enough
  exec-Simulates dx c (performing mem world before t after) i (e, room) =
      simulate (performing mem world before t after)
        (Condvar.perform predicate t world (record i.condvar { ready = before ++ after }))
        (perform-Leaves mem t world _ _
          (set_ready c i.condvar i.stands (before ++ after) (before ++ after) refl) room)
        (Run.performing i.reached world before t after (sym i.stands.ready_same ∙ e))
  exec-Simulates dx c (emitting slot type) i ok = emitting-Simulates dx c i slot type ok

  make-Implements : (at dx : ℕ) → Implements dx (make at dx)
  unfolding make Condvar.make Semaphore.make
  make-Implements at dx = record {
    condvar = Condvar.make at dx;
    ones = 0;
    found = 0;
    woken = 0;
    reached = Run.start at;
    stands = record {
      nodes = [];
      semaphore = make-Abs at dx 0;
      bounded = omega arith;
      drained = refl;
      host_same = refl;
      exec_same = refl;
      ready_same = refl;
      completed_same = refl;
    };
  }

  LinkedRun-Implements : {at dx : ℕ} {c : Linked} → LinkedRun predicate at dx c → Implements dx c
  LinkedRun-Implements {at} {dx} start = make-Implements at dx
  LinkedRun-Implements {dx = dx} (event {cv} r e ok {t} x) =
      let s = exec-Simulates dx cv e (LinkedRun-Implements r) ok in
      subst (Implements dx) (some_inj _ _ (sym s.runs ∙ x)) s.implements

  -- After any allowed events, a further one runs without a fault in the semaphore, though its
  -- operations are linked in memory, and leaves a condition variable that stands for one which waits,
  -- notifications, tasks and cancellations on the semaphore's promise can reach: with the same tasks,
  -- completions and stored notifications, and with the same operations waiting.
  pub linked_condvar-Simulates :
      {at dx : ℕ} {c : Linked}
      → LinkedRun predicate at dx c
      → (e : Event W) → Allowed c e
      → Simulates dx c e
  linked_condvar-Simulates {dx = dx} {c = c} r e ok =
      exec-Simulates dx c e (LinkedRun-Implements r) ok
