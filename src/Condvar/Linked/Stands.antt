-- ===== src/Condvar/Linked/Stands.antt =====
-- When a condition variable with its semaphore in memory stands for one over the semaphore's
-- promise, and what calls of the semaphore and the bodies of `async_wait` do then.
use asio_experiments.Prelude.{
  ◌≤◌, ◌≡◌, refl, sym, ap, ◌∙◌, subst, inl, inr, Bool, true, false, Bool-cases, Option, some, List,
  [], ◌∷◌, ◌++◌, arith,
}
use asio_experiments.Prelude.Int.{int_max}
use asio_experiments.ErrorCode.{ErrorCode, failed}
use asio_experiments.Bilist.Heap.{Ptr}
use asio_experiments.Semaphore.{async_acquire}
use asio_experiments.Semaphore.State.{WaitOp, Handler, M}
use asio_experiments.Semaphore.Spec
use asio_experiments.Semaphore.Spec.{Spec}
use asio_experiments.Semaphore.Abs.{Abs, Yields, hand_over-Abs}
use asio_experiments.Semaphore.Acquire.{op_of, async_acquire_refines}
use asio_experiments.Condvar
use asio_experiments.Condvar.{Condvar, Task, finish, resumption, with_semaphore, wait_op, acquire}
use asio_experiments.Condvar.Linked.{Linked, hand_over, calls, complete, enter, HasRoom}

-- `c` stands for the condition variable `m` over the promise.
pub record Stands (c : Linked) (m : Condvar) : Type 0 where
  pub nodes : List Ptr
  pub semaphore : Abs c.semaphore nodes m.semaphore
  pub bounded : m.semaphore.count ≤ int_max
  pub drained : m.semaphore.posted ≡ []
  pub host_same : c.semaphore.waiters ≡ m.host
  pub exec_same : c.semaphore.exec ≡ m.exec
  pub ready_same : c.ready ≡ m.ready
  pub completed_same : c.completed ≡ m.completed

-- A step in memory does not fault and leaves what stands for `m`.
abbrev pub Leaves : Option Linked → Condvar → Type 0
Leaves result m = (t : Linked) × (result ≡ some t) × Stands t m

pub Leaves-eq :
    {result result' : Option Linked} {m m' : Condvar}
    → result ≡ result'
    → m ≡ m'
    → Leaves result' m'
    → Leaves result m
Leaves-eq e e' (t, r, v) = (t, e ∙ r, subst (Stands t) (sym e') v)

-- A call of the semaphore that keeps its promise.
pub calls-Leaves :
    {B : Type 0} (k : M B) (c : Linked) (m : Condvar) (b : B) (a : Spec)
    → Stands c m
    → a.count ≤ int_max
    → Yields k c.semaphore b a
    → Leaves (calls k c) (with_semaphore m a)
calls-Leaves k c m b a v bounded y = (
  hand_over c y.final,
  ground (arith, y.runs),
  record {
    nodes = y.nodes;
    semaphore = hand_over-Abs y.final y.nodes a y.stands;
    bounded = bounded;
    drained = refl;
    host_same = y.head_same ∙ v.host_same;
    exec_same = y.exec_same ∙ v.exec_same;
    ready_same = ground (arith, v.ready_same, y.stands.posted);
    completed_same = v.completed_same;
  },
)

-- The fields beside the semaphore change.
module _ (c : Linked) (m : Condvar) (v : Stands c m) where
  pub set_ready :
      (xs ys : List Task) → xs ≡ ys → Stands (record c { ready = xs }) (record m { ready = ys })
  set_ready xs ys e = record {
    nodes = v.nodes;
    semaphore = v.semaphore;
    bounded = v.bounded;
    drained = v.drained;
    host_same = v.host_same;
    exec_same = v.exec_same;
    ready_same = e;
    completed_same = v.completed_same;
  }

  pub completing :
      (h : Handler) (ec : ErrorCode) → Stands (complete h ec c) (Condvar.complete h ec m)
  completing h ec = record {
    nodes = v.nodes;
    semaphore = v.semaphore;
    bounded = v.bounded;
    drained = v.drained;
    host_same = v.host_same;
    exec_same = v.exec_same;
    ready_same = v.ready_same;
    completed_same = ap (λ l. l ++ ((h, ec) ∷ [])) v.completed_same;
  }

pub acquire-Leaves :
    (mem : Ptr) (h : Handler) (c : Linked) (m : Condvar)
    → Stands c m
    → HasRoom c mem h
    → Leaves (calls (async_acquire (some mem) h) c) (acquire h m)
acquire-Leaves mem h c m v room =
    let op : op_of c.semaphore h ≡ wait_op m h = ground (arith, v.host_same, v.exec_same) in
    subst
      (λ (w : WaitOp).
        Leaves (calls (async_acquire (some mem) h) c)
          (with_semaphore m (Spec.acquire w m.semaphore)))
      op
      (calls-Leaves (async_acquire (some mem) h) c m _ _ v
        (omega (arith, v.bounded, Spec.count-acquire (op_of c.semaphore h) m.semaphore))
        (async_acquire_refines c.semaphore v.nodes m.semaphore mem h v.semaphore room.0 room.1))

pub enter-Leaves :
    (mem : Ptr) (holds : Bool) (h : Handler) (d : Bool) (ec : ErrorCode) (c : Linked) (m : Condvar)
    → Stands c m
    → HasRoom c mem h
    → Leaves (enter mem holds h d ec c) (Condvar.enter holds h d ec m)
unfolding enter Condvar.enter
enter-Leaves mem false h d ec c m v room = elim (Bool-cases (failed ec)) [
  | inl e ↦
      Leaves-eq (ground (arith, e)) (ground (arith, e))
        (complete h ec c, refl, completing c m v h ec)
  | inr e ↦ Leaves-eq (ground (arith, e)) (ground (arith, e)) (acquire-Leaves mem h c m v room)
]
enter-Leaves mem true h true ec c m v room =
    Leaves-eq (ground arith) (ground arith) (complete h ec c, refl, completing c m v h ec)
enter-Leaves mem true h false ec c m v room = elim (Bool-cases (failed ec)) [
  | inl e ↦
      Leaves-eq (ground (arith, e)) (ground (arith, e))
        (complete h ec c, refl, completing c m v h ec)
  | inr e ↦ Leaves-eq (ground (arith, e)) (ground (arith, e)) (
    _,
    refl,
    set_ready c m v (c.ready ++ (finish h ∷ [])) (m.ready ++ (finish h ∷ []))
        (ap (λ l. l ++ (finish h ∷ [])) v.ready_same),
  )
]
