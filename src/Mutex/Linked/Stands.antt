-- ===== src/Mutex/Linked/Stands.antt =====
-- When a mutex with its semaphore in memory stands for one over the semaphore's promise, and what
-- calls of the semaphore and the body of `async_lock` do then.
use asio_experiments.Prelude.{
  ℕ, ◌≡◌, ◌≤◌, refl, sym, ap, ◌∙◌, subst, inl, inr, Bool, true, false, Bool-cases, Option, none,
  some, List, [], ◌∷◌, ◌++◌, arith,
}
use asio_experiments.Prelude.Int.{int_max}
use asio_experiments.ErrorCode.{ErrorCode, failed}
use asio_experiments.Bilist.Heap.{Ptr}
use asio_experiments.Semaphore.{async_acquire}
use asio_experiments.Semaphore.State.{WaitOp, Handler, M}
use asio_experiments.Semaphore.Spec
use asio_experiments.Semaphore.Spec.{Spec}
use asio_experiments.Semaphore.Abs.{Abs, Yields, hand_over-Abs}
use asio_experiments.Semaphore.Acquire.{op_of, async_acquire_refines}
use asio_experiments.Mutex
use asio_experiments.Mutex.{Mutex, Task, resume, finish, resumption, with_semaphore, lock_op}
use asio_experiments.Mutex.Linked.{Linked, hand_over, calls, complete, enter, HasRoom}

-- `c` stands for the mutex `m` over the promise.
pub record Stands (c : Linked) (m : Mutex) : Type 0 where
  pub nodes : List Ptr
  pub semaphore : Abs c.semaphore nodes m.semaphore
  pub drained : m.semaphore.posted ≡ []
  pub bounded : m.semaphore.count ≤ int_max
  pub host_same : c.semaphore.waiters ≡ m.host
  pub exec_same : c.semaphore.exec ≡ m.exec
  pub locked_same : c.locked ≡ m.locked
  pub ready_same : c.ready ≡ m.ready
  pub completed_same : c.completed ≡ m.completed

-- A step of the mutex in memory does not fault and leaves one that stands for `m`.
abbrev pub Leaves : Option Linked → Mutex → Type 0
Leaves result m = (t : Linked) × (result ≡ some t) × Stands t m

-- A call of the semaphore that keeps its promise.
pub calls-Leaves :
    {B : Type 0} (k : M B) (c : Linked) (m : Mutex) (b : B) (a : Spec)
    → Stands c m
    → a.count ≤ int_max
    → Yields k c.semaphore b a
    → Leaves (calls k c) (with_semaphore m a)
calls-Leaves k c m b a v bounded y = (
  hand_over c y.final,
  ground (arith, y.runs),
  record {
    nodes = y.nodes;
    semaphore = hand_over-Abs y.final y.nodes a y.stands;
    drained = refl;
    bounded = bounded;
    host_same = y.head_same ∙ v.host_same;
    exec_same = y.exec_same ∙ v.exec_same;
    locked_same = v.locked_same;
    ready_same = ground (arith, v.ready_same, y.stands.posted);
    completed_same = v.completed_same;
  },
)

-- The fields beside the semaphore change.
module _ (c : Linked) (m : Mutex) (v : Stands c m) where
  pub set_locked : (b : Bool) → Stands (record c { locked = b }) (record m { locked = b })
  set_locked b = record {
    nodes = v.nodes;
    semaphore = v.semaphore;
    drained = v.drained;
    bounded = v.bounded;
    host_same = v.host_same;
    exec_same = v.exec_same;
    locked_same = refl;
    ready_same = v.ready_same;
    completed_same = v.completed_same;
  }

  pub set_ready :
      (xs ys : List Task) → xs ≡ ys → Stands (record c { ready = xs }) (record m { ready = ys })
  set_ready xs ys e = record {
    nodes = v.nodes;
    semaphore = v.semaphore;
    drained = v.drained;
    bounded = v.bounded;
    host_same = v.host_same;
    exec_same = v.exec_same;
    locked_same = v.locked_same;
    ready_same = e;
    completed_same = v.completed_same;
  }

  pub completing : (h : Handler) (ec : ErrorCode) → Stands (complete h ec c) (Mutex.complete h ec m)
  completing h ec = record {
    nodes = v.nodes;
    semaphore = v.semaphore;
    drained = v.drained;
    bounded = v.bounded;
    host_same = v.host_same;
    exec_same = v.exec_same;
    locked_same = v.locked_same;
    ready_same = v.ready_same;
    completed_same = ap (λ l. l ++ ((h, ec) ∷ [])) v.completed_same;
  }

acquire-Leaves :
    (mem : Ptr) (h : Handler) (c : Linked) (m : Mutex)
    → Stands c m
    → c.semaphore.heap.next mem ≡ none
    → ((k : ℕ) → h.slot ≡ some k → c.semaphore.slots k ≡ none)
    → Leaves
        (calls (async_acquire (some mem) h) c)
        (with_semaphore m (Spec.acquire (lock_op m h) m.semaphore))
acquire-Leaves mem h c m v unused slot =
    let op : op_of c.semaphore h ≡ lock_op m h = ground (arith, v.host_same, v.exec_same) in
    subst
      (λ (w : WaitOp).
        Leaves (calls (async_acquire (some mem) h) c)
          (with_semaphore m (Spec.acquire w m.semaphore)))
      op
      (calls-Leaves (async_acquire (some mem) h) c m _ _ v
        (omega (arith, v.bounded, Spec.count-acquire (op_of c.semaphore h) m.semaphore))
        (async_acquire_refines c.semaphore v.nodes m.semaphore mem h v.semaphore unused slot))

pub Leaves-eq :
    {result result' : Option Linked} {m m' : Mutex}
    → result ≡ result'
    → m ≡ m'
    → Leaves result' m'
    → Leaves result m
Leaves-eq {result} {result'} {m} {m'} e e' (t, r, v) = (t, e ∙ r, subst (Stands t) (sym e') v)

pub enter-Leaves :
    (mem : Ptr) (h : Handler) (d : Bool) (ec : ErrorCode) (c : Linked) (m : Mutex)
    → Stands c m
    → HasRoom c mem h
    → Leaves (enter mem h d ec c) (Mutex.enter h d ec m)
unfolding enter Mutex.enter
enter-Leaves mem h d ec c m v room = elim (Bool-cases (failed ec)) [
  | inl e ↦
      Leaves-eq (ground (arith, e)) (ground (arith, e))
        (complete h ec c, refl, completing c m v h ec)
  | inr e ↦ elim (Bool-cases c.locked) [
    | inl l ↦
        let l' : m.locked ≡ true = sym v.locked_same ∙ l in
        let ok = room l in
        Leaves-eq (ground (arith, e, l)) (ground (arith, e, l'))
          (acquire-Leaves mem h c m v ok.0 ok.1)
    | inr l ↦
        let l' : m.locked ≡ false = sym v.locked_same ∙ l in
        let now = set_locked c m v true in
        elim (Bool-cases d) [
          | inl s ↦
              Leaves-eq (ground (arith, e, l, s)) (ground (arith, e, l', s))
                (_, refl, completing _ _ now h ec)
          | inr s ↦ Leaves-eq (ground (arith, e, l, s)) (ground (arith, e, l', s)) (
            _,
            refl,
            set_ready _ _ now (c.ready ++ (finish h ∷ [])) (m.ready ++ (finish h ∷ []))
                (ap (λ l. l ++ (finish h ∷ [])) v.ready_same),
          )
        ]
  ]
]
