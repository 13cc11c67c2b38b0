-- ===== src/Semaphore/Acquire.antt =====
-- `async_acquire`, `try_acquire` and `value`.
use asio_experiments.Prelude.{
  ℕ, zero, suc, ◌≤◌, ◌<◌, ◌≡◌, refl, ap, false, none, some, List, [], ◌∷◌, ◌++◌, arith, has,
  has-append, length, append-nil,
}
use asio_experiments.Prelude.Int.{pos, int_max, to_int-eq_of_le}
use asio_experiments.ErrorCode.{ErrorCode}
use asio_experiments.Bilist.{init, link_before}
use asio_experiments.Bilist.Heap.{Ptr, Heap, update}
use asio_experiments.Bilist.Chain.{Chain-live}
use asio_experiments.Bilist.Ring.{Ring, Ring-frame, SameOutside}
use asio_experiments.Bilist.Link.{link_before_lem}
use asio_experiments.Bilist.Size.{size-length}
use asio_experiments.Semaphore.{
  decrement, construct, add_waiter, try_acquire, value, Initiated, immediate, waiting, enqueue,
  async_acquire,
}
use asio_experiments.Semaphore.State.{
  Handler, get_associated_executor, WaitOp, Semaphore, completion, assign,
}
use asio_experiments.Semaphore.Spec
use asio_experiments.Semaphore.Spec.{Spec, take_token, take_now}
use asio_experiments.Semaphore.Abs.{Queue, Abs, Yields, Items-frame, Items-append, Items-length}

-- What `async_acquire` makes of a handler.
abbrev pub op_of : Semaphore → Handler → WaitOp
op_of s h = record { host = s.waiters; work_guard = get_associated_executor h s.exec; handler = h }

-- The heap in which the node at `x` has been constructed.
abbrev with_node : Heap WaitOp → Ptr → WaitOp → Heap WaitOp
with_node h x w = record {
  next = update h.next x (some x);
  prev = update h.prev x (some x);
  item = update h.item x (some w);
}

abbrev after : Semaphore → Heap WaitOp → Ptr → Handler → Semaphore
after s g x h = record s { heap = g; slots = assign h.slot x s.slots }

module _ (s : Semaphore) (ps : List Ptr) (ws : List WaitOp) (x : Ptr) (h : Handler)
    (q : Queue s ps ws) (unused : s.heap.next x ≡ none)
    (free_slot : (k : ℕ) → h.slot ≡ some k → s.slots k ≡ none) where
  -- Storage that the allocator returns is no node of the ring.
  out : has x (s.waiters ∷ ps) ≡ false
  out = Chain-live s.heap s.waiters ps s.waiters q.ring.chain x unused

  after-Queue :
      (g : Heap WaitOp)
      → Ring g s.waiters (ps ++ (x ∷ []))
      → SameOutside (s.waiters ∷ (ps ++ (x ∷ []))) (with_node s.heap x (op_of s h)) g
      → Queue (after s g x h) (ps ++ (x ∷ [])) (ws ++ (op_of s h ∷ []))
  after-Queue g r same = record {
    ring = r;
    items =
        Items-append g ps ws (x ∷ []) (op_of s h ∷ [])
          (Items-frame s.heap g ps ws q.items (λ a m. ground (arith, out, same.item_same a)))
          (ground (arith, same.item_same x), tt);
    installed = λ a k m e.
        ground
          (arith, out, has-append a ps (x ∷ []), same.item_same a, q.installed a k, free_slot k);
    owned = λ a k e.
        ground (arith, out, has-append a ps (x ∷ []), same.item_same a, q.owned a k, free_slot k);
  }

  enqueue_lem :
      (g : Heap WaitOp)
      → link_before x s.waiters (with_node s.heap x (op_of s h)) ≡ some (tt, g)
      → enqueue (some x) s.waiters (get_associated_executor h s.exec) h s
        ≡ some (waiting x, after s g x h)
  unfolding enqueue construct add_waiter init
  enqueue_lem g e = ground arith

  -- The operation is last in the queue.
  enqueue-Queue :
      (g : Heap WaitOp) × (enqueue (some x) s.waiters (get_associated_executor h s.exec) h s
        ≡ some (waiting x, after s g x h))
      × Queue (after s g x h) (ps ++ (x ∷ [])) (ws ++ (op_of s h ∷ []))
  enqueue-Queue =
      let node = with_node s.heap x (op_of s h) in
      let old : Ring node s.waiters (ps ++ []) = rw append-nil (
        Ring-frame s.heap node s.waiters ps q.ring (λ a m. ground (arith, out))
          (λ a m. ground (arith, out))) in
      let (g, e, r, same) =
        link_before_lem node s.waiters ps [] x x x old (ground arith) (ground arith)
          (rw append-nil out) in
      (g, enqueue_lem g e, after-Queue g r same)

-- How an acquire ends that can have storage at `x`.
abbrev pub outcome : ℕ → Ptr → Initiated
outcome zero x = waiting x
outcome (suc n) x = immediate

acquire-Yields :
    (s : Semaphore) (ps : List Ptr) (a : Spec) (n : ℕ) (x : Ptr) (h : Handler)
    → Abs s ps a
    → a.count ≡ n
    → s.heap.next x ≡ none
    → ((k : ℕ) → h.slot ≡ some k → s.slots k ≡ none)
    → Yields (async_acquire (some x) h) s (outcome n x) (take_token n (op_of s h) a)
unfolding async_acquire decrement
acquire-Yields s ps a zero x h v e unused slot =
    let (g, r, q) = enqueue-Queue s ps a.waiting x h v.queue unused slot in
    record {
      final = after s g x h;
      nodes = ps ++ (x ∷ []);
      runs = ground (arith, v.count, r);
      stands = record { queue = q; count = v.count; posted = v.posted };
      head_same = refl;
      exec_same = refl;
    }
acquire-Yields s ps a (suc n) x h v e unused slot = record {
  final = record s {
    count = pos n;
    posted = s.posted ++ (completion (op_of s h) ErrorCode.success ∷ []);
  };
  nodes = ps;
  runs = ground (arith, v.count);
  stands = record {
    queue = record {
      ring = v.queue.ring;
      items = v.queue.items;
      installed = v.queue.installed;
      owned = v.queue.owned;
    };
    count = refl;
    posted = ap (λ l. l ++ (completion (op_of s h) ErrorCode.success ∷ [])) v.posted;
  };
  head_same = refl;
  exec_same = refl;
}

-- `async_acquire` takes a token if there is one, and posts the handler at once; else the operation
-- becomes the last in the queue, in the storage that the allocator returns. That storage is unused,
-- and the handler's cancellation slot, if it has one, holds no other waiting operation.
pub async_acquire_refines :
    (s : Semaphore) (ps : List Ptr) (a : Spec) (x : Ptr) (h : Handler)
    → Abs s ps a
    → s.heap.next x ≡ none
    → ((k : ℕ) → h.slot ≡ some k → s.slots k ≡ none)
    → Yields (async_acquire (some x) h) s (outcome a.count x) (Spec.acquire (op_of s h) a)
unfolding Spec.acquire
async_acquire_refines s ps a x h v unused slot =
    acquire-Yields s ps a a.count x h v refl unused slot

try_acquire-Yields :
    (s : Semaphore) (ps : List Ptr) (a : Spec) (n : ℕ)
    → Abs s ps a
    → a.count ≡ n
    → Yields try_acquire s (take_now n a).0 (take_now n a).1
unfolding try_acquire
try_acquire-Yields s ps a zero v e = record {
  final = s;
  nodes = ps;
  runs = ground (arith, v.count);
  stands = v;
  head_same = refl;
  exec_same = refl;
}
try_acquire-Yields s ps a (suc n) v e = record {
  final = record s { count = pos n };
  nodes = ps;
  runs = ground (arith, v.count);
  stands = record {
    queue = record {
      ring = v.queue.ring;
      items = v.queue.items;
      installed = v.queue.installed;
      owned = v.queue.owned;
    };
    count = refl;
    posted = v.posted;
  };
  head_same = refl;
  exec_same = refl;
}

-- `try_acquire` takes a token if there is one, says whether it did, and never makes the caller wait.
pub try_acquire_refines :
    (s : Semaphore) (ps : List Ptr) (a : Spec)
    → Abs s ps a
    → Yields try_acquire s (Spec.try_acquire a).0 (Spec.try_acquire a).1
unfolding Spec.try_acquire
try_acquire_refines s ps a v = try_acquire-Yields s ps a a.count v refl

value-Queue :
    (s : Semaphore) (ps : List Ptr) (ws : List WaitOp) (a : Spec) (fuel : ℕ)
    → Queue s ps ws
    → a.waiting ≡ ws
    → s.count ≡ pos a.count
    → length ws < fuel
    → length ws ≤ int_max
    → value fuel s ≡ some (Spec.value a, s)
unfolding value Spec.value
value-Queue s [] [] a fuel q e c f b = ground (arith, q.ring.chain.0)
value-Queue s [] (w ∷ ws) a fuel q e c f b = absurd q.items
value-Queue s (p ∷ ps) [] a fuel q e c f b = absurd q.items
value-Queue s (p ∷ ps) (w ∷ ws) a fuel q e c f b =
    let n : length (p ∷ ps) ≡ length (w ∷ ws) = Items-length s.heap (p ∷ ps) (w ∷ ws) q.items in
    ground (
      arith,
      q.ring.chain.0.0,
      q.ring.distinct.0,
      size-length s.heap s.waiters (p ∷ ps) fuel q.ring (omega arith),
      to_int-eq_of_le (length (w ∷ ws)) b,
    )

-- `value` is the counter less the number of waiting operations, and changes nothing. It ends: one
-- round more than operations is enough. The number of operations fits an `int`.
pub value_refines :
    (s : Semaphore) (ps : List Ptr) (a : Spec) (fuel : ℕ)
    → Abs s ps a
    → length a.waiting < fuel
    → length a.waiting ≤ int_max
    → value fuel s ≡ some (Spec.value a, s)
value_refines s ps a fuel v f b = value-Queue s ps a.waiting a fuel v.queue refl v.count f b
