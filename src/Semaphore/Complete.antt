-- ===== src/Semaphore/Complete.antt =====
-- `semaphore_wait_op_model::complete` on an operation that waits.
use asio_experiments.Prelude.{
  ◌≡◌, refl, false, none, some, List, [], ◌∷◌, ◌++◌, arith, ◌==◌, has, has-append, Distinct-cut_out,
}
use asio_experiments.ErrorCode.{ErrorCode}
use asio_experiments.Bilist.{unlink}
use asio_experiments.Bilist.Heap.{Ptr, Heap, update}
use asio_experiments.Bilist.Chain.{first, Chain-cut, Chain-first}
use asio_experiments.Bilist.Ring.{Ring, SameOutside, Ring-frame}
use asio_experiments.Bilist.Unlink.{unlink_lem}
use asio_experiments.Semaphore.{complete}
use asio_experiments.Semaphore.State.{WaitOp, Semaphore, completion, clear}
use asio_experiments.Semaphore.Abs.{Items, Queue, Items-frame, Items-append, Split, Split-here}

-- The heap without the object at `p`.
abbrev pub without : Heap WaitOp → Ptr → Heap WaitOp
without h p = record {
  next = update h.next p none;
  prev = update h.prev p none;
  item = update h.item p none;
}

-- The state after the operation `w` at `p` has completed with `ec`, `g` being the heap in which it
-- is unlinked.
abbrev after : Semaphore → Heap WaitOp → Ptr → WaitOp → ErrorCode → Semaphore
after s g p w ec = record s {
  heap = without g p;
  slots = clear w.handler.slot s.slots;
  posted = s.posted ++ (completion w ec ∷ []);
}

complete-after :
    (s : Semaphore) (g : Heap WaitOp) (p : Ptr) (w : WaitOp) (ec : ErrorCode) {q : Ptr}
    → s.heap.item p ≡ some w
    → unlink p s.heap ≡ some (tt, g)
    → g.next p ≡ some q
    → complete p ec s ≡ some (tt, after s g p w ec)
unfolding complete
complete-after s g p w ec i e l = ground arith

module _ (s : Semaphore) (p : Ptr) (xs ys : List Ptr) (us vs : List WaitOp) (w : WaitOp)
    (ec : ErrorCode) (q : Queue s (xs ++ (p ∷ ys)) (us ++ (w ∷ vs)))
    (i : s.heap.item p ≡ some w) where
  out : has p (xs ++ ys) ≡ false
  out = Distinct-cut_out xs p ys q.ring.distinct.1

  ne_head : (s.waiters == p) ≡ false
  ne_head = ground (arith, q.ring.distinct.0, has-append s.waiters xs (p ∷ ys))

  after-Queue :
      (g : Heap WaitOp)
      → Items s.heap xs us
      → Items s.heap ys vs
      → Ring g s.waiters (xs ++ ys)
      → SameOutside (s.waiters ∷ (xs ++ ys)) s.heap g
      → Queue (after s g p w ec) (xs ++ ys) (us ++ vs)
  after-Queue g iu iv r same = record {
    ring =
        Ring-frame g (without g p) s.waiters (xs ++ ys) r (λ a m. ground (arith, out, ne_head))
          (λ a m. ground (arith, out, ne_head));
    items =
        Items-frame s.heap (without g p) (xs ++ ys) (us ++ vs)
          (Items-append s.heap xs us ys vs iu iv) (λ a m. ground (arith, out, same.item_same a));
    installed = λ a k m e. ground (
      arith,
      out,
      has-append a xs ys,
      has-append a xs (p ∷ ys),
      has-append p xs (p ∷ ys),
      same.item_same a,
      q.installed a k,
      q.installed p k,
    );
    owned = λ a k e.
        ground
          (arith, out, has-append a xs ys, has-append a xs (p ∷ ys), same.item_same a, q.owned a k);
  }

  after_lem :
      Items s.heap xs us
      → Items s.heap ys vs
      → (h : Heap WaitOp) × (complete p ec s ≡ some (tt, after s h p w ec))
        × Queue (after s h p w ec) (xs ++ ys) (us ++ vs)
  after_lem iu iv =
      let (h, e, r, same) = unlink_lem s.heap s.waiters xs p ys q.ring in
      let n = first ys s.waiters in
      let link = Chain-first s.heap p ys s.waiters (Chain-cut s.heap _ xs p ys _ q.ring.chain).1 in
      (
        h,
        complete-after s h p w ec {q = n} i e
            (ground (arith, same.next_same p, out, ne_head, link)),
        after-Queue h iu iv r same,
      )

-- What the completion of an operation leaves alone.
pub record SameBase (s t : Semaphore) : Type 0 where
  pub count_same : t.count ≡ s.count
  pub head_same : t.waiters ≡ s.waiters
  pub exec_same : t.exec ≡ s.exec

-- The completion of the operation at `p`: it does not fault, the others keep their order, one
-- completion is posted, and the operation's object is gone.
pub record Completes (s : Semaphore) (p : Ptr) (w : WaitOp) (ec : ErrorCode) (ps : List Ptr)
    (ws : List WaitOp) (t : Semaphore) : Type 0 where
  pub runs : complete p ec s ≡ some (tt, t)
  pub rest : Queue t ps ws
  pub same : SameBase s t
  pub posts : t.posted ≡ s.posted ++ (completion w ec ∷ [])
  pub destroyed : t.heap.next p ≡ none

pub complete_lem :
    (s : Semaphore) (ps : List Ptr) (ws : List WaitOp) (p : Ptr) (ec : ErrorCode)
    → Queue s ps ws
    → (c : Split s.heap ps ws p)
    → (t : Semaphore) × Completes s p c.op ec
        (c.before ++ c.behind)
        (c.ops_before ++ c.ops_behind)
        t
complete_lem s ps ws p ec q c =
    let q' = rw (c.nodes, c.ops) at q in
    let (h, e, r) =
      after_lem s p c.before c.behind c.ops_before c.ops_behind c.op ec q' c.item c.items_before
        c.items_behind in
    (
      after s h p c.op ec,
      record {
        runs = e;
        rest = r;
        same = record { count_same = refl; head_same = refl; exec_same = refl };
        posts = refl;
        destroyed = ground arith;
      },
    )

-- The front of the queue.
pub complete_front :
    (s : Semaphore) (p : Ptr) (ps : List Ptr) (w : WaitOp) (ws : List WaitOp) (ec : ErrorCode)
    → Queue s (p ∷ ps) (w ∷ ws)
    → (t : Semaphore) × Completes s p w ec ps ws t
unfolding Split-here
complete_front s p ps w ws ec q =
    complete_lem s (p ∷ ps) (w ∷ ws) p ec q (Split-here ps w ws q.items.0 q.items.1)
