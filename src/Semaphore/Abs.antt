-- ===== src/Semaphore/Abs.antt =====
-- When the semaphore's memory stands for an abstract semaphore.
use mathlib.Core.Bool.{false≢true}
use asio_experiments.Prelude.{
  suc, length, ap, subst, inl, inr, Bool-cases, ==_iff, ℕ, ◌≡◌, refl, true, Option, none, some,
  List, [], ◌∷◌, ◌++◌, arith, ◌==◌, has,
}
use asio_experiments.Prelude.Int.{pos}
use asio_experiments.Bilist.Heap.{Ptr, Heap}
use asio_experiments.Bilist.Ring.{Ring}
use asio_experiments.Semaphore.State.{WaitOp, Semaphore, M}
use asio_experiments.Semaphore.Spec.{Spec}

-- The nodes `ps` carry the operations `ws`.
abbrev pub Items : Heap WaitOp → List Ptr → List WaitOp → Type 0
Items h [] [] = Unit {0}
Items h [] (w ∷ ws) = ⊥
Items h (p ∷ ps) [] = ⊥
Items h (p ∷ ps) (w ∷ ws) = (h.item p ≡ some w) × Items h ps ws

-- The slot of the operation at `p`, if there is an operation and its slot is connected.
abbrev pub slot_at : Option WaitOp → Option ℕ
slot_at none = none
slot_at (some w) = w.handler.slot

-- The ring of the semaphore is `ps` and carries `ws`, and the cancellation slots point into it.
pub record Queue (s : Semaphore) (ps : List Ptr) (ws : List WaitOp) : Type 0 where
  pub ring : Ring s.heap s.waiters ps
  pub items : Items s.heap ps ws
  pub installed :
      (p : Ptr) (k : ℕ) → has p ps ≡ true → slot_at (s.heap.item p) ≡ some k → s.slots k ≡ some p
  pub owned :
      (p : Ptr) (k : ℕ)
      → s.slots k ≡ some p
      → (has p ps ≡ true) × (slot_at (s.heap.item p) ≡ some k)

-- The semaphore `s`, with the nodes `ps`, stands for `a`.
pub record Abs (s : Semaphore) (ps : List Ptr) (a : Spec) : Type 0 where
  pub queue : Queue s ps a.waiting
  pub count : s.count ≡ pos a.count
  pub posted : s.posted ≡ a.posted

-- The command `c`, run at `s`, does not fault; it returns `b` and leaves a semaphore at the same
-- address and with the same default executor, which stands for `a`.
pub record Yields {B : Type 0} (c : M B) (s : Semaphore) (b : B) (a : Spec) : Type 0 where
  pub final : Semaphore
  pub nodes : List Ptr
  pub runs : c s ≡ some (b, final)
  pub stands : Abs final nodes a
  pub head_same : final.waiters ≡ s.waiters
  pub exec_same : final.exec ≡ s.exec

-- What has been posted is handed over to the executors.
pub hand_over-Abs :
    (s : Semaphore) (ps : List Ptr) (a : Spec)
    → Abs s ps a
    → Abs (record s { posted = [] }) ps (record a { posted = [] })
hand_over-Abs s ps a v = record {
  queue = record {
    ring = v.queue.ring;
    items = v.queue.items;
    installed = v.queue.installed;
    owned = v.queue.owned;
  };
  count = v.count;
  posted = refl;
}

-- A command that changes nothing.
pub Yields-unchanged :
    {B : Type 0} (c : M B) (s : Semaphore) (ps : List Ptr) (a : Spec) (b : B)
    → Abs s ps a
    → c s ≡ some (b, s)
    → Yields c s b a
Yields-unchanged c s ps a b v e = record {
  final = s;
  nodes = ps;
  runs = e;
  stands = v;
  head_same = refl;
  exec_same = refl;
}

pub Items-frame :
    (h g : Heap WaitOp) (ps : List Ptr) (ws : List WaitOp)
    → Items h ps ws
    → ((a : Ptr) → has a ps ≡ true → g.item a ≡ h.item a)
    → Items g ps ws
Items-frame h g [] [] i f = tt
Items-frame h g [] (w ∷ ws) i f = i
Items-frame h g (p ∷ ps) [] i f = i
Items-frame h g (p ∷ ps) (w ∷ ws) i f =
    (ground (arith, f p), Items-frame h g ps ws i.1 (λ a o. f a (ground arith)))

pub Items-append :
    (h : Heap WaitOp) (ps : List Ptr) (ws : List WaitOp) (qs : List Ptr) (vs : List WaitOp)
    → Items h ps ws
    → Items h qs vs
    → Items h (ps ++ qs) (ws ++ vs)
Items-append h [] [] qs vs i j = j
Items-append h [] (w ∷ ws) qs vs i j = absurd i
Items-append h (p ∷ ps) [] qs vs i j = absurd i
Items-append h (p ∷ ps) (w ∷ ws) qs vs i j = (i.0, Items-append h ps ws qs vs i.1 j)

-- A node of the queue, and the operation on it, with what stands before and behind.
pub record Split (h : Heap WaitOp) (ps : List Ptr) (ws : List WaitOp) (p : Ptr) : Type 0 where
  pub before : List Ptr
  pub behind : List Ptr
  pub ops_before : List WaitOp
  pub ops_behind : List WaitOp
  pub op : WaitOp
  pub nodes : ps ≡ before ++ (p ∷ behind)
  pub ops : ws ≡ ops_before ++ (op ∷ ops_behind)
  pub items_before : Items h before ops_before
  pub item : h.item p ≡ some op
  pub items_behind : Items h behind ops_behind

module _ {h : Heap WaitOp} {p : Ptr} where
  unfoldable pub Split-here :
      (ps : List Ptr) (w : WaitOp) (ws : List WaitOp)
      → h.item p ≡ some w
      → Items h ps ws
      → Split h (p ∷ ps) (w ∷ ws) p
  Split-here ps w ws e i = record {
    before = [];
    behind = ps;
    ops_before = [];
    ops_behind = ws;
    op = w;
    nodes = refl;
    ops = refl;
    items_before = tt;
    item = e;
    items_behind = i;
  }

  Split-there :
      (q : Ptr) (w : WaitOp) (ps : List Ptr) (ws : List WaitOp)
      → h.item q ≡ some w
      → Split h ps ws p
      → Split h (q ∷ ps) (w ∷ ws) p
  Split-there q w ps ws e c = record {
    before = q ∷ c.before;
    behind = c.behind;
    ops_before = w ∷ c.ops_before;
    ops_behind = c.ops_behind;
    op = c.op;
    nodes = ap (◌∷◌ q) c.nodes;
    ops = ap (◌∷◌ w) c.ops;
    items_before = (e, c.items_before);
    item = c.item;
    items_behind = c.items_behind;
  }

  -- Each node of the queue splits it.
  pub Split_of_has :
      (ps : List Ptr) (ws : List WaitOp) → Items h ps ws → has p ps ≡ true → Split h ps ws p
  Split_of_has [] ws i m = absurd (false≢true m)
  Split_of_has (q ∷ ps) [] i m = absurd i
  Split_of_has (q ∷ ps) (w ∷ ws) i m = elim (Bool-cases (p == q)) [
    | inl e ↦
        subst (λ (x : ℕ). Split h (x ∷ ps) (w ∷ ws) p) ((==_iff p q).0 e)
          (Split-here ps w ws (ground arith) i.1)
    | inr ne ↦ Split-there q w ps ws i.0 (Split_of_has ps ws i.1 (ground arith))
  ]

pub Items-length :
    (h : Heap WaitOp) (ps : List Ptr) (ws : List WaitOp) → Items h ps ws → length ps ≡ length ws
Items-length h [] [] i = refl
Items-length h [] (w ∷ ws) i = absurd i
Items-length h (p ∷ ps) [] i = absurd i
Items-length h (p ∷ ps) (w ∷ ws) i = ap suc (Items-length h ps ws i.1)
