-- ===== src/Semaphore/Cancel.antt =====
-- A cancellation signal that reaches a semaphore's operation.
use asio_experiments.Prelude.{
  ℕ, ◌≡◌, ◌≢◌, ap, ◌∙◌, true, ◌⊎◌, inl, inr, none, some, List, [], ◌∷◌, ◌++◌, arith, has,
  Option-cases,
}
use asio_experiments.ErrorCode.{operation_aborted}
use asio_experiments.Bilist.Heap.{Ptr, Heap}
use asio_experiments.Semaphore.{complete, cancels, on_cancel, emit}
use asio_experiments.Semaphore.State.{WaitOp, Semaphore, completion}
use asio_experiments.Semaphore.Spec
use asio_experiments.Semaphore.Spec.{Spec}
use asio_experiments.Semaphore.Abs.{Items, slot_at, Abs, Yields, Split_of_has}
use asio_experiments.Semaphore.Complete.{complete_lem}

-- No operation of the list is cancelled through the slot `k`.
abbrev pub NoneOn : ℕ → List WaitOp → Type 0
NoneOn k [] = Unit {0}
NoneOn k (w ∷ ws) = (w.handler.slot ≢ some k) × NoneOn k ws

Items-NoneOn :
    (h : Heap WaitOp) (k : ℕ) (ps : List Ptr) (ws : List WaitOp)
    → Items h ps ws
    → ((p : Ptr) → has p ps ≡ true → slot_at (h.item p) ≢ some k)
    → NoneOn k ws
Items-NoneOn h k [] [] i f = tt
Items-NoneOn h k [] (w ∷ ws) i f = absurd i
Items-NoneOn h k (p ∷ ps) [] i f = absurd i
Items-NoneOn h k (p ∷ ps) (w ∷ ws) i f =
    (λ e. f p (ground arith) (ground arith), Items-NoneOn h k ps ws i.1 (λ a m. f a (ground arith)))

-- The signal aborts one operation: the one whose handler has the slot `k`.
pub record Aborts (s : Semaphore) (a : Spec) (k type : ℕ) : Type 0 where
  pub before : List WaitOp
  pub op : WaitOp
  pub behind : List WaitOp
  pub waiting : a.waiting ≡ before ++ (op ∷ behind)
  pub slot : op.handler.slot ≡ some k
  pub yields : Yields (emit k type) s tt (Spec.abort before op behind a)

emit-complete :
    (s t : Semaphore) (k type : ℕ) (p : Ptr)
    → s.slots k ≡ some p
    → cancels type ≡ true
    → complete p operation_aborted s ≡ some (tt, t)
    → emit k type s ≡ some (tt, t)
unfolding emit on_cancel
emit-complete s t k type p e c r = ground arith

module _ (s : Semaphore) (ps : List Ptr) (a : Spec) (k type : ℕ) (v : Abs s ps a) where
  emit-some : (p : Ptr) → s.slots k ≡ some p → cancels type ≡ true → Aborts s a k type
  unfolding Spec.abort
  emit-some p e c =
      let owner = v.queue.owned p k e in
      let split = Split_of_has ps a.waiting v.queue.items owner.0 in
      let (t, done) = complete_lem s ps a.waiting p operation_aborted v.queue split in
      record {
        before = split.ops_before;
        op = split.op;
        behind = split.ops_behind;
        waiting = split.ops;
        slot = ground (arith, owner.1, split.item);
        yields = record {
          final = t;
          nodes = split.before ++ split.behind;
          runs = emit-complete s t k type p e c done.runs;
          stands = record {
            queue = done.rest;
            count = done.same.count_same ∙ v.count;
            posted =
                done.posts ∙ ap (λ l. l ++ (completion split.op operation_aborted ∷ [])) v.posted;
          };
          head_same = done.same.head_same;
          exec_same = done.same.exec_same;
        };
      }

  emit-none : s.slots k ≡ none → (emit k type s ≡ some (tt, s)) × NoneOn k a.waiting
  unfolding emit
  emit-none e = (
    ground arith,
    Items-NoneOn s.heap k ps a.waiting v.queue.items
        (λ p m x. ground (arith, v.queue.installed p k)),
  )

  -- A cancellation signal of a type that `async_acquire` supports takes the waiting operation with
  -- its slot out of the queue, wherever it stands, and completes it with `operation_aborted`; the
  -- others keep their order. If no waiting operation has the slot, nothing happens.
  pub emit_refines :
      cancels type ≡ true
      → Aborts s a k type ⊎ ((emit k type s ≡ some (tt, s)) × NoneOn k a.waiting)
  emit_refines c = elim (Option-cases (s.slots k)) [
    | inl e ↦ inr (emit-none e)
    | inr (p, e) ↦ inl (emit-some p e c)
  ]
