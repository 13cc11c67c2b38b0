-- ===== src/Semaphore/Drain.antt =====
-- The loops of `async_semaphore_base::release_all` and of its destructor.
use asio_experiments.Prelude.{
  ℕ, zero, suc, ◌+◌, ◌<◌, ◌≡◌, refl, ap, sym, ◌∙◌, some, List, [], ◌∷◌, ◌++◌, arith, length,
  append_assoc, append-nil,
}
use asio_experiments.ErrorCode.{ErrorCode, success, operation_aborted}
use asio_experiments.Bilist.Heap.{Ptr}
use asio_experiments.Semaphore.{drain, release_all, destroy}
use asio_experiments.Semaphore.State.{WaitOp, Semaphore}
use asio_experiments.Semaphore.Spec
use asio_experiments.Semaphore.Spec.{Spec, completions}
use asio_experiments.Semaphore.Abs.{Queue, Abs, Yields}
use asio_experiments.Semaphore.Complete.{complete_front, SameBase}

-- The queue is empty at the end, and its completions have been posted in order.
record Drained (s t : Semaphore) (ws : List WaitOp) (ec : ErrorCode) : Type 0 where
  rest : Queue t [] []
  same : SameBase s t
  posts : t.posted ≡ s.posted ++ completions ec ws

drain-Drained :
    (fuel : ℕ) (s : Semaphore) (ps : List Ptr) (ws : List WaitOp) (ec : ErrorCode) (sz : ℕ)
    → Queue s ps ws
    → length ws < fuel
    → (t : Semaphore) × (drain fuel ec sz s ≡ some (sz + length ws, t)) × Drained s t ws ec
unfolding drain
drain-Drained zero s ps ws ec sz q lt = absurd (omega arith)
drain-Drained (suc k) s [] [] ec sz q lt = (
  s,
  ground (arith, q.ring.chain.0),
  record {
    rest = q;
    same = record { count_same = refl; head_same = refl; exec_same = refl };
    posts = sym (append-nil s.posted);
  },
)
drain-Drained (suc k) s [] (w ∷ ws) ec sz q lt = absurd q.items
drain-Drained (suc k) s (p ∷ ps) [] ec sz q lt = absurd q.items
drain-Drained (suc k) s (p ∷ ps) (w ∷ ws) ec sz q lt =
    let (m, one) = complete_front s p ps w ws ec q in
    let (t, r, d) = drain-Drained k m ps ws ec (sz + 1) one.rest (omega arith) in
    (
      t,
      ground (arith, q.ring.chain.0.0, q.ring.distinct.0, one.runs, r),
      record {
        rest = d.rest;
        same = ground (arith, one.same, d.same);
        posts = d.posts ∙ ap (λ l. l ++ completions ec ws) one.posts ∙ append_assoc s.posted _ _;
      },
    )

-- `release_all` completes every waiting operation with success, the longest first, returns how
-- many there were and leaves the counter alone. It ends: one round more than operations is enough.
pub release_all_refines :
    (s : Semaphore) (ps : List Ptr) (a : Spec) (fuel : ℕ)
    → Abs s ps a
    → length a.waiting < fuel
    → Yields (release_all fuel) s (length a.waiting) (Spec.complete_all success a)
unfolding Spec.complete_all release_all
release_all_refines s ps a fuel v lt =
    let (t, r, d) = drain-Drained fuel s ps a.waiting success 0 v.queue lt in
    record {
      final = t;
      nodes = [];
      runs = ground (arith, r);
      stands = record {
        queue = d.rest;
        count = d.same.count_same ∙ v.count;
        posted = d.posts ∙ ap (λ l. l ++ completions success a.waiting) v.posted;
      };
      head_same = d.same.head_same;
      exec_same = d.same.exec_same;
    }

-- The destructor completes every waiting operation with `operation_aborted`, the longest first.
pub destroy_refines :
    (s : Semaphore) (ps : List Ptr) (a : Spec) (fuel : ℕ)
    → Abs s ps a
    → length a.waiting < fuel
    → Yields (destroy fuel) s tt (Spec.complete_all operation_aborted a)
unfolding Spec.complete_all destroy
destroy_refines s ps a fuel v lt =
    let (t, r, d) = drain-Drained fuel s ps a.waiting operation_aborted 0 v.queue lt in
    record {
      final = t;
      nodes = [];
      runs = ground (arith, r);
      stands = record {
        queue = d.rest;
        count = d.same.count_same ∙ v.count;
        posted = d.posts ∙ ap (λ l. l ++ completions operation_aborted a.waiting) v.posted;
      };
      head_same = d.same.head_same;
      exec_same = d.same.exec_same;
    }
