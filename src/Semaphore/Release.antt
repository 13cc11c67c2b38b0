-- ===== src/Semaphore/Release.antt =====
-- `async_semaphore_base::release`.
use asio_experiments.Prelude.{ℕ, suc, ◌<◌, ◌≡◌, refl, false, some, List, [], ◌∷◌, arith, ◌==◌}
use asio_experiments.Prelude.Int.{pos, int_max}
use asio_experiments.ErrorCode.{success}
use asio_experiments.Bilist.Heap.{Ptr}
use asio_experiments.Semaphore.{complete, increment, decrement, release}
use asio_experiments.Semaphore.State.{WaitOp, Semaphore}
use asio_experiments.Semaphore.Spec
use asio_experiments.Semaphore.Spec.{Spec, give}
use asio_experiments.Semaphore.Abs.{Queue, Abs, Yields}
use asio_experiments.Semaphore.Complete.{complete_front}

-- The counter goes up, and down again before the front operation completes.
release-waiting :
    (s t : Semaphore) (p : Ptr) (n : ℕ)
    → s.count ≡ pos n
    → n < int_max
    → s.heap.next s.waiters ≡ some p
    → (p == s.waiters) ≡ false
    → complete p success (record s { count = pos n }) ≡ some (tt, t)
    → release s ≡ some (tt, t)
unfolding release increment decrement
release-waiting s t p n c lt e ne r = ground arith

release-idle :
    (s : Semaphore) (n : ℕ)
    → s.count ≡ pos n
    → n < int_max
    → s.heap.next s.waiters ≡ some s.waiters
    → release s ≡ some (tt, record s { count = pos (suc n) })
unfolding release increment decrement
release-idle s n c lt e = ground arith

release-Yields :
    (s : Semaphore) (ps : List Ptr) (ws : List WaitOp) (a : Spec)
    → Queue s ps ws
    → s.count ≡ pos a.count
    → s.posted ≡ a.posted
    → a.waiting ≡ ws
    → a.count < int_max
    → Yields release s tt (give ws a)
release-Yields s [] [] a q c e w lt = record {
  final = record s { count = pos (suc a.count) };
  nodes = [];
  runs = release-idle s a.count c lt q.ring.chain.0;
  stands = record {
    queue = rw w (record { ring = q.ring; items = tt; installed = q.installed; owned = q.owned });
    count = refl;
    posted = e;
  };
  head_same = refl;
  exec_same = refl;
}
release-Yields s [] (w ∷ ws) a q c e ew lt = absurd q.items
release-Yields s (p ∷ ps) [] a q c e ew lt = absurd q.items
release-Yields s (p ∷ ps) (w ∷ ws) a q c e ew lt =
    let s' = record s { count = pos a.count } in
    let q' : Queue s' (p ∷ ps) (w ∷ ws) = record {
      ring = q.ring;
      items = q.items;
      installed = q.installed;
      owned = q.owned;
    } in
    let (t, done) = complete_front s' p ps w ws success q' in
    record {
      final = t;
      nodes = ps;
      runs =
          release-waiting s t p a.count c lt q.ring.chain.0.0 (ground (arith, q.ring.distinct.0))
            done.runs;
      stands = record {
        queue = done.rest;
        count = done.same.count_same;
        posted = ground (arith, done.posts);
      };
      head_same = done.same.head_same;
      exec_same = done.same.exec_same;
    }

-- `release` hands its token to the operation that has waited longest, or counts it, and never
-- faults on a semaphore whose counter is below the largest `int`.
pub release_refines :
    (s : Semaphore) (ps : List Ptr) (a : Spec)
    → Abs s ps a
    → a.count < int_max
    → Yields release s tt (Spec.release a)
unfolding Spec.release
release_refines s ps a v lt = release-Yields s ps a.waiting a v.queue v.count v.posted refl lt
