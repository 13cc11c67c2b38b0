-- ===== src/Latch/Threads/Alone.antt =====
-- A thread that is alone does what its transaction does when it is run as a whole.
use asio_experiments.Prelude.{
  ℕ, zero, suc, ◌≡◌, ◌≢◌, ◌∙◌, sym, refl, Bool, true, false, not, ◌&&◌, Bool-cases, inl, inr,
  Option, none, some, ◌==◌, arith,
}
use asio_experiments.Latch.{Latch, Latches, put, put-here, put-put, put-same}
use asio_experiments.Latch.Single.{
  Choice, commits, rolls_back, leaves, wants, attempt, open_free, done_free, after, attempt-done,
  attempt-open,
}
use asio_experiments.Latch.Two.{free, put-over, put2-left, put-apart, put2-same, put2-right}
use asio_experiments.Latch.Pair.{attempt2, after2, attempt2-atomic}
use asio_experiments.Latch.Threads.{
  Program, returns, single, double, program, begin1, goes_on1, chosen1, commit1, rollback1,
  destroy1, commit, rollback, begin2, goes_on2, chosen2, commit2, rollback2, destroy2, Outcome,
  finished, blocked, fault, moves, act,
}

abbrev gets_on : (Program → Latches → Option (Bool × Latches)) → Outcome → Option (Bool × Latches)
gets_on f finished = none
gets_on f blocked = none
gets_on f fault = none
gets_on f (moves s k) = f k s

-- At most so many actions of a thread by itself: its reply and the latches, if it gets there.
unfoldable pub alone : ℕ → Program → Latches → Option (Bool × Latches)
alone n (returns b) s = some (b, s)
alone zero k s = none
alone (suc n) k s = gets_on (alone n) (act k s)

latch_is :
    (l : Latch) (b : Bool)
    → l.transferred ≡ b
    → l.locked ≡ false
    → l ≡ record { transferred = b; locked = false }
latch_is l b e e' = rw (e, e') refl

alone-done :
    (p : ℕ) (c : Choice) (s : Latches)
    → s p ≡ done_free
    → alone 8 (program (single p c)) s ≡ some (false, s)
unfolding alone act program begin1 goes_on1 destroy1 rollback1
alone-done p c s u = simp (u, put-here, put-put) (simp (put-same s p done_free u) refl)

alone-open :
    (p : ℕ) (c : Choice) (s : Latches)
    → s p ≡ open_free
    → alone 8 (program (single p c)) s ≡ some (wants c, after s p (wants c))
unfolding alone act program begin1 goes_on1 chosen1 commit1 rollback1 destroy1 commit rollback
alone-open p commits s u = simp (u, put-here, put-put) refl
alone-open p rolls_back s u = simp (u, put-here, put-put) (simp (put-same s p open_free u) refl)
alone-open p leaves s u = simp (u, put-here, put-put) (simp (put-same s p open_free u) refl)

-- On one latch, from a state in which its mutex is free.
pub alone-single :
    (p : ℕ) (c : Choice) (s : Latches)
    → (s p).locked ≡ false
    → alone 8 (program (single p c)) s ≡ attempt p c s
alone-single p c s e = elim (Bool-cases (s p).transferred) [
  | inl e' ↦ let u = latch_is (s p) true e' e in alone-done p c s u ∙ sym (attempt-done s p c u)
  | inr e' ↦ let u = latch_is (s p) false e' e in alone-open p c s u ∙ sym (attempt-open s p c u)
]

module _ (s : Latches) (p q : ℕ) (d : (p == q) ≡ false) where
  over : (a b c : Latch) → put (put (put s p a) q b) p c ≡ put (put s p c) q b
  over a b c = put-over s p q a b c d

  left : (a b : Latch) → put (put s p a) q b p ≡ a
  left a b = put2-left s p q a b d

  apart : (a : Latch) → put s p a q ≡ s q
  apart a = put-apart s p q a d

  right : (a b c : Latch) → put (put (put s p a) q b) p c q ≡ b
  right a b c = put2-right s p q a b c d

  -- The actions of a thread that is alone, in the state of both latches.
  double-open :
      (c : Choice)
      → s p ≡ open_free
      → s q ≡ open_free
      → alone 15 (program (double p q c)) s ≡ some (wants c, after2 s p q (wants c))
  unfolding alone act program begin2 goes_on2 chosen2 commit2 rollback2 destroy2 commit rollback
  double-open commits u v = simp (u, v, right, over, left, apart, put-here, put-put) refl
  double-open rolls_back u v =
      simp (u, v, right, over, left, apart, put-here, put-put)
        (simp (put2-same s p q open_free open_free u v) refl)
  double-open leaves u v =
      simp (u, v, right, over, left, apart, put-here, put-put)
        (simp (put2-same s p q open_free open_free u v) refl)

  double-closed :
      (a b : Bool) (c : Choice)
      → s p ≡ free a
      → s q ≡ free b
      → (not a && not b) ≡ false
      → alone 15 (program (double p q c)) s ≡ some (false, s)
  unfolding alone act program begin2 goes_on2 destroy2 rollback2
  double-closed true b c u v n =
      simp (u, v, right, over, left, apart, put-put)
        (simp (put2-same s p q (free true) (free b) u v) refl)
  double-closed false true c u v n =
      simp (u, v, right, over, left, apart, put-here, put-put)
        (simp (put2-same s p q (free false) (free true) u v) refl)
  double-closed false false c u v n = absurd cc

-- On two latches, from a state in which both mutexes are free.
pub alone-double :
    (p q : ℕ) (c : Choice) (s : Latches) (a b : Bool)
    → p ≢ q
    → s p ≡ free a
    → s q ≡ free b
    → alone 15 (program (double p q c)) s ≡ attempt2 p q c s
alone-double p q c s false false ne u v =
    double-open s p q (ground arith) c u v ∙ sym (attempt2-atomic s p q false false c ne u v)
alone-double p q c s true b ne u v =
    double-closed s p q (ground arith) true b c u v refl
    ∙ sym (attempt2-atomic s p q true b c ne u v)
alone-double p q c s false true ne u v =
    double-closed s p q (ground arith) false true c u v refl
    ∙ sym (attempt2-atomic s p q false true c ne u v)
