-- ===== src/Latch/Threads/Tests.antt =====
-- Threads on two latches, at work together.
use asio_experiments.Prelude.{
  ℕ, zero, suc, ◌+◌, ◌≤◌, ◌<◌, ◌≡◌, ◌≢◌, ◌⊎◌, refl, Bool, true, false, ◌&&◌, ◌||◌, List, [], ◌∷◌,
  ◌==◌, arith,
}
use native.Mathlib.Decide.{dec_lt}
use asio_experiments.Prelude.Sums.{total}
use asio_experiments.Latch.{Latches, put}
use asio_experiments.Latch.Single.{commits, rolls_back}
use asio_experiments.Latch.Threads.{
  returns, Job, single, double, reading, reads, completing, blocking, program, begin1, goes_on1,
  chosen1, commit1, rollback1, destroy1, commit, rollback, begin2, goes_on2, chosen2, commit2,
  rollback2, destroy2, Outcome, finished, blocked, fault, moves, act, System, Run, start, action,
}
use asio_experiments.Latch.Threads.Budget.{most}
use asio_experiments.Latch.Threads.Owned.{one_if, names, Distinct2}
use asio_experiments.Latch.Threads.Safety.{touches, faultless, answered, settled, race_free}
use asio_experiments.Latch.Threads.Progress.{all_over, Moves, ends}

record Ran (n : ℕ) (job : ℕ → Job) (l : Latches) : Type 0 where
  last : System
  count : ℕ
  run : Run n job l last count

-- One action of the thread `i`, if it can act.
turn :
    {n : ℕ} {job : ℕ → Job} {l : Latches} (r : Ran n job l) (i : ℕ)
    → i < n
    → (o : Outcome) → act (r.last.thread i) r.last.latches ≡ o
    → Ran n job l
turn r i lt (moves s k) e = record { last = _; count = _; run = action r.run i lt e }
turn r i lt finished e = r
turn r i lt blocked e = r
turn r i lt fault e = r

unfoldable play : {n : ℕ} {job : ℕ → Job} {l : Latches} → List ℕ → Ran n job l → Ran n job l
unfolding turn
play [] r = r
play {n} (i ∷ is) r = play is (elim (dec_lt i n) [ yes lt ↦ turn r i lt _ refl | no h ↦ r ])

abbrev jobs : ℕ → Job
jobs zero = single 3 commits
jobs (suc zero) = double 3 4 commits
jobs (suc (suc zero)) = reading 4 1
jobs (suc (suc (suc i))) = double 4 5 rolls_back

jobs-Distinct2 : (i : ℕ) → i < 4 → Distinct2 (jobs i)
jobs-Distinct2 zero lt = tt
jobs-Distinct2 (suc zero) lt = refl
jobs-Distinct2 (suc (suc zero)) lt = tt
jobs-Distinct2 (suc (suc (suc i))) lt = refl

abbrev open_latches : Latches
open_latches p = record { transferred = false; locked = false }

abbrev begun : Ran 4 jobs open_latches
begun = record { last = _; count = 0; run = start (λ p. refl) }

ran : Ran 4 jobs open_latches
unfolding play
ran =
    play
      (0 ∷ 1 ∷ 2 ∷ 3 ∷ 0 ∷ 2 ∷ 0 ∷ 2 ∷ 3 ∷ 0 ∷ 1 ∷ 2 ∷ 2 ∷ 0 ∷ 3 ∷ 2 ∷ 0 ∷ 0 ∷ 0 ∷ 1 ∷ 2 ∷ 3 ∷ 2 ∷ 2
        ∷ 2 ∷ 2 ∷ 2 ∷ 2 ∷ 2 ∷ 2 ∷ 2 ∷ 3 ∷ 3 ∷ 3 ∷ 3 ∷ 3 ∷ 3 ∷ 3 ∷ 3 ∷ 3 ∷ 2 ∷ 2 ∷ 2 ∷ 2 ∷ 2 ∷ 2 ∷ 2
        ∷ 2 ∷ 3 ∷ 3 ∷ 3 ∷ 3 ∷ 1 ∷ 1 ∷ 1 ∷ 1 ∷ 1 ∷ [])
      begun

-- The first thread commits, the second is turned away, the third reads, and the last does not commit.
abbrev replies : ℕ → Bool
replies i = (i == 0) || (i == 2)

ran-replies : (i : ℕ) → i < 4 → ran.last.thread i ≡ returns (replies i)
unfolding ran play turn act put program begin1 goes_on1 chosen1 reads completing blocking commit1
    rollback1 destroy1 commit rollback begin2 goes_on2 chosen2 commit2 rollback2 destroy2 dec_lt
ran-replies zero lt = refl
ran-replies (suc zero) lt = refl
ran-replies (suc (suc zero)) lt = refl
ran-replies (suc (suc (suc zero))) lt = refl
ran-replies (suc (suc (suc (suc i)))) lt = absurd (omega arith)

-- In the middle the first thread holds the latch 3, and the second waits for it.
midway : Ran 4 jobs open_latches
unfolding play
midway = play (0 ∷ 1 ∷ 0 ∷ 2 ∷ 1 ∷ []) begun

faultless_example : act (midway.last.thread 1) midway.last.latches ≢ fault
faultless_example = faultless jobs-Distinct2 midway.run 1 (omega arith)

race_free_example :
    ((midway.last.latches 3).locked ≡ true) × (touches (midway.last.thread 1) 3 ≡ false)
unfolding midway play turn act put program begin1 goes_on1 chosen1 commit1 rollback1 destroy1 commit
    rollback begin2 goes_on2 chosen2 commit2 rollback2 destroy2 dec_lt reads completing blocking
race_free_example =
    race_free jobs-Distinct2 midway.run 0 1 3 (omega arith) (omega arith) (omega arith) refl

answered_example :
    (false ≡ true)
    ⊎ ((false ≡ false)
        × (p : ℕ) × ((ran.last.latches p).transferred ≡ true)
        × (names (jobs 1) p ≡ true))
answered_example =
    answered jobs-Distinct2 ran.run 1 false (omega arith) (ran-replies 1 (omega arith))

settled_example :
    ((ran.last.latches 3).locked ≡ false)
    × (0 + total 4 (λ i. one_if (replies i && names (jobs i) 3))
        ≡ one_if (ran.last.latches 3).transferred)
settled_example = settled jobs-Distinct2 ran.run replies ran-replies 3

ends_example :
    (midway.count ≤ total 4 (λ i. most (jobs i)))
    × ((all_over 4 midway.last.thread ≡ true)
        ⊎ (i : ℕ) × (i < 4) × Moves (act (midway.last.thread i) midway.last.latches))
ends_example = ends jobs-Distinct2 midway.run
