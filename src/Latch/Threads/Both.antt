-- ===== src/Latch/Threads/Both.antt =====
-- The rules are kept by transactions on two latches, and so by every job.
use asio_experiments.Prelude.{ℕ, ◌≡◌, inl, inr, refl, Bool, true, false, none, some, ◌==◌, arith}
use asio_experiments.Latch.Single.{Choice, commits, rolls_back, leaves, wants}
use asio_experiments.Latch.Pair.{both}
use asio_experiments.Latch.Threads.{
  returns, asks, Job, single, double, reading, commit, rollback, begun2, begin2, rollback2, commit2,
  destroy2, chosen2, goes_on2, program,
}
use asio_experiments.Latch.Threads.One.{single-KeepsRules, reads-KeepsRules}
use asio_experiments.Latch.Threads.Owned.{
  Owner, newcomer, hold, write, KeepsRules, Distinct2, commit-KeepsRules, rollback-KeepsRules,
}

module _ (p q : ℕ) (d : (p == q) ≡ false) where
  -- Both latches are held; `a` and `b` say whether they are transferred.
  abbrev known : Bool → Bool → Owner
  known a b = hold q (some b) (hold p (some a) newcomer)

  -- The first is given back.
  abbrev one_left : Owner
  one_left = hold p none (known false false)

  abbrev one_written : Owner
  one_written = hold p none (write p (known false false))

  left : (a b : Bool) → (known a b).held p ≡ some a
  left a b = ground arith

  right : (a b : Bool) → (known a b).held q ≡ some b
  right a b = ground arith

  rolls_back-KeepsRules :
      (c : Choice)
      → (false ≡ wants c)
      → KeepsRules (double p q c) (rollback p (rollback q (returns false))) (known false false)
  rolls_back-KeepsRules c e =
      rollback-KeepsRules (double p q c) p (rollback q (returns false)) (known false false)
        (left false false)
        (rollback-KeepsRules (double p q c) q (returns false) one_left (ground arith)
          (λ r. ground arith, λ r. refl, inl e))

  chosen2-KeepsRules :
      (c : Choice) → KeepsRules (double p q c) (chosen2 c (both p q)) (known false false)
  unfolding chosen2 commit2 rollback2 destroy2
  chosen2-KeepsRules commits =
      let j = double p q commits in
      let written =
        commit-KeepsRules j p (commit q (returns true)) (known false false) (left false false) (
          commit-KeepsRules j q (returns true) one_written (ground arith)
            (λ r. ground arith, λ r. ground arith, inl refl)) in
      (false, left false false, (refl, (false, right false false, (refl, written))))
  chosen2-KeepsRules rolls_back = rolls_back-KeepsRules rolls_back refl
  chosen2-KeepsRules leaves = rolls_back-KeepsRules leaves refl

  begun-KeepsRules :
      (c : Choice) (a b : Bool)
      → KeepsRules (double p q c) (asks p (begun2 p q (goes_on2 c))) (known a b)
  unfolding goes_on2 destroy2 rollback2
  begun-KeepsRules c true b = (
    true,
    left true b,
    (
      true,
      ground arith,
      (b, ground arith, (λ r. ground arith, λ r. refl, inr (refl, p, refl, ground arith))),
    ),
  )
  begun-KeepsRules c false true = (
    false,
    left false true,
    (
      true,
      right false true,
      (
        false,
        ground arith,
        (true, ground arith, (λ r. ground arith, λ r. refl, inr (refl, q, refl, ground arith))),
      ),
    ),
  )
  begun-KeepsRules c false false =
      (false, left false false, (false, right false false, chosen2-KeepsRules c))

-- Every thread keeps to the rules from its beginning.
pub program-KeepsRules : (j : Job) → Distinct2 j → KeepsRules j (program j) newcomer
unfolding program begin2
program-KeepsRules (single p c) d = single-KeepsRules p c
program-KeepsRules (reading p n) d = reads-KeepsRules p n n newcomer (λ r. refl, λ r. refl)
program-KeepsRules (double p q c) d = (d, λ r. refl, begun-KeepsRules p q d c)
