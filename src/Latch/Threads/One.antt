-- ===== src/Latch/Threads/One.antt =====
-- The rules are kept by transactions on one latch, and by atomic reads.
use asio_experiments.Prelude.{
  ℕ, zero, ◌≡◌, inl, inr, refl, suc, Bool, true, false, none, some, arith,
}
use asio_experiments.Latch.{Transaction1}
use asio_experiments.Latch.Single.{Choice, commits, rolls_back, leaves, on, ended}
use asio_experiments.Latch.Threads.{
  Program, returns, asks, Job, single, reading, begun1, begin1, rollback1, commit1, destroy1,
  chosen1, goes_on1, completing, blocking, reads, program,
}
use asio_experiments.Latch.Threads.Owned.{
  Owner, newcomer, hold, find, KeepsRules, commit-KeepsRules, rollback-KeepsRules,
}

-- Nothing is held, and nothing has been written.
abbrev pub Fresh : Owner → Type 0
Fresh o = ((r : ℕ) → o.held r ≡ none) × ((r : ℕ) → o.wrote r ≡ 0)

module _ (j : Job) (p : ℕ) (o : Owner) (u : Fresh o) where
  -- After the lock of an open latch, and after that of one that is transferred.
  abbrev one_held : Owner
  one_held = hold p (some false) o

  abbrev turned_away : Owner
  turned_away = hold p none (find p true (hold p (some true) o))

  one_held-here : one_held.held p ≡ some false
  one_held-here = ground arith

  begin1-KeepsRules :
      (k : Transaction1 → Program)
      → KeepsRules j (k (on p)) one_held
      → KeepsRules j (k ended) turned_away
      → KeepsRules j (begin1 p k) o
  unfolding begin1
  begin1-KeepsRules k able closed = (u.0, known)
    where
      known : (b : Bool) → KeepsRules j (asks p (begun1 p k)) (hold p (some b) o)
      known true = (true, ground arith, (true, ground arith, closed))
      known false = (false, one_held-here, able)

chosen1-KeepsRules :
    (p : ℕ) (c : Choice) → KeepsRules (single p c) (chosen1 c (on p)) (hold p (some false) newcomer)
unfolding chosen1 commit1 rollback1 destroy1
chosen1-KeepsRules p commits = (
  false,
  ground arith,
  (
    refl,
    commit-KeepsRules (single p commits) p (returns true) (hold p (some false) newcomer)
        (ground arith) (λ r. ground arith, λ r. ground arith, inl refl),
  ),
)
chosen1-KeepsRules p rolls_back =
    rollback-KeepsRules (single p rolls_back) p (returns false) (hold p (some false) newcomer)
      (ground arith) (λ r. ground arith, λ r. refl, inl refl)
chosen1-KeepsRules p leaves =
    rollback-KeepsRules (single p leaves) p (returns false) (hold p (some false) newcomer)
      (ground arith) (λ r. ground arith, λ r. refl, inl refl)

pub single-KeepsRules :
    (p : ℕ) (c : Choice) → KeepsRules (single p c) (program (single p c)) newcomer
unfolding program goes_on1 destroy1 rollback1
single-KeepsRules p c =
    begin1-KeepsRules (single p c) p newcomer (λ r. refl, λ r. refl) (goes_on1 c)
      (chosen1-KeepsRules p c) (λ r. ground arith, λ r. refl, inr (refl, p, refl, ground arith))

pub reads-KeepsRules : (p m n : ℕ) (o : Owner) → Fresh o → KeepsRules (reading p m) (reads n p) o
unfolding reads completing blocking commit1 rollback1 destroy1
reads-KeepsRules p m zero o u =
    begin1-KeepsRules (reading p m) p o u completing
      (
        false,
        ground arith,
        (
          refl,
          commit-KeepsRules (reading p m) p (returns true) (hold p (some false) o) (ground arith)
              (λ r. ground (arith, u.0 r), λ r. ground (arith, u.1 r), inl refl),
        ),
      )
      (λ r. ground (arith, u.0 r), u.1, inr (refl, p, refl, ground arith))
reads-KeepsRules p m (suc n) o u =
    begin1-KeepsRules (reading p m) p o u (blocking (reads n p))
      (rollback-KeepsRules (reading p m) p (reads n p) (hold p (some false) o) (ground arith) (
        reads-KeepsRules p m n (hold p none (hold p (some false) o))
          (λ r. ground (arith, u.0 r), u.1)))
      (λ r. ground (arith, u.0 r), u.1, inr (refl, p, refl, ground arith))
