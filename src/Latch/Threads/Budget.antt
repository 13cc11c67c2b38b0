-- ===== src/Latch/Threads/Budget.antt =====
-- A thread has a bounded number of actions, so threads on the same latches come to an end.
use asio_experiments.Prelude.{
  ℕ, zero, suc, ◌+◌, ◌*◌, ◌≤◌, ◌≡◌, inl, inr, refl, subst, true, false, ◌||◌, not, Bool-cases, ◌==◌,
  arith,
}
use asio_experiments.Prelude.Sums.{update, update-here, update-apart, total, total-change}
use asio_experiments.Latch.{Latches}
use asio_experiments.Latch.Single.{Choice, commits, rolls_back, leaves, on}
use asio_experiments.Latch.Pair.{both}
use asio_experiments.Latch.Threads.{
  Program, returns, locks, locks_both, unlocks, asks, sets, asserts, Job, single, double, reading,
  reads, completing, blocking, program, begin1, goes_on1, chosen1, commit1, rollback1, destroy1,
  commit, rollback, begin2, goes_on2, chosen2, commit2, rollback2, destroy2, Outcome, finished,
  blocked, fault, moves, act, System, Run, start, action,
}

-- At most `b` actions are left.
abbrev pub Within : Program → ℕ → Type 0
Within (returns a) b = Unit {0}
Within (locks p k) zero = ⊥
Within (locks p k) (suc b) = Within k b
Within (locks_both p q k) zero = ⊥
Within (locks_both p q k) (suc b) = Within k b
Within (unlocks p k) zero = ⊥
Within (unlocks p k) (suc b) = Within k b
Within (asks p k) zero = ⊥
Within (asks p k) (suc b) = Within (k true) b × Within (k false) b
Within (sets p k) zero = ⊥
Within (sets p k) (suc b) = Within k b
Within (asserts c k) zero = ⊥
Within (asserts c k) (suc b) = Within k b

abbrev Left : Outcome → ℕ → Type 0
Left finished b = Unit {0}
Left blocked b = Unit {0}
Left fault b = Unit {0}
Left (moves s k) zero = ⊥
Left (moves s k) (suc b) = Within k b

act-Left : (k : Program) (s : Latches) (b : ℕ) → Within k b → Left (act k s) b
unfolding act
act-Left (returns a) s b w = tt
act-Left (locks p k) s (suc b) w = elim (Bool-cases (s p).locked) [
  | inl e ↦ rw e tt
  | inr e ↦ rw e w
]
act-Left (locks_both p q k) s (suc b) w = elim (Bool-cases ((s p).locked || (s q).locked)) [
  | inl e ↦ rw e tt
  | inr e ↦ rw e w
]
act-Left (unlocks p k) s (suc b) w = elim (Bool-cases (s p).locked) [
  | inl e ↦ rw e w
  | inr e ↦ rw e tt
]
act-Left (asks p k) s (suc b) (w, w') = elim (Bool-cases (not (s p).transferred)) [
  | inl e ↦ rw e w
  | inr e ↦ rw e w'
]
act-Left (sets p k) s (suc b) w = w
act-Left (asserts c k) s (suc b) w = elim (Bool-cases c) [ inl e ↦ rw e w | inr e ↦ rw e tt ]
act-Left (locks p k) s zero w = elim w [ ]
act-Left (locks_both p q k) s zero w = elim w [ ]
act-Left (unlocks p k) s zero w = elim w [ ]
act-Left (asks p k) s zero w = elim w [ ]
act-Left (sets p k) s zero w = elim w [ ]
act-Left (asserts c k) s zero w = elim w [ ]

moved-Within :
    (s : Latches) (k : Program) (b : ℕ) → Left (moves s k) b → (b' : ℕ) × (b ≡ suc b') × Within k b'
moved-Within s k (suc b) w = (b, refl, w)
moved-Within s k zero w = elim w [ ]

module _ (p : ℕ) (k : Program) (b : ℕ) (w : Within k b) where
  commit-Within : Within (commit p k) (suc (suc (suc (suc b))))
  unfolding commit
  commit-Within = (w, w)

  rollback-Within : Within (rollback p k) (suc (suc (suc b)))
  unfolding rollback
  rollback-Within = (w, w)

chosen1-Within : (p : ℕ) (c : Choice) → Within (chosen1 c (on p)) 6
unfolding chosen1 commit1 rollback1 destroy1
chosen1-Within p commits = let w = commit-Within p (returns true) 0 tt in (w, w)
chosen1-Within p rolls_back = rollback-Within p (returns false) 3 tt
chosen1-Within p leaves = rollback-Within p (returns false) 3 tt

chosen2-Within : (p q : ℕ) (c : Choice) → Within (chosen2 c (both p q)) 12
unfolding chosen2 commit2 rollback2 destroy2
chosen2-Within p q commits =
    let w = commit-Within p (commit q (returns true)) 4 (commit-Within q (returns true) 0 tt) in
    ((w, w), (w, w))
chosen2-Within p q rolls_back =
    rollback-Within p (rollback q (returns false)) 9 (rollback-Within q (returns false) 6 tt)
chosen2-Within p q leaves =
    rollback-Within p (rollback q (returns false)) 9 (rollback-Within q (returns false) 6 tt)

-- At most so many actions.
abbrev pub most : Job → ℕ
most (single p c) = 8
most (double p q c) = 15
most (reading p n) = 8 + 5 * n

abbrev rounds : ℕ → ℕ
rounds zero = 8
rounds (suc n) = suc (suc (suc (suc (suc (rounds n)))))

rounds_lem : (n : ℕ) → rounds n ≡ 8 + 5 * n
rounds_lem zero = refl
rounds_lem (suc n) = omega (arith, rounds_lem n)

reads-Within : (n p : ℕ) → Within (reads n p) (rounds n)
unfolding reads completing blocking begin1 commit1 rollback1 destroy1
reads-Within zero p = let w = commit-Within p (returns true) 0 tt in ((w, w), tt)
reads-Within (suc n) p = (rollback-Within p (reads n p) (rounds n) (reads-Within n p), tt)

program-Within : (j : Job) → Within (program j) (most j)
unfolding program begin1 goes_on1 begin2 goes_on2 rollback1 destroy1 rollback2 destroy2
program-Within (single p c) = (chosen1-Within p c, tt)
program-Within (double p q c) = ((chosen2-Within p q c, tt), tt)
program-Within (reading p n) = subst (Within (reads n p)) (rounds_lem n) (reads-Within n p)

-- What is left of the threads, with what they have done, is no more than they had to do.
record Budget (n : ℕ) (job : ℕ → Job) (s : System) (m : ℕ) : Type 0 where
  left : ℕ → ℕ
  within : (i : ℕ) → Within (s.thread i) (left i)
  spent : m + total n left ≡ total n (λ i. most (job i))

Run-Budget :
    {n : ℕ} {job : ℕ → Job} {l : Latches} {s : System} {m : ℕ} → Run n job l s m → Budget n job s m
Run-Budget {n} {job} (start free) = record {
  left = λ i. most (job i);
  within = λ i. program-Within (job i);
  spent = omega arith;
}
Run-Budget {n} (action {s} {m} r i lt {l'} {k} e) =
    let v = Run-Budget r in
    let (b, q, w) = moved-Within l' k (v.left i) (
      subst (λ a. Left a (v.left i)) e (act-Left (s.thread i) s.latches (v.left i) (v.within i))) in
    record {
      left = update v.left i b;
      within = λ j. elim (Bool-cases (j == i)) [
        | inl same ↦ rw same w
        | inr apart ↦ rw apart (v.within j)
      ];
      spent = omega (
        arith,
        v.spent,
        q,
        update-here v.left i b,
        total-change n i v.left (update v.left i b) lt (update-apart v.left i b),
      );
    }

-- However the threads are scheduled, there are no more actions than they have to do.
pub Run-bound :
    {n : ℕ} {job : ℕ → Job} {l : Latches} {s : System} {m : ℕ}
    → Run n job l s m
    → m ≤ total n (λ i. most (job i))
Run-bound r = omega (arith, (Run-Budget r).spent)
