-- ===== src/Latch/Threads.antt =====
-- include/asioex/impl/transaction.hpp, basic_transfer_latch.hpp and impl/async_read_some.hpp: threads
-- that begin, commit and roll back transactions at the same time, one access to a latch or a mutex at a
-- time.
pub mod Owned
pub mod One
pub mod Both
pub mod Actions
pub mod Invariant
pub mod Safety
pub mod Budget
pub mod Progress
pub mod Alone
mod Tests
use asio_experiments.Prelude.{
  ℕ, ◌≡◌, ◌<◌, zero, suc, Bool, true, false, not, ◌||◌, Option, none, some, ◌==◌, if◌then◌else◌,
}
use asio_experiments.Prelude.Sums.{update}
use asio_experiments.Latch.{
  Latch, Latches, put, Transaction1, may_commit1, Transaction2, no_transaction, may_commit2,
}
use asio_experiments.Latch.Single.{Choice, commits, rolls_back, leaves, wants, on, ended}
use asio_experiments.Latch.Pair.{both}

-- What is left of a thread: it returns whether it has committed; calls `lock` of a latch's mutex,
-- `std::lock` of two, or `unlock`; reads or sets `transferred_`; or makes an assertion.
pub data Program : Type 0 where
  returns : Bool → Program
  locks : ℕ → Program → Program
  locks_both : ℕ → ℕ → Program → Program
  unlocks : ℕ → Program → Program
  asks : ℕ → (Bool → Program) → Program
  sets : ℕ → Program → Program
  asserts : Bool → Program → Program

-- Each function takes what the thread does afterwards; `asks` passes on `may_commit()`.
unfoldable pub commit : ℕ → Program → Program
commit p k = asks p λ able. asserts able (sets p (unlocks p k))

unfoldable pub rollback : ℕ → Program → Program
rollback p k = asks p λ able. asserts able (unlocks p k)

abbrev pub begun1 : ℕ → (Transaction1 → Program) → Bool → Program
begun1 p k true = k (on p)
begun1 p k false = unlocks p (k ended)

unfoldable pub begin1 : ℕ → (Transaction1 → Program) → Program
begin1 p k = locks p (asks p (begun1 p k))

unfoldable pub rollback1 : Transaction1 → (Transaction1 → Program) → Program
unfolding rollback
rollback1 t k = elim t.latch [ none ↦ k ended | some p ↦ rollback p (k ended) ]

unfoldable pub commit1 : Transaction1 → (Transaction1 → Program) → Program
unfolding commit
commit1 t k = elim t.latch [
  | none ↦ asserts false (k ended)
  | some p ↦ asks p (λ able. asserts able (commit p (k ended)))
]

-- `~transaction1`
unfoldable pub destroy1 : Transaction1 → Program → Program
unfolding rollback1
destroy1 t k = rollback1 t (λ t'. k)

-- Both latches are held, and the first is open; is the second?
abbrev pub begun_second : ℕ → ℕ → (Transaction2 → Program) → Bool → Program
begun_second p q k true = k (both p q)
begun_second p q k false = unlocks p (unlocks q (k no_transaction))

abbrev pub begun2 : ℕ → ℕ → (Transaction2 → Program) → Bool → Program
begun2 p q k true = asks q (begun_second p q k)
begun2 p q k false = unlocks p (unlocks q (k no_transaction))

unfoldable pub begin2 : ℕ → ℕ → (Transaction2 → Program) → Program
begin2 p q k = locks_both p q (asks p (begun2 p q k))

-- A call through a pointer; through a null pointer it is a fault.
abbrev pub through : Option ℕ → (ℕ → Program → Program) → Program → Program
through none f k = asserts false k
through (some p) f k = f p k

unfoldable pub rollback2 : Transaction2 → (Transaction2 → Program) → Program
unfolding rollback
rollback2 t k = elim t.latch1 [
  | none ↦ k t
  | some p ↦ rollback p (through t.latch2 rollback (k no_transaction))
]

abbrev pub assert_able : ℕ → Program → Program
assert_able p k = asks p λ able. asserts able k

unfoldable pub commit2 : Transaction2 → (Transaction2 → Program) → Program
unfolding commit
commit2 t k = through t.latch1 assert_able (
    through t.latch2 assert_able
      (through t.latch1 commit (through t.latch2 commit (k no_transaction))))

-- `~transaction2`
unfoldable pub destroy2 : Transaction2 → Program → Program
unfolding rollback2
destroy2 t k = rollback2 t (λ t'. k)

-- What a thread is for: a transaction on one latch or on two, and its choice; or an atomic read that
-- finds nothing to read so many times before there is something, or its wait fails.
pub data Job : Type 0 where
  single : ℕ → Choice → Job
  double : ℕ → ℕ → Choice → Job
  reading : ℕ → ℕ → Job

-- What a thread does with its transaction if it may commit.
unfoldable pub chosen1 : Choice → Transaction1 → Program
unfolding commit1 rollback1 destroy1
chosen1 commits t = commit1 t λ t'. destroy1 t' (returns true)
chosen1 rolls_back t = rollback1 t λ t'. destroy1 t' (returns false)
chosen1 leaves t = destroy1 t (returns false)

unfoldable pub chosen2 : Choice → Transaction2 → Program
unfolding commit2 rollback2 destroy2
chosen2 commits t = commit2 t λ t'. destroy2 t' (returns true)
chosen2 rolls_back t = rollback2 t λ t'. destroy2 t' (returns false)
chosen2 leaves t = destroy2 t (returns false)

unfoldable pub goes_on1 : Choice → Transaction1 → Program
unfolding chosen1
goes_on1 c t = if may_commit1 t then chosen1 c t else destroy1 t (returns false)

unfoldable pub goes_on2 : Choice → Transaction2 → Program
unfolding chosen2
goes_on2 c t = if may_commit2 t then chosen2 c t else destroy2 t (returns false)

-- The body of `atomic_read_op` once it has begun its transaction: where it completes, and where
-- `read_some` would block. It replies whether it completes otherwise than with `completion_denied`.
unfoldable pub completing : Transaction1 → Program
unfolding commit1 rollback1 destroy1
completing trans =
    if not (may_commit1 trans)
    then rollback1 trans (λ t'. destroy1 t' (returns false))
    else commit1 trans (λ t'. destroy1 t' (returns true))

unfoldable pub blocking : Program → Transaction1 → Program
unfolding rollback1 destroy1
blocking again trans =
    if not (may_commit1 trans)
    then rollback1 trans (λ t'. destroy1 t' (returns false))
    else rollback1 trans (λ t'. destroy1 t' again)

-- The body, by the number of waits after which `read_some` would block.
unfoldable pub reads : ℕ → ℕ → Program
unfolding begin1 completing blocking
reads zero p = begin1 p completing
reads (suc n) p = begin1 p (blocking (reads n p))

unfoldable pub program : Job → Program
unfolding begin1 goes_on1 begin2 goes_on2 reads
program (single p c) = begin1 p (goes_on1 c)
program (double p q c) = begin2 p q (goes_on2 c)
program (reading p n) = reads n p

-- What one action of a thread comes to. A failed assertion is a fault, and so is the unlocking of a
-- mutex that is not locked.
pub data Outcome : Type 0 where
  finished blocked fault : Outcome
  moves : Latches → Program → Outcome

unfoldable pub act : Program → Latches → Outcome
act (returns b) s = finished
act (locks p k) s =
    if (s p).locked then blocked else moves (put s p (record (s p) { locked = true })) k
act (locks_both p q k) s =
    if (s p).locked || (s q).locked
    then blocked
    else (let s' = put s p (record (s p) { locked = true }) in
        moves (put s' q (record (s' q) { locked = true })) k)
act (unlocks p k) s =
    if (s p).locked then moves (put s p (record (s p) { locked = false })) k else fault
act (asks p k) s = moves s (k (not (s p).transferred))
act (sets p k) s = moves (put s p (record (s p) { transferred = true })) k
act (asserts c k) s = if c then moves s k else fault

-- The latches, and what is left of each thread by its number.
pub record System : Type 0 where
  pub latches : Latches
  pub thread : ℕ → Program

-- The states of `n` threads with the jobs `job` on latches that nobody holds, whatever order the
-- scheduler lets them act in, with how many actions there have been.
pub data Run (n : ℕ) (job : ℕ → Job) (l : Latches) : System → ℕ → Type 0 where
  start :
      ((p : ℕ) → (l p).locked ≡ false)
      → Run n job l (record { latches = l; thread = λ i. program (job i) }) 0
  action :
      {s : System} {m : ℕ}
      → Run n job l s m
      → (i : ℕ) → i < n
      → {l' : Latches} {k : Program} → act (s.thread i) s.latches ≡ moves l' k
      → Run n job l (record { latches = l'; thread = update s.thread i k }) (suc m)
