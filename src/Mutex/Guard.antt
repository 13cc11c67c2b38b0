-- ===== src/Mutex/Guard.antt =====
-- `try_lock` and the lock guards.
use asio_experiments.Prelude.{◌+◌, ℕ, suc, ◌≡◌, refl, true, false, none, List, [], ◌∷◌, arith}
use asio_experiments.ErrorCode.{ErrorCode, success}
use asio_experiments.Semaphore.State.{Handler, Post}
use asio_experiments.Semaphore.Spec
use asio_experiments.Semaphore.Spec.{Spec}
use asio_experiments.Mutex.{Task, resume, finish, Mutex, try_lock, guard_of}
use asio_experiments.Mutex.Exclusion.{Run, trying, grants, one_if, Run-exclusive}

-- `try_lock` answers the wrong way round: in every state that can be reached, it returns true
-- exactly if another holds the lock (which has been granted once more than given back), and false
-- if the caller has just taken the free lock. Either way the mutex is locked afterwards, in a state
-- that can be reached.
pub try_lock_inverted :
    (exec : ℕ) {m : Mutex} {n : ℕ}
    → Run exec m n
    → ((try_lock m).0 ≡ true → grants m ≡ suc n)
      × ((try_lock m).0 ≡ false → grants m ≡ n)
      × ((try_lock m).1.locked ≡ true)
      × Run exec (try_lock m).1 n
unfolding try_lock
try_lock_inverted exec {m} r = (
  λ e. ground (arith, Run-exclusive exec r),
  λ e. ground (arith, Run-exclusive exec r),
  refl,
  trying r,
)

-- An operation that nothing can cancel does not fail.
abbrev Succeeds : Handler → ErrorCode → Type 0
Succeeds h ec = h.slot ≡ none → ec ≡ success

abbrev Told : List (Handler × ErrorCode) → Type 0
Told [] = Unit {0}
Told ((h, ec) ∷ cs) = Succeeds h ec × Told cs

abbrev Due : List Task → Type 0
Due [] = Unit {0}
Due (resume h ec ∷ ts) = Succeeds h ec × Due ts
Due (finish h ∷ ts) = Due ts

abbrev Posts : List Post → Type 0
Posts [] = Unit {0}
Posts (c ∷ cs) = Succeeds c.handler c.code × Posts cs

-- The task in the middle, and the list without it.
abbrev DueTask : Task → Type 0
DueTask t = Due (t ∷ [])

record NoneFails (m : Mutex) : Type 0 where
  told : Told m.completed
  due : Due m.ready
  drained : m.semaphore.posted ≡ []

-- The completed lock operations are those of `async_guard`, the guards that it has made own the mutex,
-- and its callers have been told no error.
abbrev pub OfGuards : List (Handler × ErrorCode) → Type 0
OfGuards [] = Unit {0}
OfGuards ((h, ec) ∷ cs) = (h.slot ≡ none) × OfGuards cs

abbrev pub owners : List (Handler × ErrorCode) → ℕ
owners [] = 0
owners (c ∷ cs) = one_if (guard_of c).1.owns + owners cs

abbrev pub NoErrors : List (Handler × ErrorCode) → Type 0
NoErrors [] = Unit {0}
NoErrors (c ∷ cs) = ((guard_of c).0 ≡ success) × NoErrors cs
