-- ===== src/Mutex/Rounds.antt =====
-- The semaphore's counter under uncontended use of the mutex.
use asio_experiments.Prelude.{ℕ, zero, suc, ◌+◌, ◌≡◌, ◌≤◌, false, [], ◌∷◌, arith}
use asio_experiments.Prelude.Int.{int_max}
use asio_experiments.Semaphore.State.{Handler}
use asio_experiments.Semaphore.Spec
use asio_experiments.Mutex.{finish, Mutex, enter, async_lock, unlock, perform}

-- Nobody holds the mutex or waits for it, and nothing is under way.
pub record AtRest (m : Mutex) : Type 0 where
  pub free : m.locked ≡ false
  pub none_waits : m.semaphore.waiting ≡ []
  pub none_posted : m.semaphore.posted ≡ []
  pub none_ready : m.ready ≡ []

-- The mutex is locked, the completion runs, and the mutex is unlocked.
unfoldable pub round : Handler → Mutex → Mutex
round h m = unlock (perform (finish h) (record (async_lock h m) { ready = [] }))

unfoldable pub rounds : ℕ → Handler → Mutex → Mutex
unfolding round
rounds zero h m = m
rounds (suc n) h m = rounds n h (round h m)

-- The task that the round runs is the one that locking posts.
round-ready : (h : Handler) (m : Mutex) → AtRest m → (async_lock h m).ready ≡ finish h ∷ []
unfolding async_lock enter
round-ready h m v = ground arith

round-AtRest :
    (h : Handler) (m : Mutex)
    → AtRest m
    → AtRest (round h m) × ((round h m).semaphore.count ≡ suc m.semaphore.count)
unfolding round async_lock enter unlock perform Spec.release
round-AtRest h m v = ground arith

-- Each uncontended round of locking and unlocking leaves one more token in the mutex's semaphore:
-- after `n` rounds nothing else has changed, and the counter is higher by `n`, provided that this is
-- not above the largest `int`.
pub rounds-count :
    (n : ℕ) (h : Handler) (m : Mutex)
    → AtRest m
    → m.semaphore.count + n ≤ int_max
    → AtRest (rounds n h m) × ((rounds n h m).semaphore.count ≡ m.semaphore.count + n)
unfolding rounds
rounds-count zero h m v small = (v, omega arith)
rounds-count (suc n) h m v small =
    let (next, up) = round-AtRest h m v in
    let (rest, more) = rounds-count n h (round h m) next (omega arith) in (rest, omega arith)
