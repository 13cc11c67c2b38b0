-- ===== src/Mutex/Exclusion.antt =====
-- At most one lock operation holds the mutex.
use asio_experiments.Prelude.{
  some, ℕ, suc, ◌+◌, ◌<◌, ◌≡◌, refl, Bool, true, false, List, [], ◌∷◌, ◌++◌, map, arith,
  if◌then◌else◌, ap,
}
use asio_experiments.ErrorCode.{ErrorCode, success, failed}
use asio_experiments.Semaphore.State.{Handler, WaitOp, Post}
use asio_experiments.Semaphore.Spec
use asio_experiments.Semaphore.Spec.{Spec, give, take_token}
use asio_experiments.Mutex.{
  Task, resume, finish, Mutex, make, resumption, with_semaphore, lock_op, enter, async_lock, unlock,
  try_lock, perform, cancel,
}

-- The lock operations that have completed with success.
abbrev pub locks : List (Handler × ErrorCode) → ℕ
locks [] = 0
locks ((h, ec) ∷ cs) = if failed ec then locks cs else suc (locks cs)

-- Those that have taken the lock and are about to complete.
abbrev pub finishing : List Task → ℕ
finishing [] = 0
finishing (resume h ec ∷ ts) = finishing ts
finishing (finish h ∷ ts) = suc (finishing ts)

abbrev pub one_if : Bool → ℕ
one_if true = 1
one_if false = 0

-- How often the lock has been granted.
abbrev pub grants : Mutex → ℕ
grants m = locks m.completed + finishing m.ready + m.tried

locks-append : (xs ys : List (Handler × ErrorCode)) → locks (xs ++ ys) ≡ locks xs + locks ys
locks-append [] ys = omega arith
locks-append ((h, ec) ∷ xs) ys = ground (arith, locks-append xs ys)

finishing-append : (xs ys : List Task) → finishing (xs ++ ys) ≡ finishing xs + finishing ys
finishing-append [] ys = omega arith
finishing-append (resume h ec ∷ xs) ys = finishing-append xs ys
finishing-append (finish h ∷ xs) ys = omega (arith, finishing-append xs ys)

finishing-resumption : (cs : List Post) → finishing (map resumption cs) ≡ 0
finishing-resumption [] = refl
finishing-resumption (c ∷ cs) = finishing-resumption cs

-- What the semaphore does grants nothing.
grants-with_semaphore : (m : Mutex) (a : Spec) → grants (with_semaphore m a) ≡ grants m
grants-with_semaphore m a =
    omega (arith, finishing-append m.ready (map resumption a.posted), finishing-resumption a.posted)

-- An operation that enters is granted the lock exactly if it changes hands.
grants-enter :
    (h : Handler) (d : Bool) (ec : ErrorCode) (m : Mutex)
    → grants (enter h d ec m) + one_if m.locked ≡ grants m + one_if (enter h d ec m).locked
unfolding enter
grants-enter h d ec m = ground (
  arith,
  grants-with_semaphore m (Spec.acquire (lock_op m h) m.semaphore),
  locks-append m.completed ((h, ec) ∷ []),
  finishing-append m.ready (finish h ∷ []),
)

-- The states of a mutex under any calls and any order of the tasks, with the number of unlocks. Only
-- who has been told that the lock is held, or has taken it by `try_lock`, unlocks it, and only an
-- operation whose handler has a cancellation slot is cancelled.
pub data Run (exec : ℕ) : Mutex → ℕ → Type 0 where
  start : (host : ℕ) → Run exec (make host exec) 0
  locking : {m : Mutex} {n : ℕ} → Run exec m n → (h : Handler) → Run exec (async_lock h m) n
  unlocking :
      {m : Mutex} {n : ℕ}
      → Run exec m n
      → n < locks m.completed + m.tried
      → Run exec (unlock m) (suc n)
  trying : {m : Mutex} {n : ℕ} → Run exec m n → Run exec (try_lock m).1 n
  performing :
      {m : Mutex} {n : ℕ}
      → Run exec m n
      → (before : List Task) (t : Task) (after : List Task) → m.ready ≡ before ++ (t ∷ after)
      → Run exec (perform t (record m { ready = before ++ after })) n
  cancelling :
      {m : Mutex} {n : ℕ}
      → Run exec m n
      → (before : List WaitOp) (w : WaitOp) (behind : List WaitOp)
      → m.semaphore.waiting ≡ before ++ (w ∷ behind)
      → {k : ℕ} → w.handler.slot ≡ some k
      → Run exec (cancel before w behind m) n

grants-perform :
    (before : List Task) (t : Task) (after : List Task) (m : Mutex)
    → m.ready ≡ before ++ (t ∷ after)
    → let m' = perform t (record m { ready = before ++ after }) in
      grants m' + one_if m.locked ≡ grants m + one_if m'.locked
unfolding perform
grants-perform before (resume h ec) after m e = omega (
  arith,
  grants-enter h true ec (record m { ready = before ++ after }),
  ap finishing e,
  finishing-append before after,
  finishing-append before (resume h ec ∷ after),
)
grants-perform before (finish h) after m e = ground (
  arith,
  ap finishing e,
  finishing-append before after,
  finishing-append before (finish h ∷ after),
  locks-append m.completed ((h, success) ∷ []),
)

pub grants-unlock : (m : Mutex) → (grants (unlock m) ≡ grants m) × ((unlock m).locked ≡ false)
unfolding unlock
grants-unlock m =
    (grants-with_semaphore (record m { locked = false }) (Spec.release m.semaphore), refl)

grants-cancel :
    (before : List WaitOp) (w : WaitOp) (behind : List WaitOp) (m : Mutex)
    → (grants (cancel before w behind m) ≡ grants m)
      × ((cancel before w behind m).locked ≡ m.locked)
unfolding cancel
grants-cancel before w behind m =
    (grants-with_semaphore m (Spec.abort before w behind m.semaphore), refl)

pub grants-try_lock :
    (m : Mutex)
    → (grants (try_lock m).1 + one_if m.locked ≡ suc (grants m)) × ((try_lock m).1.locked ≡ true)
unfolding try_lock
grants-try_lock m = ground arith

-- However lock operations, their cancellations, unlocks by holders, calls of `try_lock` and the executors' tasks follow
-- one another, the lock has been granted exactly once more than it has been given back while it is
-- locked, and as often while it is not: it never has two holders.
pub Run-exclusive : (exec : ℕ) {m : Mutex} {n : ℕ} → Run exec m n → grants m ≡ n + one_if m.locked
unfolding make async_lock
Run-exclusive exec (start host) = refl
Run-exclusive exec (locking {m} r h) =
    omega (arith, Run-exclusive exec r, grants-enter h false success m)
Run-exclusive exec (unlocking {m} r held) = ground (arith, Run-exclusive exec r, grants-unlock m)
Run-exclusive exec (trying {m} r) = ground (arith, Run-exclusive exec r, grants-try_lock m)
Run-exclusive exec (performing {m} r before t after e) =
    omega (arith, Run-exclusive exec r, grants-perform before t after m e)
Run-exclusive exec (cancelling {m} r before w behind e c) =
    ground (arith, Run-exclusive exec r, grants-cancel before w behind m)
