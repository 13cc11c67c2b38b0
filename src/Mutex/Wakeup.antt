-- ===== src/Mutex/Wakeup.antt =====
-- Nobody is left waiting at a free mutex, and what unlocking does to the semaphore's counter.
use asio_experiments.Prelude.{
  ℕ, ◌≡◌, ◌≢◌, refl, ap, sym, ◌∙◌, Bool, true, false, not, ◌||◌, ◌⊎◌, inl, inr, List, [], ◌∷◌, ◌++◌,
  map-append, middle-ne-nil, arith,
}
use asio_experiments.ErrorCode.{ErrorCode, success, failed}
use asio_experiments.Semaphore.State.{Handler, WaitOp}
use asio_experiments.Semaphore.Spec
use asio_experiments.Semaphore.Spec.{Spec, give, take_token}
use asio_experiments.Mutex.{
  Task, resume, finish, Mutex, make, with_semaphore, enter, async_lock, unlock, try_lock, perform,
  cancel,
}
use asio_experiments.Mutex.Exclusion.{
  Run, start, locking, unlocking, trying, performing, cancelling,
}

-- A task that goes on with success.
abbrev pub wakes : Task → Bool
wakes (resume h ec) = not (failed ec)
wakes (finish h) = false

abbrev pub awake : List Task → Bool
awake [] = false
awake (t ∷ ts) = wakes t || awake ts

awake-append : (xs ys : List Task) → awake (xs ++ ys) ≡ (awake xs || awake ys)
awake-append [] ys = refl
awake-append (x ∷ xs) ys = ground (arith, awake-append xs ys)

-- Nobody waits at a free mutex, or one who waited is about to run.
abbrev IsAwake : Mutex → Type 0
IsAwake m = m.locked ≡ false → (m.semaphore.waiting ≡ []) ⊎ (awake m.ready ≡ true)

enter-IsAwake :
    (h : Handler) (d : Bool) (ec : ErrorCode) (m : Mutex)
    → (failed ec ≡ true → IsAwake m)
    → IsAwake (enter h d ec m)
unfolding enter
enter-IsAwake h d ec m v = ground (arith, v)

perform-IsAwake :
    (before : List Task) (t : Task) (after : List Task) (m : Mutex)
    → m.ready ≡ before ++ (t ∷ after)
    → IsAwake m
    → IsAwake (perform t (record m { ready = before ++ after }))
unfolding perform
perform-IsAwake before (resume h ec) after m e v =
    enter-IsAwake h true ec (record m { ready = before ++ after })
      (λ f. λ u. ground (
        arith,
        v u,
        ap awake e,
        awake-append before after,
        awake-append before (resume h ec ∷ after),
      ))
perform-IsAwake before (finish h) after m e v = λ u.
    ground
      (arith, v u, ap awake e, awake-append before after, awake-append before (finish h ∷ after))

give-IsAwake :
    (ws : List WaitOp) (a : Spec) (m : Mutex)
    → a.waiting ≡ ws
    → IsAwake (with_semaphore m (give ws a))
give-IsAwake [] a m e = λ u. inl e
give-IsAwake (w ∷ ws) a m e = λ u. inr (rw (map-append, awake-append, awake-append) (ground arith))

unlock-IsAwake : (m : Mutex) → IsAwake (unlock m)
unfolding unlock Spec.release
unlock-IsAwake m = give-IsAwake m.semaphore.waiting m.semaphore (record m { locked = false }) refl

cancel-IsAwake :
    (before : List WaitOp) (w : WaitOp) (behind : List WaitOp) (m : Mutex)
    → m.semaphore.waiting ≡ before ++ (w ∷ behind)
    → IsAwake m
    → IsAwake (cancel before w behind m)
unfolding cancel Spec.abort
cancel-IsAwake before w behind m e v = λ u. elim (v u) [
  | inl gone ↦ absurd (middle-ne-nil before w behind (sym e ∙ gone))
  | inr a ↦ inr (rw awake-append (ground arith))
]

Run-IsAwake : (exec : ℕ) {m : Mutex} {n : ℕ} → Run exec m n → IsAwake m
unfolding make async_lock try_lock
Run-IsAwake exec (start host) = λ u. inl refl
Run-IsAwake exec (locking {m} r h) = enter-IsAwake h false success m (λ f. cc)
Run-IsAwake exec (unlocking {m} r held) = unlock-IsAwake m
Run-IsAwake exec (trying {m} r) = λ u. cc
Run-IsAwake exec (performing {m} r before t after e) =
    perform-IsAwake before t after m e (Run-IsAwake exec r)
Run-IsAwake exec (cancelling {m} r before w behind e c) =
    cancel-IsAwake before w behind m e (Run-IsAwake exec r)

-- A task of the list, with what stands before and behind it.
pub record Wakes (m : Mutex) : Type 0 where
  pub before : List Task
  pub handler : Handler
  pub behind : List Task
  pub ready : m.ready ≡ before ++ (resume handler success ∷ behind)

Wakes-cons :
    (t : Task) (ts : List Task) (m : Mutex)
    → Wakes (record m { ready = ts })
    → Wakes (record m { ready = t ∷ ts })
Wakes-cons t ts m w = record {
  before = t ∷ w.before;
  handler = w.handler;
  behind = w.behind;
  ready = ap (◌∷◌ t) w.ready;
}

awake-Wakes : (ts : List Task) (m : Mutex) → awake ts ≡ true → Wakes (record m { ready = ts })
awake-Wakes [] m a = cc
awake-Wakes (resume h success ∷ ts) m a = record {
  before = [];
  handler = h;
  behind = ts;
  ready = refl;
}
awake-Wakes (t ∷ ts) m a = Wakes-cons t ts m (awake-Wakes ts m (ground arith))

-- The lock is granted to the handler `h`.
pub record Granted (h : Handler) (m m' : Mutex) : Type 0 where
  pub locked : m'.locked ≡ true
  pub told : m'.completed ≡ m.completed ++ ((h, success) ∷ [])
  pub semaphore : m'.semaphore ≡ m.semaphore

resume-Granted :
    (h : Handler) (m : Mutex) → m.locked ≡ false → Granted h m (perform (resume h success) m)
unfolding perform enter
resume-Granted h m e = ground arith

-- Whenever operations wait at a free mutex, one that has waited is ready to run, and is granted the
-- lock if it is the next to run: no unlock is lost, whatever is cancelled.
pub Run-Wakes :
    (exec : ℕ) {m : Mutex} {n : ℕ}
    → Run exec m n
    → m.locked ≡ false
    → m.semaphore.waiting ≢ []
    → (w : Wakes m) × Granted w.handler m
        (perform (resume w.handler success) (record m { ready = w.before ++ w.behind }))
Run-Wakes exec {m} r u waits = elim (Run-IsAwake exec r u) [
  | inl gone ↦ absurd (waits gone)
  | inr a ↦
      let w = awake-Wakes m.ready m a in
      let g = resume-Granted w.handler (record m { ready = w.before ++ w.behind }) u in
      (w, record { locked = g.locked; told = g.told; semaphore = g.semaphore })
]
