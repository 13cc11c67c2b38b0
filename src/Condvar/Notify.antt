-- ===== src/Condvar/Notify.antt =====
-- What notifications come to: none is lost, and none wakes more than one.
use asio_experiments.Prelude.{
  ℕ, zero, suc, ◌+◌, ◌≡◌, ◌≢◌, refl, ap, ◌∙◌, Bool, true, false, ◌⊎◌, inl, inr, Option,
  Option-cases, List, [], ◌∷◌, ◌++◌, map, length, arith, if◌then◌else◌, middle-ne-nil,
}
use asio_experiments.ErrorCode.{ErrorCode, success, operation_aborted, failed}
use asio_experiments.Semaphore.State.{Handler, WaitOp, Post, completion}
use asio_experiments.Semaphore.Spec
use asio_experiments.Semaphore.Spec.{Spec, give, take_token, completions}
use asio_experiments.Condvar.{
  Task, resume, finish, Condvar, make, resumption, with_semaphore, wait_op, acquire, complete,
  async_wait, enter, notify_one, notify_all, cancel, begin_wait, perform,
}

-- Whether a task is a wake-up.
abbrev pub wakes : Task → ℕ
wakes (resume h ec) = if failed ec then 0 else 1
wakes (finish h) = 0

abbrev pub wakeups : List Task → ℕ
wakeups [] = 0
wakeups (t ∷ ts) = wakes t + wakeups ts

-- The notifications that have not run out: those that are stored, and the wake-ups under way.
abbrev pub pending : Condvar → ℕ
pending cv = cv.semaphore.count + wakeups cv.ready

-- Nobody waits while a notification is stored.
abbrev pub IsIdle : Condvar → Type 0
IsIdle cv = (cv.semaphore.count ≡ 0) ⊎ (cv.semaphore.waiting ≡ [])

wakeups-append : (xs ys : List Task) → wakeups (xs ++ ys) ≡ wakeups xs + wakeups ys
wakeups-append [] ys = omega arith
wakeups-append (x ∷ xs) ys = omega (arith, wakeups-append xs ys)

wakeups-completions :
    (ws : List WaitOp) → wakeups (map resumption (completions success ws)) ≡ length ws
wakeups-completions [] = refl
wakeups-completions (w ∷ ws) = omega (arith, wakeups-completions ws)

-- An operation with this effect on the condition variable keeps it tidy and makes `d` notifications.
abbrev pub Adds : ℕ → Condvar → Condvar → Type 0
Adds d cv cv' = (pending cv' ≡ pending cv + d) × IsIdle cv' × (cv'.semaphore.posted ≡ [])

abbrev pub IsTidy : Condvar → Type 0
IsTidy cv = IsIdle cv × (cv.semaphore.posted ≡ [])

handed :
    (cv : Condvar) (xs : List Post)
    → cv.semaphore.posted ≡ []
    → wakeups (cv.ready ++ map resumption (cv.semaphore.posted ++ xs))
      ≡ wakeups cv.ready + wakeups (map resumption xs)
handed cv xs p = rw p (wakeups-append cv.ready (map resumption xs))

unchanged :
    (cv : Condvar)
    → cv.semaphore.posted ≡ []
    → wakeups (cv.ready ++ map resumption cv.semaphore.posted) ≡ wakeups cv.ready
unchanged cv p = rw p (wakeups-append cv.ready [] ∙ omega arith)

acquire-Adds : (h : Handler) (cv : Condvar) → IsTidy cv → Adds 0 cv (acquire h cv)
unfolding Spec.acquire
acquire-Adds h cv (idle, p) = by_count cv.semaphore.count refl
  where
    by_count :
        (n : ℕ)
        → cv.semaphore.count ≡ n
        → Adds 0 cv (with_semaphore cv (take_token n (wait_op cv h) cv.semaphore))
    by_count zero e = (omega (arith, unchanged cv p), inl e, refl)
    by_count (suc n) e = (
      omega (arith, e, handed cv (completion (wait_op cv h) success ∷ []) p),
      inr (ground (arith, idle)),
      refl,
    )

enter-Adds :
    (holds : Bool) (h : Handler) (d : Bool) (ec : ErrorCode) (cv : Condvar)
    → IsTidy cv
    → Adds 0 cv (enter holds h d ec cv)
unfolding enter
enter-Adds holds h d ec cv v =
    ground (arith, acquire-Adds h cv v, v, wakeups-append cv.ready (finish h ∷ []))

notify_one-Adds : (cv : Condvar) → IsTidy cv → Adds 1 cv (notify_one cv)
unfolding notify_one Spec.release
notify_one-Adds cv (idle, p) = by_waiting cv.semaphore.waiting refl
  where
    by_waiting :
        (ws : List WaitOp)
        → cv.semaphore.waiting ≡ ws
        → Adds 1 cv (with_semaphore cv (give ws cv.semaphore))
    by_waiting [] e = (omega (arith, unchanged cv p), inr e, refl)
    by_waiting (w ∷ ws) e =
        (omega (arith, handed cv (completion w success ∷ []) p), inl (ground (arith, idle)), refl)

notify_all-Adds : (cv : Condvar) → IsTidy cv → Adds (length cv.semaphore.waiting) cv (notify_all cv)
unfolding notify_all Spec.complete_all
notify_all-Adds cv (idle, p) = (
  omega (
    arith,
    handed cv (completions success cv.semaphore.waiting) p,
    wakeups-completions cv.semaphore.waiting,
  ),
  inr refl,
  refl,
)

cancel-Adds :
    (before : List WaitOp) (w : WaitOp) (behind : List WaitOp) (cv : Condvar)
    → cv.semaphore.waiting ≡ before ++ (w ∷ behind)
    → IsTidy cv
    → Adds 0 cv (cancel before w behind cv)
unfolding cancel Spec.abort
cancel-Adds before w behind cv e (idle, p) = (
  omega (arith, handed cv (completion w operation_aborted ∷ []) p),
  ground (arith, idle, middle-ne-nil before w behind),
  refl,
)

-- A task that runs is no longer pending.
taken :
    (cv : Condvar) (before : List Task) (t : Task) (after : List Task)
    → cv.ready ≡ before ++ (t ∷ after)
    → pending cv ≡ pending (record cv { ready = before ++ after }) + wakes t
taken cv before t after e =
    omega (arith, ap wakeups e, wakeups-append before after, wakeups-append before (t ∷ after))

module _ {W : Type 0} (predicate : Handler → Option (W → Bool)) where
  begin-Adds :
      (h : Handler) (world : W) (cv : Condvar)
      → IsTidy cv
      → Adds 0 cv (begin_wait predicate h world cv)
  unfolding begin_wait async_wait
  begin-Adds h world cv v = elim (Option-cases (predicate h)) [
    | inl e ↦ rw (e, begin_wait) (acquire-Adds h cv v)
    | inr (q, e) ↦ rw (e, begin_wait) (enter-Adds (q world) h false success cv v)
  ]

  complete-Adds :
      (h : Handler) (ec : ErrorCode) (cv : Condvar) → IsTidy cv → Adds 0 cv (complete h ec cv)
  complete-Adds h ec cv (idle, p) = (omega arith, idle, p)

  perform-Adds :
      (t : Task) (world : W) (cv : Condvar) → IsTidy cv → Adds 0 cv (perform predicate t world cv)
  unfolding perform
  perform-Adds (resume h ec) world cv v = elim (Option-cases (predicate h)) [
    | inl e ↦ rw (e, perform) (complete-Adds h ec cv v)
    | inr (q, e) ↦ rw (e, perform) (enter-Adds (q world) h true ec cv v)
  ]
  perform-Adds (finish h) world cv v = complete-Adds h success cv v

  -- The states of a condition variable under any calls and any order of the tasks, whatever the
  -- predicates find, with how many `notify_one` have been called for, how many waited at a
  -- `notify_all`, and how many wake-ups have run.
  pub data Run (exec : ℕ) : Condvar → ℕ → ℕ → ℕ → Type 0 where
    start : (host : ℕ) → Run exec (make host exec) 0 0 0
    waiting :
        {cv : Condvar} {n k c : ℕ}
        → Run exec cv n k c
        → (h : Handler) (world : W) → Run exec (begin_wait predicate h world cv) n k c
    notifying_one :
        {cv : Condvar} {n k c : ℕ} → Run exec cv n k c → Run exec (notify_one cv) (suc n) k c
    notifying_all :
        {cv : Condvar} {n k c : ℕ}
        → Run exec cv n k c
        → Run exec (notify_all cv) n (k + length cv.semaphore.waiting) c
    performing :
        {cv : Condvar} {n k c : ℕ}
        → Run exec cv n k c
        → (world : W) (before : List Task) (t : Task) (after : List Task)
        → cv.ready ≡ before ++ (t ∷ after)
        → Run exec
            (perform predicate t world (record cv { ready = before ++ after }))
            n
            k
            (c + wakes t)
    cancelling :
        {cv : Condvar} {n k c : ℕ}
        → Run exec cv n k c
        → (before : List WaitOp) (w : WaitOp) (behind : List WaitOp)
        → cv.semaphore.waiting ≡ before ++ (w ∷ behind)
        → Run exec (cancel before w behind cv) n k c

  Run-IsTidy :
      (exec : ℕ) {cv : Condvar} {n k c : ℕ}
      → Run exec cv n k c
      → IsTidy cv × (pending cv + c ≡ n + k)
  unfolding make
  Run-IsTidy exec (start host) = ((inl refl, refl), refl)
  Run-IsTidy exec (waiting {cv} r h world) =
      let (v, b) = Run-IsTidy exec r in
      let (d, i, p) = begin-Adds h world cv v in ((i, p), omega arith)
  Run-IsTidy exec (notifying_one {cv} r) =
      let (v, b) = Run-IsTidy exec r in
      let (d, i, p) = notify_one-Adds cv v in ((i, p), omega arith)
  Run-IsTidy exec (notifying_all {cv} r) =
      let (v, b) = Run-IsTidy exec r in
      let (d, i, p) = notify_all-Adds cv v in ((i, p), omega arith)
  Run-IsTidy exec (performing {cv} r world before t after e) =
      let (v, b) = Run-IsTidy exec r in
      let (d, i, p) = perform-Adds t world (record cv { ready = before ++ after }) v in
      ((i, p), omega (arith, taken cv before t after e))
  Run-IsTidy exec (cancelling {cv} r before w behind e) =
      let (v, b) = Run-IsTidy exec r in
      let (d, i, p) = cancel-Adds before w behind cv e v in ((i, p), omega arith)

  -- No notification is lost, and none wakes two: in every state that can be reached, the wake-ups
  -- that have run or are under way, with the notifications that are stored, are as many as the calls
  -- of `notify_one` and the waiters that `notify_all` has found; and while anyone waits none is
  -- stored, so all of them have become wake-ups.
  pub Run-notified :
      (exec : ℕ) {cv : Condvar} {n k c : ℕ}
      → Run exec cv n k c
      → (pending cv + c ≡ n + k) × (cv.semaphore.waiting ≢ [] → wakeups cv.ready + c ≡ n + k)
  Run-notified exec {cv} r =
      let ((idle, p), b) = Run-IsTidy exec r in
      (b, λ waits. elim idle [ inl none_stored ↦ omega arith | inr gone ↦ absurd (waits gone) ])
