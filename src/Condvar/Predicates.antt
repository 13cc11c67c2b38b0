-- ===== src/Condvar/Predicates.antt =====
-- Waits with a predicate complete with success exactly as often as the predicate is found to hold.
use asio_experiments.Prelude.{
  ℕ, ◌+◌, ◌≡◌, refl, ap, Bool, true, false, Option, none, some, Option-cases, inl, inr, List, [],
  ◌∷◌, ◌++◌, map, arith, ◌==◌, if◌then◌else◌,
}
use asio_experiments.ErrorCode.{ErrorCode, success, failed}
use asio_experiments.Semaphore.State.{Handler, Post}
use asio_experiments.Semaphore.Spec
use asio_experiments.Semaphore.Spec.{Spec}
use asio_experiments.Condvar.{
  Task, resume, finish, Condvar, make, resumption, with_semaphore, wait_op, complete, async_wait,
  enter, notify_one, notify_all, cancel, begin_wait, perform,
}
use asio_experiments.Condvar.Notify.{
  Run, start, waiting, notifying_one, notifying_all, performing, cancelling,
}

module _ {W : Type 0} (predicate : Handler → Option (W → Bool)) (id : ℕ) where
  -- One for a handler with this number that waits with a predicate.
  abbrev pub weight : Handler → ℕ
  weight h = if h.id == id then (elim (predicate h) [ none ↦ 0 | some p ↦ 1 ]) else 0

  abbrev pub holds : Handler → W → Bool
  holds h world = elim (predicate h) [ none ↦ false | some p ↦ p world ]

  -- How often it has completed with success.
  abbrev pub successes : List (Handler × ErrorCode) → ℕ
  successes [] = 0
  successes ((h, ec) ∷ cs) = (if failed ec then 0 else weight h) + successes cs

  -- How often it is about to, after a predicate that held at once.
  abbrev pub finishing : List Task → ℕ
  finishing [] = 0
  finishing (resume h ec ∷ ts) = finishing ts
  finishing (finish h ∷ ts) = weight h + finishing ts

  abbrev pub score : Condvar → ℕ
  score cv = successes cv.completed + finishing cv.ready

  -- What a run of the body with `ec` finds.
  abbrev pub finds : Handler → ErrorCode → W → ℕ
  finds h ec world = if failed ec then 0 else if holds h world then weight h else 0

  -- How often the predicate has been found to hold.
  unfoldable pub found : {exec : ℕ} {cv : Condvar} {n k c : ℕ} → Run predicate exec cv n k c → ℕ
  found (start host) = 0
  found (waiting r h world) = found r + finds h success world
  found (notifying_one r) = found r
  found (notifying_all r) = found r
  found (performing r world before (resume h ec) after e) = found r + finds h ec world
  found (performing r world before (finish h) after e) = found r
  found (cancelling r before w behind e) = found r

  successes-append :
      (xs ys : List (Handler × ErrorCode)) → successes (xs ++ ys) ≡ successes xs + successes ys
  successes-append [] ys = omega arith
  successes-append ((h, ec) ∷ xs) ys = omega (arith, successes-append xs ys)

  finishing-append : (xs ys : List Task) → finishing (xs ++ ys) ≡ finishing xs + finishing ys
  finishing-append [] ys = omega arith
  finishing-append (resume h ec ∷ xs) ys = finishing-append xs ys
  finishing-append (finish h ∷ xs) ys = omega (arith, finishing-append xs ys)

  finishing-resumption : (cs : List Post) → finishing (map resumption cs) ≡ 0
  finishing-resumption [] = refl
  finishing-resumption (c ∷ cs) = finishing-resumption cs

  score-with_semaphore : (cv : Condvar) (a : Spec) → score (with_semaphore cv a) ≡ score cv
  score-with_semaphore cv a =
      omega
        (arith, finishing-append cv.ready (map resumption a.posted), finishing-resumption a.posted)

  score-complete :
      (h : Handler) (ec : ErrorCode) (cv : Condvar)
      → score (complete h ec cv) ≡ score cv + (if failed ec then 0 else weight h)
  score-complete h ec cv = omega (arith, successes-append cv.completed ((h, ec) ∷ []))

  score-enter :
      (b : Bool) (h : Handler) (d : Bool) (ec : ErrorCode) (cv : Condvar)
      → score (enter b h d ec cv) ≡ score cv + (if failed ec then 0 else if b then weight h else 0)
  unfolding enter
  score-enter b h d ec cv = ground (
    arith,
    score-with_semaphore cv (Spec.acquire (wait_op cv h) cv.semaphore),
    score-complete h ec cv,
    finishing-append cv.ready (finish h ∷ []),
  )

  score-begin :
      (h : Handler) (world : W) (cv : Condvar)
      → score (begin_wait predicate h world cv) ≡ score cv + finds h success world
  unfolding begin_wait async_wait
  score-begin h world cv = elim (Option-cases (predicate h)) [
    | inl e ↦ ground (arith, e, score-with_semaphore cv (Spec.acquire (wait_op cv h) cv.semaphore))
    | inr (p, e) ↦ ground (arith, e, score-enter (p world) h false success cv)
  ]

  score-resume :
      (h : Handler) (ec : ErrorCode) (world : W) (cv : Condvar)
      → score (perform predicate (resume h ec) world cv) ≡ score cv + finds h ec world
  unfolding perform
  score-resume h ec world cv = elim (Option-cases (predicate h)) [
    | inl e ↦ ground (arith, e, score-complete h ec cv)
    | inr (p, e) ↦ ground (arith, e, score-enter (p world) h true ec cv)
  ]

  score-taken :
      (cv : Condvar) (before : List Task) (t : Task) (after : List Task)
      → cv.ready ≡ before ++ (t ∷ after)
      → score cv ≡ score (record cv { ready = before ++ after }) + finishing (t ∷ [])
  score-taken cv before (resume h ec) after e = omega (
    arith,
    ap finishing e,
    finishing-append before after,
    finishing-append before (resume h ec ∷ after),
  )
  score-taken cv before (finish h) after e = omega (
    arith,
    ap finishing e,
    finishing-append before after,
    finishing-append before (finish h ∷ after),
  )

  -- In every state that can be reached, an operation that waits with a predicate has completed with
  -- success, or is posted to, exactly as often as its predicate has been found to hold in a state of
  -- the program: no notification and no cancellation completes it with success otherwise.
  pub score-found :
      {exec : ℕ} {cv : Condvar} {n k c : ℕ} (r : Run predicate exec cv n k c) → score cv ≡ found r
  unfolding make notify_one notify_all cancel perform found
  score-found (start host) = refl
  score-found (waiting {cv} r h world) = omega (arith, score-found r, score-begin h world cv)
  score-found (notifying_one {cv} r) =
      omega (arith, score-found r, score-with_semaphore cv (Spec.release cv.semaphore))
  score-found (notifying_all {cv} r) =
      omega (arith, score-found r, score-with_semaphore cv (Spec.complete_all success cv.semaphore))
  score-found (performing {cv} r world before (resume h ec) after e) = omega (
    arith,
    score-found r,
    score-taken cv before (resume h ec) after e,
    score-resume h ec world (record cv { ready = before ++ after }),
  )
  score-found (performing {cv} r world before (finish h) after e) = omega (
    arith,
    score-found r,
    score-taken cv before (finish h) after e,
    score-complete h success (record cv { ready = before ++ after }),
  )
  score-found (cancelling {cv} r before w behind e) =
      omega
        (arith, score-found r, score-with_semaphore cv (Spec.abort before w behind cv.semaphore))
