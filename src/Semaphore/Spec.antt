-- ===== src/Semaphore/Spec.antt =====
-- What an asynchronous semaphore promises: a counter, the waiting operations in the order in which
-- they came, and what has been handed to the executors.
use asio_experiments.Prelude.{
  ℕ, zero, suc, ◌≤◌, ◌<◌, ◌≡◌, refl, arith, Bool, true, false, List, [], ◌∷◌, ◌++◌, length, map,
}
use asio_experiments.Prelude.Int.{ℤ, sub_ℕ}
use asio_experiments.ErrorCode.{ErrorCode, success, operation_aborted}
use asio_experiments.Semaphore.State.{WaitOp, Post, completion}

pub record Spec : Type 0 where
  pub count : ℕ
  pub waiting : List WaitOp
  pub posted : List Post

abbrev pub completions : ErrorCode → List WaitOp → List Post
completions ec = map λ w. completion w ec

-- A token goes to the operation that has waited longest, and to the counter if none waits.
abbrev pub give : List WaitOp → Spec → Spec
give [] a = record a { count = suc a.count }
give (w ∷ ws) a = record a { waiting = ws; posted = a.posted ++ (completion w success ∷ []) }

unfoldable pub release : Spec → Spec
release a = give a.waiting a

-- A token is taken from the counter; `w` is the operation that waits where there is none.
abbrev pub take_token : ℕ → WaitOp → Spec → Spec
take_token zero w a = record a { waiting = a.waiting ++ (w ∷ []) }
take_token (suc n) w a = record a { count = n; posted = a.posted ++ (completion w success ∷ []) }

unfoldable pub acquire : WaitOp → Spec → Spec
acquire w a = take_token a.count w a

abbrev pub take_now : ℕ → Spec → Bool × Spec
take_now zero a = (false, a)
take_now (suc n) a = (true, record a { count = n })

unfoldable pub try_acquire : Spec → Bool × Spec
try_acquire a = take_now a.count a

-- All that wait complete, the longest first.
unfoldable pub complete_all : ErrorCode → Spec → Spec
complete_all ec a = record a { waiting = []; posted = a.posted ++ completions ec a.waiting }

-- The operation in the middle is aborted.
unfoldable pub abort : List WaitOp → WaitOp → List WaitOp → Spec → Spec
abort before w behind a = record a {
  waiting = before ++ behind;
  posted = a.posted ++ (completion w operation_aborted ∷ []);
}

unfoldable pub value : Spec → ℤ
value a = sub_ℕ a.count (length a.waiting)

-- Nobody waits while a token is left.
abbrev pub IsIdle : Spec → Type 0
IsIdle a = 0 < a.count → a.waiting ≡ []

pub count-release : (a : Spec) → (release a).count ≤ suc a.count
unfolding release
count-release a = ground arith

pub count-acquire : (w : WaitOp) (a : Spec) → (acquire w a).count ≤ a.count
unfolding acquire
count-acquire w a = by_count a.count refl
  where
    by_count : (n : ℕ) → a.count ≡ n → (take_token n w a).count ≤ a.count
    by_count zero e = omega arith
    by_count (suc n) e = omega arith

pub count-try_acquire : (a : Spec) → (try_acquire a).1.count ≤ a.count
unfolding try_acquire
count-try_acquire a = by_count a.count refl
  where
    by_count : (n : ℕ) → a.count ≡ n → (take_now n a).1.count ≤ a.count
    by_count zero e = omega arith
    by_count (suc n) e = omega arith

pub count-complete_all : (ec : ErrorCode) (a : Spec) → (complete_all ec a).count ≡ a.count
unfolding complete_all
count-complete_all ec a = refl

pub count-abort :
    (before : List WaitOp) (w : WaitOp) (behind : List WaitOp) (a : Spec)
    → (abort before w behind a).count ≡ a.count
unfolding abort
count-abort before w behind a = refl
