-- ===== src/Latch/Single.antt =====
-- Transactions on one latch.
use asio_experiments.Prelude.{
  ℕ, ◌≡◌, refl, Bool, true, false, none, some, List, [], ◌∷◌, if◌then◌else◌,
}
use asio_experiments.Latch.{
  Latch, Latches, put, put-here, put-put, put-same, M, ◌>>=◌, ◌>>◌, pure, latch_steps, commit,
  rollback, Transaction1, may_commit1, rollback1, commit1, destroy1, begin1,
}

-- What one contender does with its transaction if it may commit.
pub data Choice : Type 0 where
  commits rolls_back leaves : Choice

-- One contender: it begins, chooses, and its transaction goes out of scope. The reply says whether
-- it has committed.
unfoldable pub attempt : ℕ → Choice → M Bool
attempt p c = do
  t ← begin1 p
  if may_commit1 t
      then (elim c [
        | commits ↦ (do t' ← commit1 t; destroy1 t'; pure true)
        | rolls_back ↦ (do t' ← rollback1 t; destroy1 t'; pure false)
        | leaves ↦ (do destroy1 t; pure false)
      ])
      else (do t' ← rollback1 t; destroy1 t'; pure false)

abbrev pub wants : Choice → Bool
wants commits = true
wants rolls_back = false
wants leaves = false

abbrev pub open_free : Latch
open_free = record { transferred = false; locked = false }

abbrev pub open_held : Latch
open_held = record { transferred = false; locked = true }

abbrev pub done_free : Latch
done_free = record { transferred = true; locked = false }

abbrev pub done_held : Latch
done_held = record { transferred = true; locked = true }

abbrev pub on : ℕ → Transaction1
on p = record { latch = some p }

abbrev pub ended : Transaction1
ended = record { latch = none }

pub begin1-open :
    (s : Latches) (p : ℕ) → s p ≡ open_free → begin1 p s ≡ some (on p, put s p open_held)
unfolding begin1
begin1-open s p u = simp (u, latch_steps) refl

pub begin1-done : (s : Latches) (p : ℕ) → s p ≡ done_free → begin1 p s ≡ some (ended, s)
unfolding begin1
begin1-done s p u = simp (u, latch_steps) (rw (put-same s p done_free u) refl)

pub commit_lem : (s : Latches) (p : ℕ) → s p ≡ open_held → commit p s ≡ some (tt, put s p done_free)
unfolding commit
commit_lem s p u = simp (u, latch_steps) refl

pub rollback_lem :
    (s : Latches) (p : ℕ) → s p ≡ open_held → rollback p s ≡ some (tt, put s p open_free)
unfolding rollback
rollback_lem s p u = simp (u, latch_steps) refl

pub commit1-held :
    (s : Latches) (p : ℕ) → s p ≡ open_held → commit1 (on p) s ≡ some (ended, put s p done_free)
unfolding commit1
commit1-held s p u = simp (commit_lem s p u, u, latch_steps) refl

pub rollback1-held :
    (s : Latches) (p : ℕ) → s p ≡ open_held → rollback1 (on p) s ≡ some (ended, put s p open_free)
unfolding rollback1
rollback1-held s p u = simp (rollback_lem s p u, latch_steps) refl

-- The latches after a contender at `p`.
abbrev pub after : Latches → ℕ → Bool → Latches
after s p true = put s p done_free
after s p false = s

-- A contender on an open latch never faults or blocks, and leaves the mutex unlocked; it commits
-- exactly if it wants to.
pub attempt-open :
    (s : Latches) (p : ℕ) (c : Choice)
    → s p ≡ open_free
    → attempt p c s ≡ some (wants c, after s p (wants c))
unfolding attempt destroy1 rollback1
attempt-open s p commits u =
    simp
      (
        begin1-open s p u,
        commit1-held (put s p open_held) p (put-here s p open_held),
        put-put,
        ◌>>=◌,
        ◌>>◌,
      )
      refl
attempt-open s p rolls_back u =
    simp
      (
        begin1-open s p u,
        rollback1-held (put s p open_held) p (put-here s p open_held),
        put-put,
        ◌>>=◌,
        ◌>>◌,
      )
      (simp (put-same s p open_free u) refl)
attempt-open s p leaves u =
    simp
      (
        begin1-open s p u,
        rollback1-held (put s p open_held) p (put-here s p open_held),
        put-put,
        destroy1,
        ◌>>=◌,
        ◌>>◌,
      )
      (simp (put-same s p open_free u) refl)

pub attempt-done :
    (s : Latches) (p : ℕ) (c : Choice) → s p ≡ done_free → attempt p c s ≡ some (false, s)
unfolding attempt destroy1 rollback1
attempt-done s p c u = simp (begin1-done s p u, ◌>>=◌, ◌>>◌) refl

-- Contenders for one latch, one after the other, which is the order in which they get its mutex.
unfoldable pub race : ℕ → List Choice → M (List Bool)
race p [] = pure []
race p (c ∷ cs) = do won ← attempt p c; rest ← race p cs; pure (won ∷ rest)

-- The replies that only let the first contender that wants to commit win.
abbrev pub none_wins : List Choice → List Bool
none_wins [] = []
none_wins (c ∷ cs) = false ∷ none_wins cs

abbrev pub first_wins : List Choice → List Bool
first_wins [] = []
first_wins (commits ∷ cs) = true ∷ none_wins cs
first_wins (rolls_back ∷ cs) = false ∷ first_wins cs
first_wins (leaves ∷ cs) = false ∷ first_wins cs

abbrev pub any_wants : List Choice → Bool
any_wants [] = false
any_wants (commits ∷ cs) = true
any_wants (rolls_back ∷ cs) = any_wants cs
any_wants (leaves ∷ cs) = any_wants cs

pub race-done :
    (s : Latches) (p : ℕ) (cs : List Choice)
    → s p ≡ done_free
    → race p cs s ≡ some (none_wins cs, s)
unfolding race
race-done s p [] u = refl
race-done s p (c ∷ cs) u = simp (attempt-done s p c u, race-done s p cs u, ◌>>=◌) refl

-- However many contend for an open latch, the first one that wants to commit does, every other one
-- is turned away, and afterwards the latch is transferred if there was such a contender and
-- unchanged if not; the mutex is free again and no other latch is touched.
pub race-first_wins :
    (s : Latches) (p : ℕ) (cs : List Choice)
    → s p ≡ open_free
    → race p cs s ≡ some (first_wins cs, after s p (any_wants cs))
unfolding race
race-first_wins s p [] u = refl
race-first_wins s p (commits ∷ cs) u =
    simp
      (
        attempt-open s p commits u,
        race-done (put s p done_free) p cs (put-here s p done_free),
        ◌>>=◌,
      )
      refl
race-first_wins s p (rolls_back ∷ cs) u =
    simp (attempt-open s p rolls_back u, race-first_wins s p cs u, ◌>>=◌) refl
race-first_wins s p (leaves ∷ cs) u =
    simp (attempt-open s p leaves u, race-first_wins s p cs u, ◌>>=◌) refl
