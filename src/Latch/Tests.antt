-- ===== src/Latch/Tests.antt =====
-- Latches and contenders to evaluate the theorems on.
use asio_experiments.Prelude.{◌≡◌, refl, true, false, none, some, ◌==◌, if◌then◌else◌, arith}
use asio_experiments.Latch.{Latches, commit1}
use asio_experiments.Latch.Single.{commits, open_free, done_free}
use asio_experiments.Latch.Pair.{attempt2, attempt2-atomic}

abbrev all_open : Latches
all_open q = open_free

-- The latch 3 has been used.
abbrev third_done : Latches
third_done q = if q == 3 then done_free else open_free

-- A transaction that is committed without having begun fails the assertion.
unstarted : commit1 (record { latch = none }) all_open ≡ none
unfolding commit1
unstarted = refl

attempt2-atomic_example : attempt2 3 5 commits third_done ≡ some (false, third_done)
attempt2-atomic_example = attempt2-atomic third_done 3 5 true false commits (ground arith) refl refl
