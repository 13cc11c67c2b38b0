-- ===== src/AtomicRead/Tests.antt =====
-- A socket that blocks once, and reads of it that share a latch.
use asio_experiments.Prelude.{ℕ, zero, suc, ◌≡◌, refl, Bool, true, false, some, List, [], ◌∷◌}
use asio_experiments.ErrorCode.{
  ErrorCode, success, would_block, completion_denied, operation_aborted,
}
use asio_experiments.Latch.Single.{open_free, after}
use asio_experiments.AtomicRead.{World, waits, completes, resume_all}
use asio_experiments.AtomicRead.Race.{session, resume_all-session}

-- The state is how often the socket blocks before it has 5 bytes.
abbrev slow : Bool → ℕ → (ErrorCode × ℕ) × ℕ
slow mode zero = ((success, 5), 0)
slow mode (suc k) = ((would_block, 0), k)

abbrev fresh : World ℕ
fresh = record { sock = 1; non_blocking = false; latches = λ q. open_free }

abbrev wakeups : List ErrorCode
wakeups = success ∷ success ∷ success ∷ operation_aborted ∷ []

resume_all-session_example :
    resume_all slow 2 wakeups fresh
    ≡ some (
      waits
          ∷ completes success 5
          ∷ completes completion_denied 0
          ∷ completes completion_denied 0
          ∷ [],
      record fresh { sock = 0; latches = after fresh.latches 2 true },
    )
unfolding session
resume_all-session_example = resume_all-session slow 2 wakeups fresh refl
