-- ===== src/Copy.antt =====
-- include/asioex/copy.hpp: copying from a source operation to a sink operation.
pub mod Cycles
mod Tests
use asio_experiments.Prelude.{
  ℕ, zero, suc, ◌+◌, ◌-◌, ◌^◌, ◌%◌, Bool, true, false, not, ◌&&◌, Option, none, some, List, [], ◌∷◌,
  ◌==◌, if◌then◌else◌,
}
use asio_experiments.ErrorCode.{ErrorCode, success, operation_aborted, failed}

-- `asio::cancellation_type`
abbrev pub cancel_none : ℕ
cancel_none = 0

abbrev pub terminal : ℕ
terminal = 1

-- Additions to a `std::size_t` wrap round, and so does the step below 0.
abbrev pub size_range : ℕ
size_range = 2 ^ 64

unfoldable pub decremented : ℕ → ℕ
decremented n = (n + (size_range - 1)) % size_range

unfoldable pub incremented : ℕ → ℕ
incremented n = (n + 1) % size_range

-- What `async_copy_op` does next: it starts its source, starts its sink with a value of the source,
-- or completes with a code and the count.
pub data Next (A : Type 0) : Type 0 where
  source : Next A
  sink : A → Next A
  complete : ErrorCode → ℕ → Next A

-- The state of the operation, `completed`, is the argument and the second part of the result.
module _ {A : Type 0} where
  unfoldable pub start : ℕ → Next A × ℕ
  start completed = (source, decremented completed)

  -- The call with `source_tag`; `cancelled` is the state of the cancellation.
  unfoldable pub on_source : ErrorCode → A → ℕ → ℕ → Next A × ℕ
  on_source ec value cancelled completed =
      let completed = incremented completed in
      let ec = if not (failed ec) && (cancelled == terminal) then operation_aborted else ec in
      if not (failed ec) then (sink value, completed) else (complete ec completed, completed)

  -- The call with `sink_tag`.
  unfoldable pub on_sink : ErrorCode → ℕ → ℕ → Next A × ℕ
  on_sink ec cancelled completed =
      let ec =
        if not (failed ec) && not (cancelled == cancel_none) then operation_aborted else ec in
      if not (failed ec) then (source, completed) else (complete ec completed, completed)

-- What the source and the sink report in one cycle, and the cancellation state at that time; the
-- sink is not asked if the source ends the copy.
pub record Cycle (A : Type 0) : Type 0 where
  pub source_ec : ErrorCode
  pub value : A
  pub source_cancelled : ℕ
  pub sink_ec : ErrorCode
  pub sink_cancelled : ℕ

module _ {A : Type 0} where
  -- What follows a started source, or a started sink; nothing follows a completion.
  abbrev pub after_source : Next A → List (Next A) → List (Next A)
  after_source source rest = rest
  after_source (sink v) rest = []
  after_source (complete ec n) rest = []

  abbrev pub after_sink : Next A → List (Next A) → List (Next A)
  after_sink source rest = []
  after_sink (sink v) rest = rest
  after_sink (complete ec n) rest = []

  -- The calls that the operation makes from a started source on.
  unfoldable pub run : List (Cycle A) → ℕ → List (Next A)
  run [] completed = []
  run (c ∷ cycles) completed =
      let (next, n) = on_source c.source_ec c.value c.source_cancelled completed in
      let (after, n') = on_sink {A = A} c.sink_ec c.sink_cancelled n in
      let rest = run cycles n' in next ∷ after_sink next (after ∷ after_source after rest)

  -- `async_copy`: all the calls; `completed` starts at 0.
  unfoldable pub async_copy : List (Cycle A) → List (Next A)
  async_copy cycles = let (next, n) = start {A = A} 0 in next ∷ run cycles n
