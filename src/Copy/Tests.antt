-- ===== src/Copy/Tests.antt =====
-- A copy of two values that a cancellation ends.
use asio_experiments.Prelude.{ℕ, ◌≡◌, refl, [], ◌∷◌, arith}
use asio_experiments.ErrorCode.{success, operation_aborted}
use asio_experiments.Copy.{Cycle, source, sink, complete, async_copy}
use asio_experiments.Copy.Cycles.{async_copy-cycles}

abbrev full_cycle : ℕ → Cycle ℕ
full_cycle v = record {
  source_ec = success;
  value = v;
  source_cancelled = 0;
  sink_ec = success;
  sink_cancelled = 0;
}

-- The cancellation, 4, comes while the sink runs.
abbrev cancelled_cycle : Cycle ℕ
cancelled_cycle = record {
  source_ec = success;
  value = 9;
  source_cancelled = 4;
  sink_ec = success;
  sink_cancelled = 4;
}

async_copy-cycles_example :
    async_copy (full_cycle 7 ∷ full_cycle 8 ∷ cancelled_cycle ∷ full_cycle 5 ∷ [])
    ≡ source ∷ sink 7 ∷ source ∷ sink 8 ∷ source ∷ sink 9 ∷ complete operation_aborted 2 ∷ []
async_copy-cycles_example =
    async_copy-cycles (full_cycle 7 ∷ full_cycle 8 ∷ []) cancelled_cycle (full_cycle 5 ∷ []) refl
      refl (omega arith)
