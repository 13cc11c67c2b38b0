-- ===== src/AsyncOp/Tests.antt =====
-- An operation that completes with the executor that it finds.
use asio_experiments.Prelude.{ℕ, ◌≡◌, refl, none, some, [], ◌∷◌}
use asio_experiments.AsyncOp.{
  Associated, Handler, Defaults, Initiation, ends, asks, calls, run, call, poly_handler,
}
use asio_experiments.AsyncOp.Operation
use asio_experiments.AsyncOp.Erasure.{asked, called, run_directly, initiate-erased}

abbrev system : Defaults
system = record { executor = 1; allocator = 2; cancellation_slot = 3 }

abbrev own : Associated
own = record { executor = some 4; allocator = none; slot = none }

abbrev reports : Initiation ℕ
reports = asks λ e a s. calls e ends

abbrev plain_handler : Handler
plain_handler = record {
  id = 9;
  associated = record { executor = none; allocator = some 8; slot = none };
}

-- The second call finds no handler.
called_twice : run {A = ℕ} (calls 1 (calls 2 ends)) (poly_handler 9 1 2 3) ≡ none
unfolding run call
called_twice = refl

initiate-erased_example :
    (Operation.get_executor (Operation.made system own reports) ≡ some 4)
    × (Operation.get_allocator (Operation.made system own reports) ≡ some 2)
    × (Operation.get_cancellation_slot (Operation.made system own reports) ≡ some 3)
    × (Operation.call plain_handler (Operation.made system own reports)
        ≡ some (record { handler = 9; args = 4 } ∷ []))
unfolding run_directly
initiate-erased_example = initiate-erased system own reports plain_handler (asked λ e a s. called e)
