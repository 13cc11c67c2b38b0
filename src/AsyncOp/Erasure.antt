-- ===== src/AsyncOp/Erasure.antt =====
-- An operation whose type is erased does what the operation does.
use asio_experiments.Prelude.{ℕ, ◌≡◌, refl, some, List, [], ◌∷◌}
use asio_experiments.AsyncOp.{
  Associated, associated_or, Handler, Call, Defaults, Initiation, ends, asks, calls, get_executor,
  get_allocator, get_cancellation_slot, poly_handler, call, run, initiate, as_async_op,
}
use asio_experiments.AsyncOp.Operation

module _ {A : Type 0} where
  -- An initiation that calls its handler at most once and does not touch it afterwards.
  pub data IsLinear : Initiation A → Type 0 where
    ended : IsLinear ends
    asked : {k : ℕ → ℕ → ℕ → Initiation A} → ((e a s : ℕ) → IsLinear (k e a s)) → IsLinear (asks k)
    called : (args : A) → IsLinear (calls args ends)

  -- The initiation runs with the handler itself.
  unfoldable pub run_directly : Initiation A → ℕ → ℕ → ℕ → ℕ → List (Call A)
  run_directly ends handler executor allocator slot = []
  run_directly (asks k) handler executor allocator slot =
      run_directly (k executor allocator slot) handler executor allocator slot
  run_directly (calls args next) handler executor allocator slot =
      record { handler = handler; args = args } ∷ run_directly next handler executor allocator slot

  run-directly :
      {initiation : Initiation A}
      → IsLinear initiation
      → (h e a s : ℕ)
      → run initiation (poly_handler h e a s) ≡ some (run_directly initiation h e a s)
  unfolding run run_directly get_executor get_allocator get_cancellation_slot call
  run-directly ended h e a s = refl
  run-directly (asked linear) h e a s = run-directly (linear e a s) h e a s
  run-directly (called args) h e a s = refl

  -- An erased operation is associated with what its initiation is associated with, or else with the
  -- defaults. If its initiation calls its handler at most once, and does not touch it afterwards, the
  -- operation passes every assertion and makes the calls that the initiation makes with the handler
  -- itself, where it finds what is associated with the handler, or else with the operation.
  pub initiate-erased :
      (system : Defaults) (own : Associated) (initiation : Initiation A) (handler : Handler)
      → IsLinear initiation
      → let op = Operation.made system own initiation in
        let executor = associated_or own.executor system.executor in
        let allocator = associated_or own.allocator system.allocator in
        let slot = associated_or own.slot system.cancellation_slot in
        (Operation.get_executor op ≡ some executor)
        × (Operation.get_allocator op ≡ some allocator)
        × (Operation.get_cancellation_slot op ≡ some slot)
        × (Operation.call handler op
            ≡ some (
                run_directly initiation handler.id
                  (associated_or handler.associated.executor executor)
                  (associated_or handler.associated.allocator allocator)
                  (associated_or handler.associated.slot slot)))
  unfolding initiate as_async_op Operation.made Operation.get_executor Operation.get_allocator
      Operation.get_cancellation_slot Operation.call
  initiate-erased system own initiation handler linear =
      (refl, refl, refl, run-directly linear handler.id _ _ _)
