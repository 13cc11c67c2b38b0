-- ===== src/AsyncOp.antt =====
-- include/asioex/async_op.hpp: operations and handlers whose types are erased.
pub mod Operation
pub mod Erasure
mod Tests
use asio_experiments.Prelude.{ℕ, Option, none, some, List, [], ◌∷◌}

-- What the associators give for a handler or an initiation.
pub record Associated : Type 0 where
  pub executor : Option ℕ
  pub allocator : Option ℕ
  pub slot : Option ℕ

-- `get_associated_executor(x, candidate)` and its kin.
abbrev pub associated_or : Option ℕ → ℕ → ℕ
associated_or none candidate = candidate
associated_or (some x) candidate = x

-- A completion handler; the operations of the model record the calls by its number.
pub record Handler : Type 0 where
  pub id : ℕ
  pub associated : Associated

-- A call of a handler with arguments.
pub record Call (A : Type 0) : Type 0 where
  pub handler : ℕ
  pub args : A

-- A `poly_handler_impl`, whose handler has the number `handler`.
pub record PolyImpl : Type 0 where
  pub executor : ℕ
  pub allocator : ℕ
  pub cancellation_slot : ℕ
  pub handler : ℕ

-- A `poly_handler`, by its pointer.
pub record PolyHandler : Type 0 where
  pub ptr : Option PolyImpl

-- The defaults of an initiation, which `base` keeps.
pub record Defaults : Type 0 where
  pub executor : ℕ
  pub allocator : ℕ
  pub cancellation_slot : ℕ

-- What an initiation does with its handler: it asks for what is associated with it, calls it, or is
-- done with it.
pub data Initiation (A : Type 0) : Type 0 where
  ends : Initiation A
  asks : (ℕ → ℕ → ℕ → Initiation A) → Initiation A
  calls : A → Initiation A → Initiation A

infixl 5 ◌>>=◌
abbrev pub ◌>>=◌ : {B C : Type 0} → Option B → (B → Option C) → Option C
none >>= f = none
some b >>= f = f b

-- `none` is a failed assertion.
unfoldable pub get_executor : PolyHandler → Option ℕ
get_executor h = do impl ← h.ptr; some impl.executor

unfoldable pub get_allocator : PolyHandler → Option ℕ
get_allocator h = do impl ← h.ptr; some impl.allocator

unfoldable pub get_cancellation_slot : PolyHandler → Option ℕ
get_cancellation_slot h = do impl ← h.ptr; some impl.cancellation_slot

-- `poly_handler(token, executor, allocator, slot)`
abbrev pub poly_handler : ℕ → ℕ → ℕ → ℕ → PolyHandler
poly_handler handler executor allocator slot = record {
  ptr = some (record {
    executor = executor;
    allocator = allocator;
    cancellation_slot = slot;
    handler = handler;
  });
}

module _ {A : Type 0} where
  -- `poly_handler::operator()`: the call of the handler inside, and what is left.
  unfoldable pub call : A → PolyHandler → Option (Call A × PolyHandler)
  call args h = do
    impl ← h.ptr
    some (record { handler = impl.handler; args = args }, record { ptr = none })

  -- An initiation runs with a `poly_handler`.
  unfoldable pub run : Initiation A → PolyHandler → Option (List (Call A))
  unfolding get_executor get_allocator get_cancellation_slot call
  run ends h = some []
  run (asks k) h = do
    executor ← get_executor h
    allocator ← get_allocator h
    slot ← get_cancellation_slot h
    run (k executor allocator slot) h
  run (calls args next) h = do (made, h') ← call args h; later ← run next h'; some (made ∷ later)

  -- `initiate::operator()`, for the `base` that `impl_` points to.
  unfoldable pub initiate : Option (Defaults × Initiation A) → Handler → Option (List (Call A))
  unfolding run
  initiate impl handler = do
    (base, initiation) ← impl
    run initiation (
        poly_handler handler.id (associated_or handler.associated.executor base.executor)
          (associated_or handler.associated.allocator base.allocator)
          (associated_or handler.associated.slot base.cancellation_slot))

  -- `async_result<as_async_op_t, ...>::initiate`; `system` is what the associators give by default.
  unfoldable pub as_async_op :
      Defaults → Associated → Initiation A → Option (Defaults × Initiation A)
  as_async_op system own initiation = some (
    record {
      executor = associated_or own.executor system.executor;
      allocator = associated_or own.allocator system.allocator;
      cancellation_slot = associated_or own.slot system.cancellation_slot;
    },
    initiation,
  )
