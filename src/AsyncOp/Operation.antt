-- ===== src/AsyncOp/Operation.antt =====
-- `basic_async_op` of include/asioex/async_op.hpp: an operation that is called with a token.
use asio_experiments.Prelude.{ℕ, Option, some, List}
use asio_experiments.AsyncOp.{
  Associated, Handler, Call, Defaults, Initiation, ◌>>=◌, initiate, as_async_op,
}

-- A `basic_async_op`, by its `impl_`; `none` is a null pointer.
pub record BasicAsyncOp (A : Type 0) : Type 0 where
  pub impl_ : Option (Defaults × Initiation A)

module _ {A : Type 0} where
  -- `none` is a failed assertion.
  unfoldable pub get_executor : BasicAsyncOp A → Option ℕ
  get_executor op = do (base, _) ← op.impl_; some base.executor

  unfoldable pub get_allocator : BasicAsyncOp A → Option ℕ
  get_allocator op = do (base, _) ← op.impl_; some base.allocator

  unfoldable pub get_cancellation_slot : BasicAsyncOp A → Option ℕ
  get_cancellation_slot op = do (base, _) ← op.impl_; some base.cancellation_slot

  -- `basic_async_op::operator()`; the token is given by the handler that it becomes.
  unfoldable pub call : Handler → BasicAsyncOp A → Option (List (Call A))
  unfolding initiate
  call token op = initiate op.impl_ token

  -- What `async_result<as_async_op_t, ...>::initiate` returns.
  unfoldable pub made : Defaults → Associated → Initiation A → BasicAsyncOp A
  unfolding as_async_op
  made system own initiation = record { impl_ = as_async_op system own initiation }
