-- ===== src/Compose.antt =====
-- include/asioex/async.hpp: composed operations written as coroutines.
pub mod Frame
pub mod Once
pub mod Awaitable
pub mod Tokens
mod Tests
use asio_experiments.Prelude.{
  ℕ, Bool, true, false, Option, none, some, List, [], ◌∷◌, if◌then◌else◌,
}

-- What `pick_executor` looks at in an argument: an executor, an object with one, or neither.
pub data Argument : Type 0 where
  executor : ℕ → Argument
  io_object : ℕ → Argument
  other : Argument

-- `token_executor` is the associated executor of the token.
unfoldable pub pick_executor : ℕ → List Argument → ℕ
pick_executor token_executor [] = token_executor
pick_executor token_executor (executor e ∷ args) = e
pick_executor token_executor (io_object e ∷ args) = e
pick_executor token_executor (other ∷ args) = pick_executor token_executor args

-- A completion token, by what is associated with it.
pub record Token : Type 0 where
  pub executor : ℕ
  pub allocator : ℕ
  pub slot : ℕ

-- Asio's cancellation states `S`, made for a slot and with filters `F`.
pub record Cancellation (S F : Type 0) : Type 0 where
  pub unfiltered : ℕ → S
  pub filtered : ℕ → F → S
  pub filtered_both : ℕ → F → F → S
  pub slot : S → ℕ
  pub terminal : F

-- What the promise does: it starts an awaited operation, whose handler has this executor, allocator
-- and cancellation slot; it hands its own handler to the executor, with the result, or an exception.
pub data Action (R : Type 0) : Type 0 where
  initiates : ℕ → ℕ → ℕ → ℕ → Action R
  dispatch : ℕ → ℕ → R → Action R
  post : ℕ → ℕ → R → Action R
  rethrow : ℕ → Action R

-- A `compose_promise`; `completion` is the handler.
pub record Promise (R S : Type 0) : Type 0 where
  pub result : Option R
  pub token : Token
  pub state : S
  pub executor : ℕ
  pub did_suspend : Bool
  pub completion : Option ℕ

-- A coroutine's body: it returns, lets an exception out, awaits an operation and goes on with what
-- that completes with, or awaits what is known of the coroutine itself.
pub data Body (R V S F : Type 0) : Type 0 where
  co_return : R → Body R V S F
  throws : Body R V S F
  co_await : ℕ → (V → Body R V S F) → Body R V S F
  this_executor : (ℕ → Body R V S F) → Body R V S F
  this_state : (S → Body R V S F) → Body R V S F
  reset_0 : Body R V S F → Body R V S F
  reset_1 : F → Body R V S F → Body R V S F
  reset_2 : F → F → Body R V S F → Body R V S F

-- What happens to an awaited operation: it completes, or its handler is destroyed without a call.
pub data Event (V : Type 0) : Type 0 where
  completes : V → Event V
  dropped : Event V

module _ {R S F : Type 0} (asio : Cancellation S F) where
  -- `compose_promise(args..., token, tag)`
  unfoldable pub construct : Token → List Argument → Promise R S
  unfolding pick_executor
  construct token args = record {
    result = none;
    token = token;
    state = asio.filtered token.slot asio.terminal;
    executor = pick_executor token.executor args;
    did_suspend = false;
    completion = none;
  }

  -- `await_transform` of the three `reset_cancellation_state`.
  unfoldable pub reset_state_0 : Promise R S → Promise R S
  reset_state_0 p = record p { state = asio.unfiltered p.token.slot }

  unfoldable pub reset_state_1 : F → Promise R S → Promise R S
  reset_state_1 filter p = record p { state = asio.filtered p.token.slot filter }

  unfoldable pub reset_state_2 : F → F → Promise R S → Promise R S
  reset_state_2 in_filter out_filter p = record p {
    state = asio.filtered_both p.token.slot in_filter out_filter;
  }

  -- `await_suspend`: the operation is started with a `completion` of the promise.
  unfoldable pub await_suspend : ℕ → Promise R S → Action R
  await_suspend op p = initiates op p.executor p.token.allocator (asio.slot p.state)

module _ {R S : Type 0} where
  unfoldable pub get_return_object : ℕ → Promise R S → Promise R S
  get_return_object handler p = record p { completion = some handler }

  unfoldable pub return_value : R → Promise R S → Promise R S
  return_value args p = record p { result = some args }

  -- `completion::operator()`, before it resumes the coroutine.
  unfoldable pub suspended_once : Promise R S → Promise R S
  suspended_once p = record p { did_suspend = true }

  -- `~compose_promise`
  unfoldable pub destroy : Promise R S → List (Action R)
  destroy p = elim p.completion [
    | none ↦ []
    | some handler ↦ elim p.result [
      | none ↦ []
      | some tup ↦
          if p.did_suspend
          then dispatch p.executor handler tup ∷ []
          else post p.executor handler tup ∷ []
    ]
  ]

  unfoldable pub unhandled_exception : Promise R S → Action R
  unhandled_exception p = rethrow p.executor

module _ {R V S F : Type 0} (asio : Cancellation S F) where
  -- The body from a start or a resumption on. It never waits at its beginning or its end, so its
  -- frame is destroyed with the promise when it ends; `coro_delete` destroys a frame whose handler is
  -- dropped. Without an event the coroutine stays suspended.
  unfoldable pub run : Body R V S F → List (Event V) → Promise R S → List (Action R)
  unfolding destroy return_value unhandled_exception await_suspend suspended_once reset_state_0
      reset_state_1 reset_state_2
  run (co_return r) events p = destroy (return_value r p)
  run throws events p = unhandled_exception p ∷ destroy p
  run (co_await op k) [] p = await_suspend asio op p ∷ []
  run (co_await op k) (completes v ∷ events) p =
      await_suspend asio op p ∷ run (k v) events (suspended_once p)
  run (co_await op k) (dropped ∷ events) p = await_suspend asio op p ∷ destroy p
  run (this_executor k) events p = run (k p.executor) events p
  run (this_state k) events p = run (k p.state) events p
  run (reset_0 b) events p = run b events (reset_state_0 asio p)
  run (reset_1 filter b) events p = run b events (reset_state_1 asio filter p)
  run (reset_2 in_filter out_filter b) events p =
      run b events (reset_state_2 asio in_filter out_filter p)

  -- The call of the coroutine.
  unfoldable pub call : Token → ℕ → List Argument → Body R V S F → List (Event V) → List (Action R)
  unfolding construct get_return_object run
  call token handler args body events =
      run body events (get_return_object handler (construct asio token args))
