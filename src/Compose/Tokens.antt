-- ===== src/Compose/Tokens.antt =====
-- The token with which a composed operation awaits others, from its own completion token.
use asio_experiments.Prelude.{ℕ, zero, suc, ◌≡◌, refl}

-- A completion token: one for coroutines of either kind, with its executor's type, one that modifies
-- another, or any other.
pub data CompletionToken : Type 0 where
  use_awaitable : ℕ → CompletionToken
  use_coro : ℕ → CompletionToken
  modifier : CompletionToken → CompletionToken
  handler : CompletionToken

pub data Composed : Type 0 where
  deferred : Composed
  as_tuple_awaitable : ℕ → Composed
  as_tuple_coro : ℕ → Composed

unfoldable pub compose_token : CompletionToken → Composed
compose_token (use_awaitable executor) = as_tuple_awaitable executor
compose_token (use_coro executor) = as_tuple_coro executor
compose_token (modifier token) = compose_token token
compose_token handler = deferred

abbrev pub modified : ℕ → CompletionToken → CompletionToken
modified zero token = token
modified (suc n) token = modifier (modified n token)

pub compose_token-modified :
    (n : ℕ) (token : CompletionToken) → compose_token (modified n token) ≡ compose_token token
unfolding compose_token
compose_token-modified zero token = refl
compose_token-modified (suc n) token = compose_token-modified n token
