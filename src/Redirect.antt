-- ===== src/Redirect.antt =====
-- include/asioex/redirect_cancellation.hpp: handlers that learn of a cancellation through a variable
-- instead of an error.
pub mod Report
mod Tests
use asio_experiments.Prelude.{ℕ, ◌≡◌, ◌≢◌, ◌<◌, not, List, [], ◌∷◌, ◌==◌, if◌then◌else◌}
use asio_experiments.ErrorCode.{ErrorCode, success}

-- Asio's `cancellation_state` on a slot and with a filter; `emit` is a signal to that slot, which the
-- state passes on to a `slot` of its own. It tells which cancellation its filter has let through, and
-- 0 is no cancellation.
pub record States (S : Type 0) : Type 0 where
  pub on_slot : ℕ → (ℕ → ℕ) → S
  pub slot : S → ℕ
  pub filter : S → ℕ → ℕ
  pub cancelled : S → ℕ
  pub emit : ℕ → S → S
  pub filter_made : (p : ℕ) (f : ℕ → ℕ) (c : ℕ) → filter (on_slot p f) c ≡ f c
  pub cancelled_made : (p : ℕ) (f : ℕ → ℕ) → cancelled (on_slot p f) ≡ 0
  pub slot_kept : (c : ℕ) (s : S) → slot (emit c s) ≡ slot s
  pub filter_kept : (c : ℕ) (s : S) (d : ℕ) → filter (emit c s) d ≡ filter s d
  pub cancelled_emit : (c : ℕ) (s : S) → filter s c ≢ 0 → cancelled (emit c s) ≢ 0

-- A completion handler with what is associated with it; its slot is connected.
pub record Handler : Type 0 where
  pub id : ℕ
  pub executor : ℕ
  pub allocator : ℕ
  pub slot : ℕ

-- A `redirect_cancellation_t` whose token is a handler; its own cancellation state is never used.
pub record RedirectCancellation : Type 0 where
  pub token : Handler
  pub cancel : ℕ

-- What a handler is called with: nothing, arguments of which the first is no error code, or an error
-- code and arguments.
pub data Args (A : Type 0) : Type 0 where
  nothing : Args A
  others : A → Args A
  coded : ErrorCode → A → Args A

pub record Call (A : Type 0) : Type 0 where
  pub handler : ℕ
  pub args : Args A

-- A `redirect_cancellation_handler`; `cancel` is the address of the variable.
pub record RedirectHandler (S : Type 0) : Type 0 where
  pub cancel : ℕ
  pub handler : Handler
  pub state : S

abbrev pub no_filter : ℕ → ℕ
no_filter c = c

-- The variables of type `cancellation_type` by their addresses.
unfoldable pub assign : (ℕ → ℕ) → ℕ → ℕ → ℕ → ℕ
assign vars p c q = if q == p then c else vars q

-- What an operation does with its handler, and the signals that come to the slot of the handler that
-- was redirected; a signal is of some type.
pub data Operation (A : Type 0) : Type 0 where
  ends : Operation A
  asks : (ℕ → ℕ → ℕ → Operation A) → Operation A
  signals : (c : ℕ) → 0 < c → Operation A → Operation A
  calls : Args A → Operation A → Operation A

-- `redirect_cancellation(token, cancel)`
unfoldable pub redirect_cancellation : Handler → ℕ → RedirectCancellation
redirect_cancellation token cancel = record { token = token; cancel = cancel }

module _ {S : Type 0} (asio : States S) where
  -- `redirect_cancellation_handler(cancel, h)`
  unfoldable pub redirect_handler : ℕ → Handler → RedirectHandler S
  redirect_handler cancel h = record {
    cancel = cancel;
    handler = h;
    state = asio.on_slot h.slot no_filter;
  }

  -- `get_cancellation_slot`; the other associators are the handler's.
  unfoldable pub get_cancellation_slot : RedirectHandler S → ℕ
  get_cancellation_slot r = asio.slot r.state

module _ {S A : Type 0} (asio : States S) where
  -- The three call operators.
  unfoldable pub complete : Args A → RedirectHandler S → (ℕ → ℕ) → Call A × (ℕ → ℕ)
  unfolding assign
  complete nothing r vars = (record { handler = r.handler.id; args = nothing }, vars)
  complete (others x) r vars = (record { handler = r.handler.id; args = others x }, vars)
  complete (coded ec x) r vars =
      let c = asio.cancelled r.state in
      let ec = if not (c == 0) then success else ec in
      (record { handler = r.handler.id; args = coded ec x }, assign vars r.cancel c)

  -- An operation runs with a redirected handler.
  unfoldable pub run : Operation A → RedirectHandler S → (ℕ → ℕ) → List (Call A) × (ℕ → ℕ)
  unfolding complete get_cancellation_slot
  run ends r vars = ([], vars)
  run (asks k) r vars =
      run (k r.handler.executor r.handler.allocator (get_cancellation_slot asio r)) r vars
  run (signals c some_type next) r vars = run next (record r { state = asio.emit c r.state }) vars
  run (calls args next) r vars =
      let (made, vars') = complete args r vars in
      let (later, vars'') = run next r vars' in (made ∷ later, vars'')

  -- `init_wrapper::operator()`, which passes the redirected handler to the initiation.
  unfoldable pub init_wrapper : ℕ → Operation A → Handler → (ℕ → ℕ) → List (Call A) × (ℕ → ℕ)
  unfolding redirect_handler run
  init_wrapper cancel initiation handler vars =
      run initiation (redirect_handler asio cancel handler) vars

  -- `async_result::initiate`
  unfoldable pub initiate : Operation A → RedirectCancellation → (ℕ → ℕ) → List (Call A) × (ℕ → ℕ)
  unfolding init_wrapper
  initiate initiation token vars = init_wrapper token.cancel initiation token.token vars
