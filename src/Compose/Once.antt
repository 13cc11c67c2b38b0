-- ===== src/Compose/Once.antt =====
-- What a composed operation does over its whole life: the operations that it starts, and the call of
-- its handler.
use asio_experiments.Prelude.{ℕ, Bool, true, none, some, List, [], ◌∷◌}
use asio_experiments.Compose.{
  Token, Cancellation, Action, initiates, dispatch, post, rethrow, Promise, Body, co_return, throws,
  co_await, this_executor, this_state, reset_0, reset_1, reset_2, Event, dropped,
}

-- Whether any operation has completed, after `vs` have.
abbrev pub suspended {ℓ} : {V : Type ℓ} → List V → Bool → Bool
suspended [] d = d
suspended (v ∷ vs) d = true

-- How the handler gets its result: posted if nothing has been waited for, or dispatched.
abbrev pub handed_over {ℓ} : {V : Type ℓ} {R : Type 0} → List V → ℕ → ℕ → R → Action R
handed_over [] executor handler r = post executor handler r
handed_over (v ∷ vs) executor handler r = dispatch executor handler r

module _ {R S F : Type 0} (asio : Cancellation S F) (token : Token) (executor : ℕ) where
  -- An awaited operation, and the cancellation state in which it is started.
  abbrev pub started : ℕ × S → Action R
  started (op, s) = initiates op executor token.allocator (asio.slot s)

module _ {R S : Type 0} (token : Token) (executor : ℕ) where
  -- The promise of this operation after a start in the state `s`.
  abbrev pub promise : ℕ → S → Bool → Promise R S
  promise handler s d = record {
    result = none;
    token = token;
    state = s;
    executor = executor;
    did_suspend = d;
    completion = some handler;
  }

module _ {R V S F : Type 0} (asio : Cancellation S F) (token : Token) (executor : ℕ) where
  -- In the state `s` a body comes to another one in another state when its operations complete with
  -- the values `vs`; it has started the operations `ops`.
  pub data Reaches : Body R V S F → S → List V → List (ℕ × S) → Body R V S F → S → Type 0 where
    here : {b : Body R V S F} {s : S} → Reaches b s [] [] b s
    awaited :
        {op : ℕ} {k : V → Body R V S F} {s : S} {v : V} {vs : List V} {ops : List (ℕ × S)}
        {b : Body R V S F} {s' : S}
        → Reaches (k v) s vs ops b s'
        → Reaches (co_await op k) s (v ∷ vs) ((op, s) ∷ ops) b s'
    asked_executor :
        {k : ℕ → Body R V S F} {s : S} {vs : List V} {ops : List (ℕ × S)} {b : Body R V S F}
        {s' : S}
        → Reaches (k executor) s vs ops b s'
        → Reaches (this_executor k) s vs ops b s'
    asked_state :
        {k : S → Body R V S F} {s : S} {vs : List V} {ops : List (ℕ × S)} {b : Body R V S F}
        {s' : S}
        → Reaches (k s) s vs ops b s'
        → Reaches (this_state k) s vs ops b s'
    without_filter :
        {c : Body R V S F} {s : S} {vs : List V} {ops : List (ℕ × S)} {b : Body R V S F} {s' : S}
        → Reaches c (asio.unfiltered token.slot) vs ops b s'
        → Reaches (reset_0 c) s vs ops b s'
    with_filter :
        {f : F} {c : Body R V S F} {s : S} {vs : List V} {ops : List (ℕ × S)} {b : Body R V S F}
        {s' : S}
        → Reaches c (asio.filtered token.slot f) vs ops b s'
        → Reaches (reset_1 f c) s vs ops b s'
    with_filters :
        {f g : F} {c : Body R V S F} {s : S} {vs : List V} {ops : List (ℕ × S)} {b : Body R V S F}
        {s' : S}
        → Reaches c (asio.filtered_both token.slot f g) vs ops b s'
        → Reaches (reset_2 f g c) s vs ops b s'

  -- Where a body comes to rest, with the events that are left and what the promise does last: it has
  -- returned after `vs`, it has let an exception out, the handler of its operation has been
  -- destroyed, or it waits.
  pub data Rests (handler : ℕ) (vs : List V)
      : Body R V S F → S → List (Event V) → List (Action R) → Type 0 where
    returned :
        {r : R} {s : S} {rest : List (Event V)}
        → Rests handler vs (co_return r) s rest (handed_over vs executor handler r ∷ [])
    threw : {s : S} {rest : List (Event V)} → Rests handler vs throws s rest (rethrow executor ∷ [])
    abandoned :
        {op : ℕ} {k : V → Body R V S F} {s : S} {rest : List (Event V)}
        → Rests handler vs
            (co_await op k)
            s
            (dropped ∷ rest)
            (started asio token executor (op, s) ∷ [])
    waits :
        {op : ℕ} {k : V → Body R V S F} {s : S}
        → Rests handler vs (co_await op k) s [] (started asio token executor (op, s) ∷ [])
