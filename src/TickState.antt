-- ===== src/TickState.antt =====
-- include/asioex/tick_state.hpp: handlers with a flag that they carry from tick to tick.
pub mod Enabled
mod Tests
use asio_experiments.Prelude.{ℕ, Bool, true, false, Option, none, some, if◌then◌else◌}

-- A class of handlers: one without a base, one that is derived from another and inherits all, one that
-- is derived from another and declares a `get_tick_state`, or `handler_enable_tick_state` of a class.
pub data Class : Type 0 where
  alone : ℕ → Class
  derived ticking : ℕ → Class → Class
  enable : Class → Class

-- An object of a class, with what its operators call and the flags that the `get_tick_state` refer to.
pub data Handler : Type 0 where
  base : ℕ → ℕ → Handler
  inherits : ℕ → Handler → Handler
  declares : ℕ → Bool → Handler → Handler
  handler_enable_tick_state : Bool → Handler → Handler

abbrev pub class_of : Handler → Class
class_of (base c f) = alone c
class_of (inherits c h) = derived c (class_of h)
class_of (declares c b h) = ticking c (class_of h)
class_of (handler_enable_tick_state b h) = enable (class_of h)

-- The operator that a call runs: no class overrides its base's.
abbrev pub call : Handler → ℕ
call (base c f) = f
call (inherits c h) = call h
call (declares c b h) = call h
call (handler_enable_tick_state b h) = call h

-- Whether `get_tick_state` is found in the class or in its bases.
unfoldable pub has_tick_state : Class → Bool
has_tick_state (alone c) = false
has_tick_state (derived c t) = has_tick_state t
has_tick_state (ticking c t) = true
has_tick_state (enable t) = true

-- What `get_tick_state()` refers to: the flag that is declared last.
unfoldable pub get_tick_state : Handler → Option Bool
get_tick_state (base c f) = none
get_tick_state (inherits c h) = get_tick_state h
get_tick_state (declares c b h) = some b
get_tick_state (handler_enable_tick_state b h) = some b

-- `h.get_tick_state() = b`
unfoldable pub set_tick_state : Bool → Handler → Handler
set_tick_state b (base c f) = base c f
set_tick_state b (inherits c h) = inherits c (set_tick_state b h)
set_tick_state b (declares c old h) = declares c b h
set_tick_state b (handler_enable_tick_state old h) = handler_enable_tick_state b h

unfoldable pub select_tick_state_handler : Class → Class
unfolding has_tick_state
select_tick_state_handler t = if has_tick_state t then t else enable t

-- `my_handler(std::move(handler))` is a move or the constructor of `handler_enable_tick_state`.
unfoldable pub enable_tick_state : Handler → Handler
unfolding has_tick_state
enable_tick_state h = if has_tick_state (class_of h) then h else handler_enable_tick_state false h
