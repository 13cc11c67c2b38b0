-- ===== src/TickState/Tests.antt =====
-- A handler without a tick state and one that inherits it.
use asio_experiments.Prelude.{◌≡◌, refl, true, false, some}
use asio_experiments.TickState.{
  Handler, base, inherits, declares, handler_enable_tick_state, class_of, call, has_tick_state,
  get_tick_state, set_tick_state, select_tick_state_handler, enable_tick_state,
}
use asio_experiments.TickState.Enabled.{enable_tick_state-select}

-- A lambda.
abbrev plain : Handler
plain = base 1 9

-- A class derived from one that has a tick state, which is set.
abbrev inheriting : Handler
inheriting = inherits 3 (declares 2 true plain)

plain-enabled : enable_tick_state plain ≡ handler_enable_tick_state false plain
unfolding enable_tick_state has_tick_state
plain-enabled = refl

inheriting-kept : enable_tick_state inheriting ≡ inheriting
unfolding enable_tick_state has_tick_state
inheriting-kept = refl

enable_tick_state-select_example :
    let e = enable_tick_state inheriting in
    (class_of (set_tick_state false e) ≡ select_tick_state_handler (class_of inheriting))
    × (get_tick_state e ≡ some true)
    × (get_tick_state (set_tick_state false e) ≡ some false)
    × (call (set_tick_state false e) ≡ 9)
    × (enable_tick_state (set_tick_state false e) ≡ set_tick_state false e)
unfolding get_tick_state
enable_tick_state-select_example = enable_tick_state-select inheriting false
