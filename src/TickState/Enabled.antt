-- ===== src/TickState/Enabled.antt =====
-- Every handler gets one tick state, and keeps it if it has one.
use asio_experiments.Prelude.{
  ◌≡◌, refl, ap, ◌∙◌, Bool, true, false, Option, none, some, inl, inr, Bool-cases, arith,
}
use asio_experiments.TickState.{
  Class, derived, Handler, base, inherits, declares, handler_enable_tick_state, class_of, call,
  has_tick_state, get_tick_state, set_tick_state, select_tick_state_handler, enable_tick_state,
}

abbrev pub is_some : {A : Type 0} → Option A → Bool
is_some none = false
is_some (some a) = true

abbrev pub or : Option Bool → Bool → Bool
or none d = d
or (some b) d = b

-- The class says whether there is a flag.
has_tick_state-class_of : (h : Handler) → has_tick_state (class_of h) ≡ is_some (get_tick_state h)
unfolding has_tick_state get_tick_state
has_tick_state-class_of (base c f) = refl
has_tick_state-class_of (inherits c h) = has_tick_state-class_of h
has_tick_state-class_of (declares c b h) = refl
has_tick_state-class_of (handler_enable_tick_state b h) = refl

has_tick_state-select : (t : Class) → has_tick_state (select_tick_state_handler t) ≡ true
unfolding select_tick_state_handler has_tick_state
has_tick_state-select t = elim (Bool-cases (has_tick_state t)) [
  | inl e ↦ ground (arith, e)
  | inr e ↦ ground (arith, e)
]

call-set : (b : Bool) (h : Handler) → call (set_tick_state b h) ≡ call h
unfolding set_tick_state
call-set b (base c f) = refl
call-set b (inherits c h) = call-set b h
call-set b (declares c old h) = refl
call-set b (handler_enable_tick_state old h) = refl

class_of-set : (b : Bool) (h : Handler) → class_of (set_tick_state b h) ≡ class_of h
unfolding set_tick_state
class_of-set b (base c f) = refl
class_of-set b (inherits c h) = ap (derived c) (class_of-set b h)
class_of-set b (declares c old h) = refl
class_of-set b (handler_enable_tick_state old h) = refl

get-set :
    (b : Bool) (h : Handler)
    → has_tick_state (class_of h) ≡ true
    → get_tick_state (set_tick_state b h) ≡ some b
unfolding set_tick_state get_tick_state has_tick_state
get-set b (base c f) e = cc
get-set b (inherits c h) e = get-set b h e
get-set b (declares c old h) e = refl
get-set b (handler_enable_tick_state old h) e = refl

enable-has : (h : Handler) → has_tick_state (class_of h) ≡ true → enable_tick_state h ≡ h
unfolding enable_tick_state
enable-has h e = ground (arith, e)

module _ (h : Handler) where
  class_of-enable : class_of (enable_tick_state h) ≡ select_tick_state_handler (class_of h)
  unfolding enable_tick_state select_tick_state_handler
  class_of-enable = elim (Bool-cases (has_tick_state (class_of h))) [
    | inl e ↦ ground (arith, e)
    | inr e ↦ ground (arith, e)
  ]

  enable-has_one : has_tick_state (class_of (enable_tick_state h)) ≡ true
  enable-has_one = ap has_tick_state class_of-enable ∙ has_tick_state-select (class_of h)

  get-enable : get_tick_state (enable_tick_state h) ≡ some (or (get_tick_state h) false)
  unfolding enable_tick_state get_tick_state
  get-enable = elim (Bool-cases (has_tick_state (class_of h))) [
    | inl e ↦ ground (arith, e, has_tick_state-class_of h)
    | inr e ↦ ground (arith, e, has_tick_state-class_of h)
  ]

  call-enable : call (enable_tick_state h) ≡ call h
  unfolding enable_tick_state
  call-enable = elim (Bool-cases (has_tick_state (class_of h))) [
    | inl e ↦ ground (arith, e)
    | inr e ↦ ground (arith, e)
  ]

  -- `enable_tick_state` returns an object of the class that `select_tick_state_handler` selects for
  -- the handler's. It has a tick state: the one that the handler had, with its value, or else one that
  -- is false. Whatever is written there is read back and changes neither the class nor what a call
  -- runs, which is what the handler's call runs; and enabling it again changes nothing.
  pub enable_tick_state-select :
      (b : Bool)
      → let e = enable_tick_state h in
        (class_of (set_tick_state b e) ≡ select_tick_state_handler (class_of h))
        × (get_tick_state e ≡ some (or (get_tick_state h) false))
        × (get_tick_state (set_tick_state b e) ≡ some b)
        × (call (set_tick_state b e) ≡ call h)
        × (enable_tick_state (set_tick_state b e) ≡ set_tick_state b e)
  enable_tick_state-select b =
      let e = enable_tick_state h in
      let kept = class_of-set b e in
      (
        kept ∙ class_of-enable,
        get-enable,
        get-set b e enable-has_one,
        call-set b e ∙ call-enable,
        enable-has (set_tick_state b e) (ap has_tick_state kept ∙ enable-has_one),
      )
