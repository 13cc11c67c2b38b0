-- ===== src/Lifetime.antt =====
-- include/asioex/bind_lifetime.hpp: objects that live at least as long as a completion handler.
pub mod Alive
mod Tests
use asio_experiments.Prelude.{
  ℕ, suc, ◌-◌, Bool, true, false, Option, none, List, [], ◌∷◌, ◌==◌, if◌then◌else◌,
}

-- A lifetime is a shared pointer to the object at an address; a move leaves the count alone.
abbrev pub Counts : Type 0
Counts = ℕ → ℕ

unfoldable pub copy : ℕ → Counts → Counts
copy p counts = λ q. if q == p then suc (counts q) else counts q

unfoldable pub release : ℕ → Counts → Counts
release p counts = λ q. if q == p then counts q - 1 else counts q

-- `target` is a handler, or a token that becomes that handler.
pub record LifetimeBinder : Type 0 where
  pub lifetime : ℕ
  pub target : ℕ

-- A call of a handler, and how many share the object meanwhile.
pub record Call (A : Type 0) : Type 0 where
  pub target : ℕ
  pub args : A
  pub shared : ℕ

-- What an operation finds associated with its handler; `none` where it falls back on a default.
pub record Associations : Type 0 where
  pub executor : Option ℕ
  pub allocator : Option ℕ
  pub slot : Option ℕ

-- `lifetime_binder` specialises no associator and has neither `executor_type`, `allocator_type` nor
-- `cancellation_slot_type`, so Asio's associators find nothing with it, whatever its target has.
unfoldable pub associated : LifetimeBinder → Associations
associated b = record { executor = none; allocator = none; slot = none }

-- What happens to a handler: it is destroyed, kept, called, or asked for what is associated with it;
-- the initiation that was given it returns to its caller; and what other owners do with their copies
-- of the lifetime.
pub data Operation (A : Type 0) : Type 0 where
  ends pending : Operation A
  calls : A → Operation A → Operation A
  asks : (Associations → Operation A) → Operation A
  returns : Operation A → Operation A
  others_copy : Operation A → Operation A
  others_release : Operation A → Operation A

-- `lifetime_binder(lifetime, t)`
unfoldable pub lifetime_binder : ℕ → ℕ → Counts → LifetimeBinder × Counts
unfolding copy
lifetime_binder lifetime t counts =
    (record { lifetime = lifetime; target = t }, copy lifetime counts)

unfoldable pub get_lifetime : LifetimeBinder → Counts → ℕ × Counts
unfolding copy
get_lifetime b counts = (b.lifetime, copy b.lifetime counts)

-- `~lifetime_binder`
unfoldable pub destroy : LifetimeBinder → Counts → Counts
unfolding release
destroy b counts = release b.lifetime counts

unfoldable pub bind_lifetime : ℕ → ℕ → Counts → LifetimeBinder × Counts
unfolding lifetime_binder
bind_lifetime s t counts = lifetime_binder s t counts

pub record InitWrapper (A : Type 0) : Type 0 where
  pub lifetime : ℕ
  pub initiation : Operation A

module _ {A : Type 0} where
  unfoldable pub call : A → LifetimeBinder → Counts → Call A
  call args b counts = record { target = b.target; args = args; shared = counts b.lifetime }

  -- `init_wrapper(lifetime, init)`
  unfoldable pub init_wrapper : ℕ → Operation A → Counts → InitWrapper A × Counts
  unfolding copy
  init_wrapper lifetime init counts =
      (record { lifetime = lifetime; initiation = init }, copy lifetime counts)

-- The end of `initiate`: the wrapper and the result of `get_lifetime` are destroyed, if that has not
-- happened yet.
unfoldable pub finish : Bool → ℕ → Counts → Counts
unfolding release
finish true lifetime counts = release lifetime (release lifetime counts)
finish false lifetime counts = counts

module _ {A : Type 0} where
  -- The operation with its handler in a binder; `inside` says whether `initiate` has not returned.
  unfoldable pub run : Operation A → LifetimeBinder → Bool → Counts → List (Call A) × Counts
  unfolding destroy finish copy release call associated
  run ends b inside counts = ([], finish inside b.lifetime (destroy b counts))
  run pending b inside counts = ([], finish inside b.lifetime counts)
  run (calls args next) b inside counts =
      let (later, counts') = run next b inside counts in (call args b counts ∷ later, counts')
  run (asks next) b inside counts = run (next (associated b)) b inside counts
  run (returns next) b inside counts = run next b false (finish inside b.lifetime counts)
  run (others_copy next) b inside counts = run next b inside (copy b.lifetime counts)
  run (others_release next) b inside counts = run next b inside (release b.lifetime counts)

  -- `async_result::initiate`, and `init_wrapper::operator()` in it.
  unfoldable pub initiate : Operation A → LifetimeBinder → Counts → List (Call A) × Counts
  unfolding get_lifetime init_wrapper lifetime_binder run
  initiate initiation token counts =
      let (lifetime, counts1) = get_lifetime token counts in
      let (wrapper, counts2) = init_wrapper lifetime initiation counts1 in
      let (binder, counts3) = lifetime_binder wrapper.lifetime token.target counts2 in
      run wrapper.initiation binder true counts3
