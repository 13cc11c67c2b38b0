-- ===== src/Range.antt =====
-- include/asioex/for.hpp: the ranges behind `co_for`, over a channel and over a coroutine.
pub mod Lifetime
mod Tests
use asio_experiments.Prelude.{
  Bool, true, false, not, ◌||◌, Option, none, some, List, [], ◌∷◌, if◌then◌else◌,
}

-- A range: its flag, and the value that is alive in its storage.
pub record Range (T : Type 0) : Type 0 where
  pub has_value : Bool
  pub storage : Option T

-- How a call ends: it returns, it leaves by an exception, or it uses a value that is not alive.
pub data Ended (B : Type 0) : Type 0 where
  returns : B → Ended B
  throws : Ended B
  undefined : Ended B

-- What the world does during one `wait`: whether cancellation has been asked for, whether the
-- source is open, and what it delivers.
pub record Turn (D : Type 0) : Type 0 where
  pub cancelled : Bool
  pub is_open : Bool
  pub delivers : D

-- The destructor runs while an exception goes through.
abbrev pub unwound : Ended (Unit {0}) → Ended (Unit {0})
unwound (returns b) = throws
unwound throws = throws
unwound undefined = undefined

module _ {T : Type 0} where
  -- `range_from`
  abbrev pub range_from : Range T
  range_from = record { has_value = false; storage = none }

  -- `init() = value`
  abbrev pub assign : T → Range T → Ended Bool × Range T
  assign value r = elim r.storage [
    | none ↦ (undefined, r)
    | some old ↦ (returns true, record r { storage = some value })
  ]

  -- `range_from_channel::wait`; `none` is an exception out of `async_receive`.
  unfoldable pub wait_channel : Turn (Option T) → Range T → Ended Bool × Range T
  wait_channel turn r =
      if turn.cancelled || not turn.is_open
      then (returns false, r)
      else if r.has_value
      then (elim turn.delivers [ none ↦ (throws, r) | some value ↦ assign value r ])
      else (let r = record r { has_value = true } in
          elim turn.delivers [
            | none ↦ (throws, r)
            | some value ↦ (returns true, record r { storage = some value })
          ])

  -- `range_from_coro::wait`; `none` is an exception out of `async_resume`, and `some none` the end of
  -- the coroutine.
  unfoldable pub wait_coro : Turn (Option (Option T)) → Range T → Ended Bool × Range T
  wait_coro turn r =
      if turn.cancelled || not turn.is_open then (returns false, r) else elim turn.delivers [
        | none ↦ (throws, r)
        | some resumed ↦ elim resumed [
          | none ↦ (returns false, r)
          | some value ↦
              if r.has_value
              then assign value r
              else (returns true, record { has_value = true; storage = some value })
        ]
      ]

  -- The destructors: a value is destroyed if the flag says that there is one.
  unfoldable pub destroy : Range T → Ended (Unit {0})
  destroy r =
      if r.has_value
      then (elim r.storage [ none ↦ undefined | some value ↦ returns tt ])
      else returns tt

  -- What the loop's body finds in the storage, before what the later rounds find.
  abbrev pub seen : Option T → List T × Ended (Unit {0}) → List T × Ended (Unit {0})
  seen none later = ([], undefined)
  seen (some value) (values, e) = (value ∷ values, e)

  -- One round of the loop of `co_for` has ended as `e`, with the range `r`.
  abbrev pub round : Ended Bool → Range T → List T × Ended (Unit {0}) → List T × Ended (Unit {0})
  round (returns true) r later = seen r.storage later
  round (returns false) r later = ([], destroy r)
  round throws r later = ([], unwound (destroy r))
  round undefined r later = ([], undefined)

module _ {T D : Type 0} (wait : Turn D → Range T → Ended Bool × Range T) where
  -- The loop of `co_for` with the end of the range: the values that its body sees, and how it ends.
  -- The body leaves the loop when there are no more turns.
  unfoldable pub co_for : List (Turn D) → Range T → List T × Ended (Unit {0})
  co_for [] r = ([], destroy r)
  co_for (turn ∷ turns) r = let (e, r') = wait turn r in round e r' (co_for turns r')
