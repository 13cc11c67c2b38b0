-- ===== src/CircularBuffer.antt =====
-- filing-cabinet/expanding_circular_buffer.hpp: a queue in an array that grows when it is full.
pub mod Window
pub mod Refine
pub mod Queue
mod Tests
use asio_experiments.Prelude.{
  ℕ, zero, suc, ◌+◌, ◌-◌, ◌*◌, ◌/◌, ◌^◌, Bool, true, false, not, Option, none, some, List, [], ◌∷◌,
  ◌++◌, ltb, leb, ◌==◌, if◌then◌else◌, length, get_or, set, take, drop, replicate,
}

-- The largest `std::size_t`.
abbrev pub size_max : ℕ
size_max = 2 ^ 64 - 1

abbrev pub initial_capacity : ℕ
initial_capacity = 16

pub record Buffer (A : Type 0) : Type 0 where
  pub capacity : ℕ
  pub size : ℕ
  pub front_pos : ℕ
  pub back_pos : ℕ
  pub storage : Option (List A)

-- How a call ends: `bad_alloc` is thrown by `grow`, `fault` is a failed assertion or a null pointer.
pub data Outcome (B : Type 0) : Type 0 where
  ok : B → Outcome B
  bad_alloc fault : Outcome B

infixl 5 ◌>>=◌
abbrev pub ◌>>=◌ : {B C : Type 0} → Outcome B → (B → Outcome C) → Outcome C
ok b >>= f = f b
bad_alloc >>= f = bad_alloc
fault >>= f = fault

-- `pos`, or the place at the other end of the array.
abbrev pub wrap : ℕ → ℕ → ℕ
wrap capacity pos = if leb capacity pos then pos - capacity else pos

module _ {A : Type 0} where
  abbrev pub empty : Buffer A
  empty = record { capacity = 0; size = 0; front_pos = 0; back_pos = 0; storage = none }

  -- `std::copy` of `xs` to the beginning of an array.
  unfoldable pub copy_to : List A → List A → List A
  copy_to [] ys = ys
  copy_to (x ∷ xs) [] = []
  copy_to (x ∷ xs) (y ∷ ys) = x ∷ copy_to xs ys

  -- The elements that `grow` copies, in the order in which it copies them.
  unfoldable pub moved : Buffer A → List A → List A
  moved b s =
      if leb b.back_pos b.front_pos
      then drop b.front_pos s ++ take b.back_pos s
      else take (b.back_pos - b.front_pos) (drop b.front_pos s)

module _ {A : Type 0} (default : A) where
  unfoldable pub init : Buffer A → Buffer A
  init b = record b {
    storage = some (replicate initial_capacity default);
    capacity = initial_capacity;
    front_pos = 0;
    back_pos = 0;
  }

  unfoldable pub grow : Buffer A → List A → Outcome (Buffer A)
  unfolding moved copy_to
  grow b s =
      if ltb (size_max / 2) b.capacity
      then bad_alloc
      else let new_cap = b.capacity * 2 in
        let size = length (moved b s) in
        if not (size == b.size)
        then fault
        else ok (record b {
          storage = some (copy_to (moved b s) (replicate new_cap default));
          capacity = new_cap;
          front_pos = 0;
          back_pos = size;
        })

  unfoldable pub make_room : Buffer A → Outcome (Buffer A)
  unfolding init grow
  make_room b =
      if b.size == b.capacity
      then (elim b.storage [ none ↦ ok (init b) | some s ↦ grow b s ])
      else ok b

  -- The part of `push` behind the growth.
  unfoldable pub put : A → Buffer A → Outcome (Buffer A)
  put p b = elim b.storage [
    | none ↦ fault
    | some s ↦ ok (record b {
      size = b.size + 1;
      storage = some (set s b.back_pos p);
      back_pos = wrap b.capacity (b.back_pos + 1);
    })
  ]

  unfoldable pub push : A → Buffer A → Outcome (Buffer A)
  unfolding make_room put
  push p b = do b' ← make_room b; put p b'

  -- The result, and the buffer without it.
  unfoldable pub pop : Buffer A → Outcome (A × Buffer A)
  pop b = if b.size == 0 then fault else elim b.storage [
    | none ↦ fault
    | some s ↦ ok (
      get_or s b.front_pos default,
      record b { front_pos = wrap b.capacity (b.front_pos + 1); size = b.size - 1 },
    )
  ]
