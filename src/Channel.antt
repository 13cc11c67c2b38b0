-- ===== src/Channel.antt =====
-- test/transactions.cpp: transfers of values through latches, and a channel that offers what is sent
-- to the operations that wait for it.
pub mod Offer
pub mod Send
pub mod Books
pub mod Places
pub mod Select
pub mod Atomic
mod Tests
use asio_experiments.Prelude.{
  ℕ, Bool, true, false, leb, length, Option, none, some, List, [], ◌∷◌, ◌++◌, ◌==◌, if◌then◌else◌,
}
use asio_experiments.Latch.{
  Latches, M, ◌>>=◌, ◌>>◌, pure, begin1, commit1, destroy1, may_commit1, begin2, commit2, destroy2,
  may_commit2,
}

-- `delivery_model_base`: an object of an operation that waits for a value, by its address, with its
-- latch, which lives longer; an operation that waits on several channels has an object for each, all
-- with the same latch. The virtual `transfer` is not in this program: a call of it is recorded, and
-- destroys the object, as its comment says.
pub record Waiter : Type 0 where
  pub latch : ℕ
  pub address : ℕ

-- `value_channel_impl`; `error` says whether `error_` is set.
pub record Channel (V : Type 0) : Type 0 where
  pub error : Bool
  pub queue : List V
  pub capacity : ℕ
  pub deliver_ops : List Waiter

-- The operation that takes the value, if any, and those that are left in the list.
pub record Offered : Type 0 where
  pub taker : Option Waiter
  pub left : List Waiter

-- Reading an object that has been destroyed is a fault.
unfoldable pub read : Bool → M (Unit {0})
read true = pure tt
read false = λ s. none

-- The loop of `try_send`, from `current` on; `alive` says which objects there are.
unfoldable pub offer : (ℕ → Bool) → List Waiter → M Offered
unfolding read
offer alive [] = pure (record { taker = none; left = [] })
offer alive (this_waiter ∷ next) = do
  read (alive this_waiter.address)
  t ← begin1 this_waiter.latch
  if may_commit1 t
      then (do t' ← commit1 t; destroy1 t'; pure (record { taker = some this_waiter; left = next }))
      else (do
        destroy1 t
        o ← offer alive next
        pure (record { taker = o.taker; left = this_waiter ∷ o.left }))

-- A call of `transfer`, which destroys the object `to` before it hands the value over.
pub record Transfer (V : Type 0) : Type 0 where
  pub to : Waiter
  pub value : V

-- What `try_send` returns, the channel afterwards, and the call of `transfer`, if there is one; the
-- value is moved from exactly if it returns true.
pub record Sent (V : Type 0) : Type 0 where
  pub sent : Bool
  pub channel : Channel V
  pub transfers : List (Transfer V)

module _ {V : Type 0} where
  -- The objects that are left after the calls of `transfer`.
  unfoldable pub destroyed : List (Transfer V) → (ℕ → Bool) → ℕ → Bool
  destroyed [] alive a = alive a
  destroyed (t ∷ ts) alive a = if t.to.address == a then false else destroyed ts alive a

  unfoldable pub store : V → Channel V → Sent V
  store val c =
      if leb c.capacity (length c.queue)
      then record { sent = false; channel = c; transfers = [] }
      else record {
        sent = true;
        channel = record c { queue = c.queue ++ (val ∷ []) };
        transfers = [];
      }

  -- What `try_send` does with the value once the loop has ended.
  unfoldable pub hand : V → Channel V → Offered → Sent V
  unfolding store
  hand val c o = elim o.taker [
    | some this_waiter ↦ record {
      sent = true;
      channel = record c { deliver_ops = o.left };
      transfers = record { to = this_waiter; value = val } ∷ [];
    }
    | none ↦ store val (record c { deliver_ops = o.left })
  ]

  unfoldable pub try_send : V → (ℕ → Bool) → Channel V → M (Sent V)
  unfolding hand
  try_send val alive c = do o ← offer alive c.deliver_ops; pure (hand val c o)

  unfoldable pub make : ℕ → Channel V
  make cap = record { error = false; queue = []; capacity = cap; deliver_ops = [] }

  unfoldable pub close : Channel V → Channel V
  close c = record c { error = true }

  -- `val` is what the source gives, or the value itself; the list is what the target is given.
  unfoldable pub atomic_deliver : ℕ → V → M (Bool × List V)
  atomic_deliver target_latch val = do
    t ← begin1 target_latch
    if may_commit1 t
        then (do t' ← commit1 t; destroy1 t'; pure (true, val ∷ []))
        else (do destroy1 t; pure (false, []))

  unfoldable pub atomic_transfer : ℕ → ℕ → V → M (Bool × List V)
  atomic_transfer source_latch target_latch val = do
    t ← begin2 source_latch target_latch
    if may_commit2 t
        then (do t' ← commit2 t; destroy2 t'; pure (true, val ∷ []))
        else (do destroy2 t; pure (false, []))
