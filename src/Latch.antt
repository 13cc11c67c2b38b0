-- ===== src/Latch.antt =====
-- include/asioex/basic_transfer_latch.hpp and include/asioex/impl/transaction.hpp: latches that admit
-- one transfer, and transactions on one or two of them.
pub mod Single
pub mod Two
pub mod Pair
pub mod Threads
mod Tests
use asio_experiments.Prelude.{
  ℕ, Bool, true, false, not, ◌&&◌, ◌≡◌, refl, fun_ext, arith, eq_refl, Option, none, some, List, [],
  ◌∷◌, ◌==◌, if◌then◌else◌,
}

-- `basic_transfer_latch`; `locked` is the state of its mutex, with the rules of `std::mutex`.
pub record Latch : Type 0 where
  pub transferred : Bool
  pub locked : Bool

-- The latches by their addresses.
abbrev pub Latches : Type 0
Latches = ℕ → Latch

unfoldable pub put : Latches → ℕ → Latch → Latches
put s p l q = if q == p then l else s q

pub put-put : (s : Latches) (p : ℕ) (a b : Latch) → put (put s p a) p b ≡ put s p b
unfolding put
put-put s p a b = fun_ext λ q. ground arith

pub put-here : (s : Latches) (p : ℕ) (a : Latch) → put s p a p ≡ a
unfolding put
put-here s p a = rw (eq_refl p) refl

pub put-same : (s : Latches) (p : ℕ) (a : Latch) → s p ≡ a → put s p a ≡ s
unfolding put
put-same s p a e = fun_ext λ q. ground arith

pub put-other : (s : Latches) (p q : ℕ) (a : Latch) → ((q == p) ≡ false) → put s p a q ≡ s q
unfolding put
put-other s p q a d = rw d refl

-- `none` is a failed assertion, the unlocking of a mutex that is not locked, or the locking of one
-- that the thread itself has locked.
abbrev pub M : Type 0 → Type 0
M B = Latches → Option (B × Latches)

infixl 5 ◌>>=◌ ◌>>◌
abbrev pub ◌>>=◌ : {B C : Type 0} → M B → (B → M C) → M C
◌>>=◌ m f s = elim (m s) [ none ↦ none | some (b, s') ↦ f b s' ]

abbrev pub ◌>>◌ : {C : Type 0} → M (Unit {0}) → M C → M C
m >> k = m >>= λ _. k

abbrev pub pure : {B : Type 0} → B → M B
pure b s = some (b, s)

abbrev pub assert : Bool → M (Unit {0})
assert true s = some (tt, s)
assert false s = none

abbrev pub lock : ℕ → M (Unit {0})
lock p s = if (s p).locked then none else some (tt, put s p (record (s p) { locked = true }))

abbrev pub unlock : ℕ → M (Unit {0})
unlock p s = if (s p).locked then some (tt, put s p (record (s p) { locked = false })) else none

abbrev pub may_commit : ℕ → M Bool
may_commit p s = some (not (s p).transferred, s)

abbrev pub set_transferred : ℕ → Bool → M (Unit {0})
set_transferred p b s = some (tt, put s p (record (s p) { transferred = b }))

pub ruleset latch_steps =
    (lock, unlock, may_commit, assert, set_transferred, pure, ◌>>=◌, ◌>>◌, put-here, put-put)

unfoldable pub commit : ℕ → M (Unit {0})
commit p = do open_still ← may_commit p; assert open_still; set_transferred p true; unlock p

unfoldable pub rollback : ℕ → M (Unit {0})
rollback p = do open_still ← may_commit p; assert open_still; unlock p

unfoldable pub reset : ℕ → M (Unit {0})
reset p = set_transferred p false

-- `transaction1`, by its pointer.
pub record Transaction1 : Type 0 where
  pub latch : Option ℕ

abbrev pub is_some : Option ℕ → Bool
is_some none = false
is_some (some p) = true

abbrev pub may_commit1 : Transaction1 → Bool
may_commit1 t = is_some t.latch

-- The pointer is exchanged for null, so the transaction that is left has none.
unfoldable pub rollback1 : Transaction1 → M Transaction1
rollback1 t = elim t.latch [
  | none ↦ pure t
  | some p ↦ (do rollback p; pure (record { latch = none }))
]

unfoldable pub commit1 : Transaction1 → M Transaction1
commit1 t = elim t.latch [
  | none ↦ λ s. none
  | some p ↦ (do able ← may_commit p; assert able; commit p; pure (record { latch = none }))
]

-- `~transaction1`
unfoldable pub destroy1 : Transaction1 → M (Unit {0})
destroy1 t = do _ ← rollback1 t; pure tt

unfoldable pub begin1 : ℕ → M Transaction1
begin1 p = do
  lock p
  able ← may_commit p
  if able then pure (record { latch = some p }) else (do unlock p; pure (record { latch = none }))

pub record Transaction2 : Type 0 where
  pub latch1 : Option ℕ
  pub latch2 : Option ℕ

abbrev pub no_transaction : Transaction2
no_transaction = record { latch1 = none; latch2 = none }

abbrev pub may_commit2 : Transaction2 → Bool
may_commit2 t = is_some t.latch1

-- A call through the pointer `p`, which must not be null.
abbrev pub through : Option ℕ → (ℕ → M (Unit {0})) → M (Unit {0})
through none f s = none
through (some p) f s = f p s

unfoldable pub rollback2 : Transaction2 → M Transaction2
rollback2 t = elim t.latch1 [
  | none ↦ pure t
  | some p ↦ (do rollback p; through t.latch2 rollback; pure no_transaction)
]

abbrev pub assert_able : ℕ → M (Unit {0})
assert_able p = do able ← may_commit p; assert able

unfoldable pub commit2 : Transaction2 → M Transaction2
commit2 t = do
  through t.latch1 assert_able
  through t.latch2 assert_able
  through t.latch1 commit
  through t.latch2 commit
  pure no_transaction

unfoldable pub destroy2 : Transaction2 → M (Unit {0})
destroy2 t = do _ ← rollback2 t; pure tt

unfoldable pub begin2 : ℕ → ℕ → M Transaction2
begin2 p q = do
  lock p
  lock q
  first ← may_commit p
  second ← may_commit q
  if first && second
      then pure (record { latch1 = some p; latch2 = some q })
      else (do unlock p; unlock q; pure no_transaction)
