-- ===== src/Channel/Offer.antt =====
-- One value is offered to the operations that wait.
use asio_experiments.Prelude.{
  ℕ, ◌≡◌, inl, inr, refl, Bool, true, false, Bool-cases, Option, none, some, List, [], ◌∷◌,
  if◌then◌else◌, ◌==◌, eq_refl, ◌+◌, ◌<◌, arith,
}
use asio_experiments.Latch.{
  Latch, Latches, put, put-here, put-put, ◌>>=◌, ◌>>◌, destroy1, rollback1,
}
use asio_experiments.Latch.Single.{open_held, done_free, begin1-open, begin1-done, commit1-held}
use asio_experiments.Latch.Threads.Owned.{one_if}
use asio_experiments.Channel.{Waiter, Offered, read, offer}

-- No transaction is under way.
abbrev pub Quiet : Latches → Type 0
Quiet s = (p : ℕ) → (s p).locked ≡ false

-- The first operation that can still be served, and the rest; an operation whose latch is
-- transferred has been served by another channel or has been given up.
abbrev pub skip : Waiter → Offered → Offered
skip w o = record { taker = o.taker; left = w ∷ o.left }

unfoldable pub first_open : Latches → List Waiter → Offered
first_open s [] = record { taker = none; left = [] }
first_open s (w ∷ ws) =
    if (s w.latch).transferred
    then skip w (first_open s ws)
    else record { taker = some w; left = ws }

-- The latches after it has been served.
abbrev pub served : Latches → Option Waiter → Latches
served s none = s
served s (some w) = put s w.latch done_free

latch_is :
    (l : Latch) (b : Bool)
    → l.transferred ≡ b
    → l.locked ≡ false
    → l ≡ record { transferred = b; locked = false }
latch_is l b e e' = rw (e, e') refl

-- How often the object at `a` stands in the list, and that all of the list are there.
abbrev pub occurs : ℕ → List Waiter → ℕ
occurs a [] = 0
occurs a (w ∷ ws) = one_if (w.address == a) + occurs a ws

abbrev pub AllAlive : (ℕ → Bool) → List Waiter → Type 0
AllAlive alive ws = (a : ℕ) → 0 < occurs a ws → alive a ≡ true

AllAlive-head :
    (alive : ℕ → Bool) (w : Waiter) (ws : List Waiter)
    → AllAlive alive (w ∷ ws)
    → alive w.address ≡ true
AllAlive-head alive w ws v = v w.address (ground (arith, eq_refl w.address))

AllAlive-tail :
    (alive : ℕ → Bool) (w : Waiter) (ws : List Waiter) → AllAlive alive (w ∷ ws) → AllAlive alive ws
AllAlive-tail alive w ws v a u = v a (omega arith)

pub offer-first_open :
    (alive : ℕ → Bool) (s : Latches) (ws : List Waiter)
    → Quiet s
    → AllAlive alive ws
    → offer alive ws s ≡ some (first_open s ws, served s (first_open s ws).taker)
unfolding offer read first_open destroy1 rollback1
offer-first_open alive s [] q v = refl
offer-first_open alive s (w ∷ ws) q v = elim (Bool-cases (s w.latch).transferred) [
  | inl e ↦
      simp
        (
          AllAlive-head alive w ws v,
          begin1-done s w.latch (latch_is (s w.latch) true e (q w.latch)),
          offer-first_open alive s ws q (AllAlive-tail alive w ws v),
          e,
          ◌>>=◌,
          ◌>>◌,
        )
        refl
  | inr e ↦
      simp
        (
          AllAlive-head alive w ws v,
          begin1-open s w.latch (latch_is (s w.latch) false e (q w.latch)),
          commit1-held (put s w.latch open_held) w.latch (put-here s w.latch open_held),
          put-put,
          e,
          ◌>>=◌,
          ◌>>◌,
        )
        refl
]
