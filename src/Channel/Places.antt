-- ===== src/Channel/Places.antt =====
-- Where the objects of the operations that wait stand, and which are left when values are sent.
use asio_experiments.Prelude.{
  ℕ, ◌+◌, ◌≤◌, ◌<◌, ◌≡◌, refl, subst, ◌∙◌, inl, inr, Bool, leb, length, Bool-cases, List, [], ◌∷◌,
  ◌++◌, ◌==◌, if◌then◌else◌, arith,
}
use asio_experiments.Prelude.Sums.{update}
use asio_experiments.Latch.{Latches}
use asio_experiments.Latch.Threads.Owned.{one_if}
use asio_experiments.Channel.{Waiter, Channel, Offered, Transfer, Sent, destroyed, store, hand}
use asio_experiments.Channel.Offer.{occurs, AllAlive}
use asio_experiments.Channel.Send.{Finds}

occurs-append : (a : ℕ) (xs ys : List Waiter) → occurs a (xs ++ ys) ≡ occurs a xs + occurs a ys
occurs-append a [] ys = omega arith
occurs-append a (x ∷ xs) ys = omega (arith, occurs-append a xs ys)

module _ {V : Type 0} where
  -- The operations that wait are all alive, and each object stands in one place of one list.
  pub record Placed (alive : ℕ → Bool) (cs : ℕ → Channel V) : Type 0 where
    pub exist : (i : ℕ) → AllAlive alive (cs i).deliver_ops
    pub once : (i a : ℕ) → occurs a (cs i).deliver_ops ≤ 1
    pub apart :
        (i j a : ℕ) → 0 < occurs a (cs i).deliver_ops → 0 < occurs a (cs j).deliver_ops → i ≡ j

  -- How many transfers are made to the object at `a`.
  abbrev handed : ℕ → List (Transfer V) → ℕ
  handed a [] = 0
  handed a (t ∷ ts) = one_if (t.to.address == a) + handed a ts

  destroyed-others :
      (ts : List (Transfer V)) (alive : ℕ → Bool) (a : ℕ)
      → handed a ts ≡ 0
      → destroyed ts alive a ≡ alive a
  unfolding destroyed
  destroyed-others [] alive a e = refl
  destroyed-others (t ∷ ts) alive a e = ground (arith, destroyed-others ts alive a)

  -- The object that takes the value leaves the list.
  pub hand-occurs :
      (a : ℕ) (v : V) (c : Channel V) (s : Latches) (o : Offered)
      → Finds s c.deliver_ops o
      → occurs a (hand v c o).channel.deliver_ops + handed a (hand v c o).transfers
        ≡ occurs a c.deliver_ops
  unfolding hand store
  hand-occurs a v c s o (inl (before, behind, w, split, closed, free, e)) =
      rw (e, split)
        (ground (arith, occurs-append a before behind, occurs-append a before (w ∷ behind)))
  hand-occurs a v c s o (inr (closed, e)) =
      rw e (elim (Bool-cases (leb c.capacity (length c.queue))) [
        | inl full ↦ rw full (omega arith)
        | inr room ↦ rw room (omega arith)
      ])

  -- One send, on the channel `j`.
  module _ (alive : ℕ → Bool) (cs : ℕ → Channel V) (j : ℕ) (x : Sent V)
      (moved : (a : ℕ)
        → occurs a x.channel.deliver_ops + handed a x.transfers ≡ occurs a (cs j).deliver_ops)
      (p : Placed alive cs) where
    fewer : (i a : ℕ) → occurs a (update cs j x.channel i).deliver_ops ≤ occurs a (cs i).deliver_ops
    fewer i a = elim (Bool-cases (i == j)) [
      | inl same ↦ let q : i ≡ j = ground arith in rw (same, q) (omega (arith, moved a))
      | inr other ↦ rw other (omega arith)
    ]

    -- What is still in a list has not been handed a value.
    unhanded :
        (i a : ℕ) → 0 < occurs a (update cs j x.channel i).deliver_ops → handed a x.transfers ≡ 0
    unhanded i a u = elim (Bool-cases (i == j)) [
      | inl same ↦
          let here : 0 < occurs a x.channel.deliver_ops =
            subst (λ b. 0 < occurs a (if b then x.channel else cs i).deliver_ops) same u in
          omega (arith, here, moved a, p.once j a)
      | inr other ↦ ground (arith, p.apart i j a, fewer i a, moved a)
    ]

    pub send-Placed : Placed (destroyed x.transfers alive) (update cs j x.channel)
    send-Placed = record {
      exist = λ i a u.
          destroyed-others x.transfers alive a (unhanded i a u)
          ∙ p.exist i a (omega (arith, u, fewer i a));
      once = λ i a. omega (arith, fewer i a, p.once i a);
      apart =
          λ i k a u v. p.apart i k a (omega (arith, u, fewer i a)) (omega (arith, v, fewer k a));
    }
