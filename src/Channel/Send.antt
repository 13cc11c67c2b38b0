-- ===== src/Channel/Send.antt =====
-- `try_send` against what a channel promises: the first operation that can still be served gets the
-- value, else it is kept if there is room, else it stays with the sender.
use asio_experiments.Prelude.{
  ℕ, Bool, ◌≤◌, ◌<◌, ◌≡◌, ◌⊎◌, inl, inr, refl, ap, true, false, leb, length, Bool-cases, none, some,
  List, [], ◌∷◌, ◌++◌, arith,
}
use asio_experiments.Latch.{Latches, put, ◌>>=◌}
use asio_experiments.Latch.Single.{done_free}
use asio_experiments.Channel.{Waiter, Channel, Offered, Sent, store, hand, try_send}
use asio_experiments.Channel.Offer.{Quiet, first_open, skip, served, AllAlive, offer-first_open}

-- The latches of all these operations are transferred.
abbrev pub AllClosed : Latches → List Waiter → Type 0
AllClosed s [] = Unit {0}
AllClosed s (w ∷ ws) = ((s w.latch).transferred ≡ true) × AllClosed s ws

-- `o` is what is found in `ws`.
abbrev pub Finds : Latches → List Waiter → Offered → Type 0
Finds s ws o =
    ((before behind : List Waiter) × (w : Waiter) × (ws ≡ before ++ (w ∷ behind))
      × AllClosed s before
      × ((s w.latch).transferred ≡ false)
      × (o ≡ record { taker = some w; left = before ++ behind }))
    ⊎ (AllClosed s ws × (o ≡ record { taker = none; left = ws }))

pub first_open-Finds : (s : Latches) (ws : List Waiter) → Finds s ws (first_open s ws)
unfolding first_open
first_open-Finds s [] = inr (tt, refl)
first_open-Finds s (w ∷ ws) = elim (Bool-cases (s w.latch).transferred) [
  | inr e ↦ inl ([], ws, w, refl, tt, e, rw e refl)
  | inl e ↦ elim (first_open-Finds s ws) [
    | inl (before, behind, x, split, closed, free, f) ↦
        inl (w ∷ before, behind, x, ap (λ l. w ∷ l) split, (e, closed), free, rw e (ap (skip w) f))
    | inr (closed, f) ↦ inr ((e, closed), rw e (ap (skip w) f))
  ]
]

module _ {V : Type 0} where
  pub try_send-hand :
      (val : V) (alive : ℕ → Bool) (c : Channel V) (s : Latches)
      → Quiet s
      → AllAlive alive c.deliver_ops
      → let o = first_open s c.deliver_ops in
        try_send val alive c s ≡ some (hand val c o, served s o.taker)
  unfolding try_send
  try_send-hand val alive c s q v = simp (offer-first_open alive s c.deliver_ops q v, ◌>>=◌) refl

  -- What a send comes to, with the latches afterwards.
  pub data Outcome (s : Latches) (val : V) (c : Channel V) : Sent V → Latches → Type 0 where
    delivered :
        (before behind : List Waiter) (w : Waiter)
        → c.deliver_ops ≡ before ++ (w ∷ behind)
        → AllClosed s before
        → (s w.latch).transferred ≡ false
        → Outcome s val c
            (record {
              sent = true;
              channel = record c { deliver_ops = before ++ behind };
              transfers = record { to = w; value = val } ∷ [];
            })
            (put s w.latch done_free)
    stored :
        AllClosed s c.deliver_ops
        → length c.queue < c.capacity
        → Outcome s val c
            (record {
              sent = true;
              channel = record c { queue = c.queue ++ (val ∷ []) };
              transfers = [];
            })
            s
    refused :
        AllClosed s c.deliver_ops
        → c.capacity ≤ length c.queue
        → Outcome s val c (record { sent = false; channel = c; transfers = [] }) s

  hand-Outcome :
      (val : V) (c : Channel V) (s : Latches) (o : Offered)
      → Finds s c.deliver_ops o
      → Outcome s val c (hand val c o) (served s o.taker)
  unfolding hand store
  hand-Outcome val c s o (inl (before, behind, w, split, closed, free, f)) =
      rw f (delivered before behind w split closed free)
  hand-Outcome val c s o (inr (closed, f)) =
      rw f (elim (Bool-cases (leb c.capacity (length c.queue))) [
        | inl full ↦ rw full (refused closed (ground arith))
        | inr room ↦ rw room (stored closed (ground arith))
      ])

  -- A send on a channel, closed or not, whose waiting operations are all alive, while no transaction
  -- is under way, does not fault. The first
  -- operation that waits with an open latch gets the value and leaves the list, and its latch is
  -- transferred; if there is none, the value is kept if there is room, or else refused, and the
  -- latches stay as they are.
  pub try_send_refines :
      (val : V) (alive : ℕ → Bool) (c : Channel V) (s : Latches)
      → Quiet s
      → AllAlive alive c.deliver_ops
      → (r : Sent V) × (s' : Latches) × (try_send val alive c s ≡ some (r, s'))
        × Outcome s val c r s'
  try_send_refines val alive c s q v =
      let o = first_open s c.deliver_ops in
      (
        hand val c o,
        served s o.taker,
        try_send-hand val alive c s q v,
        hand-Outcome val c s o (first_open-Finds s c.deliver_ops),
      )
