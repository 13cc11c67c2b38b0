-- ===== src/Channel/Select.antt =====
-- Values that are sent on several channels, on which the same operation may wait with an object for
-- each: the latch that the objects share sees to it that the operation takes one value.
use mathlib.Core.List.{Perm}
use mathlib.Core.List.Perm
use asio_experiments.Prelude.{
  ℕ, ◌+◌, ◌≤◌, ◌≡◌, inl, inr, refl, sym, append-nil, append_assoc, Bool, false, leb, length,
  length-append, Bool-cases, Option, none, some, List, [], ◌∷◌, ◌++◌, map, ◌&&◌, ◌==◌, eq_refl,
  if◌then◌else◌, arith,
}
use asio_experiments.Prelude.Sums.{update}
use asio_experiments.Latch.{Latches, put, M, ◌>>=◌, pure}
use asio_experiments.Latch.Threads.Owned.{one_if}
use asio_experiments.Channel.{Waiter, Channel, Offered, Sent, destroyed, store, hand, try_send}
use asio_experiments.Channel.Books.{
  Log, times, passed, accepted, times-append, passed-append, passed-apart, joined,
}
use asio_experiments.Channel.Offer.{Quiet, first_open, served}
use asio_experiments.Channel.Places.{Placed, hand-occurs, send-Placed}
use asio_experiments.Channel.Send.{try_send-hand, Finds, first_open-Finds}

served-Quiet : (s : Latches) (t : Option Waiter) → Quiet s → Quiet (served s t)
unfolding put
served-Quiet s none q p = q p
served-Quiet s (some w) q p = ground (arith, q p)

module _ {V : Type 0} where
  -- Each value is sent on the channel with its number; a `transfer` destroys the object that it is
  -- called on before the next value is sent.
  unfoldable pub send_all : List (ℕ × V) → (ℕ → Bool) → (ℕ → Channel V) → M (Log V)
  send_all [] alive cs = pure (record { replies = []; channels = cs; transfers = [] })
  send_all ((i, v) ∷ sends) alive cs = do
    x ← try_send v alive (cs i)
    y ← send_all sends (destroyed x.transfers alive) (update cs i x.channel)
    pure (record {
      replies = x.sent ∷ y.replies;
      channels = y.channels;
      transfers = map (λ t. (i, t)) x.transfers ++ y.transfers;
    })

  -- The channel keeps what it does not pass on.
  abbrev Keeps : (j i : ℕ) → V → Sent V → List V → List V → Type 0
  Keeps j i v x before behind =
      (kept : List V) × (behind ≡ before ++ kept)
      × (passed i (map (λ t. (j, t)) x.transfers) ++ kept
          ≡ (if (j == i) && x.sent then v ∷ [] else []))

  hand-Keeps :
      (j : ℕ) (v : V) (c : Channel V) (t : Option Waiter) (ws : List Waiter)
      → let x = hand v c (record { taker = t; left = ws }) in Keeps j j v x c.queue x.channel.queue
  unfolding hand store
  hand-Keeps j v c (some w) ws = ([], sym (append-nil c.queue), rw (eq_refl j) refl)
  hand-Keeps j v c none ws = elim (Bool-cases (leb c.capacity (length c.queue))) [
    | inl full ↦ rw full ([], sym (append-nil c.queue), rw (eq_refl j) refl)
    | inr room ↦ rw room (v ∷ [], refl, rw (eq_refl j) refl)
  ]

  apart-Keeps :
      (j i : ℕ) (v : V) (x : Sent V) (queue : List V) → (j == i) ≡ false → Keeps j i v x queue queue
  apart-Keeps j i v x queue e = ([], sym (append-nil queue), rw e (passed-apart i j x.transfers e))

  hand-room :
      (v : V) (c : Channel V) (t : Option Waiter) (ws : List Waiter)
      → length c.queue ≤ c.capacity
      → let x = hand v c (record { taker = t; left = ws }) in
        length x.channel.queue ≤ x.channel.capacity
  unfolding hand store
  hand-room v c (some w) ws le = le
  hand-room v c none ws le = elim (Bool-cases (leb c.capacity (length c.queue))) [
    | inl full ↦ rw full le
    | inr room ↦ rw room (ground (arith, length-append c.queue (v ∷ [])))
  ]

  hand-times :
      (p j : ℕ) (v : V) (c : Channel V) (s : Latches) (o : Offered)
      → Finds s c.deliver_ops o
      → one_if (s p).transferred + times p (map (λ t. (j, t)) (hand v c o).transfers)
        ≡ one_if (served s o.taker p).transferred
  unfolding hand store put
  hand-times p j v c s o (inl (before, behind, w, split, closed, free, e)) = rw e (ground arith)
  hand-times p j v c s o (inr (closed, e)) =
      rw e (elim (Bool-cases (leb c.capacity (length c.queue))) [
        | inl full ↦ rw full (ground arith)
        | inr room ↦ rw room (ground arith)
      ])

  -- The channels after one send, on the channel `j`.
  module _ (j : ℕ) (x : Sent V) (cs : ℕ → Channel V) where
    step-Keeps :
        (v : V)
        → Keeps j j v x (cs j).queue x.channel.queue
        → (i : ℕ) → Keeps j i v x (cs i).queue (update cs j x.channel i).queue
    step-Keeps v k i = elim (Bool-cases (i == j)) [
      | inl same ↦ let q : i ≡ j = ground arith in rw (same, q) k
      | inr apart ↦
          let q : (j == i) ≡ false = ground arith in rw apart (apart-Keeps j i v x (cs i).queue q)
    ]

    step-room :
        length x.channel.queue ≤ x.channel.capacity
        → ((i : ℕ) → length (cs i).queue ≤ (cs i).capacity)
        → (i : ℕ) → length (update cs j x.channel i).queue ≤ (update cs j x.channel i).capacity
    step-room e le i = elim (Bool-cases (i == j)) [
      | inl same ↦ rw same e
      | inr apart ↦ rw apart (le i)
    ]

  -- However values are sent on channels whose queues are within their capacities, while no
  -- transaction is under way, and while the operations that wait are alive and each object stands in
  -- one place of the list of one channel, though objects may share a latch: nothing faults, also where an
  -- object that has been given a value is destroyed; a latch is transferred afterwards if it was before or
  -- just one transfer went to it, and never takes a second; each channel keeps behind its queue, or
  -- passes on, just the values that it has accepted, each once, and its queue stays within its
  -- capacity.
  pub send_all-once :
      (sends : List (ℕ × V)) (alive : ℕ → Bool) (cs : ℕ → Channel V) (s : Latches)
      → Quiet s
      → Placed alive cs
      → ((i : ℕ) → length (cs i).queue ≤ (cs i).capacity)
      → (log : Log V) × (s' : Latches) × (send_all sends alive cs s ≡ some (log, s'))
        × Quiet s'
        × ((p : ℕ) → one_if (s p).transferred + times p log.transfers ≡ one_if (s' p).transferred)
        × ((i : ℕ)
            → (kept : List V) × ((log.channels i).queue ≡ (cs i).queue ++ kept)
              × Perm (accepted i sends log.replies) (passed i log.transfers ++ kept))
        × ((i : ℕ) → length (log.channels i).queue ≤ (log.channels i).capacity)
  unfolding send_all
  send_all-once [] alive cs s q placed le =
      (_, s, refl, q, λ p. omega arith, λ i. ([], sym (append-nil (cs i).queue), Perm.nil), le)
  send_all-once ((j, v) ∷ sends) alive cs s q placed le =
      let o = first_open s (cs j).deliver_ops in
      let x = hand v (cs j) o in
      let f = first_open-Finds s (cs j).deliver_ops in
      let (log, s', runs, q', once, kept, room) =
        send_all-once sends (destroyed x.transfers alive) (update cs j x.channel) (served s o.taker)
          (served-Quiet s o.taker q)
          (send-Placed alive cs j x (λ a. hand-occurs a v (cs j) s o f) placed)
          (step-room j x cs (hand-room v (cs j) o.taker o.left (le j)) le) in
      (
        record {
          replies = x.sent ∷ log.replies;
          channels = log.channels;
          transfers = map (λ t. (j, t)) x.transfers ++ log.transfers;
        },
        s',
        simp (try_send-hand v alive (cs j) s q (placed.exist j), runs, ◌>>=◌) refl,
        q',
        λ p. omega (
          arith,
          once p,
          hand-times p j v (cs j) s o f,
          times-append p (map (λ t. (j, t)) x.transfers) log.transfers,
        ),
        λ i.
            (let (k, e, d) = step-Keeps j x cs v (hand-Keeps j v (cs j) o.taker o.left) i in
              let (k', e', d') = kept i in
              let first = passed i (map (λ t. (j, t)) x.transfers) in
              (
                k ++ k',
                rw (e', e) (append_assoc (cs i).queue k k'),
                rw (passed-append i (map (λ t. (j, t)) x.transfers) log.transfers, ← d)
                    (joined first k (accepted i sends log.replies) (passed i log.transfers) k' d'),
              )),
        room,
      )
