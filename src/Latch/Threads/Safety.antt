-- ===== src/Latch/Threads/Safety.antt =====
-- What threads on the same latches can rely on, whatever order they act in.
use asio_experiments.Prelude.{
  ℕ, ◌+◌, ◌<◌, ◌≡◌, ◌≢◌, ◌⊎◌, inl, inr, refl, subst, some, Bool, true, false, ◌&&◌, ◌==◌,
  Bool-cases, arith,
}
use asio_experiments.Prelude.Sums.{total, total-same, total-none}
use asio_experiments.Latch.{Latches}
use asio_experiments.Latch.Threads.{
  Program, returns, locks, locks_both, unlocks, asks, sets, asserts, Job, fault, act, System, Run,
}
use asio_experiments.Latch.Threads.Owned.{
  Owner, holds, one_if, names, wants_of, KeepsRules, Distinct2,
}
use asio_experiments.Latch.Threads.Actions.{Comes, act-Comes}
use asio_experiments.Latch.Threads.Invariant.{Inv-Knows, alone, Run-Inv}

-- The next action reads or writes `transferred_` of the latch `p`.
abbrev pub touches : Program → ℕ → Bool
touches (returns b) p = false
touches (locks q k) p = false
touches (locks_both q r k) p = false
touches (unlocks q k) p = false
touches (asks q k) p = q == p
touches (sets q k) p = q == p
touches (asserts c k) p = false

-- Only the owner of a latch touches it.
touches-held :
    (j : Job) (k : Program) (o : Owner) (p : ℕ)
    → KeepsRules j k o
    → touches k p ≡ true
    → (b : Bool) × (o.held p ≡ some b)
touches-held j (asks q k) o p (b, e, r) h = (b, ground (arith, e))
touches-held j (sets q k) o p (e, r) h = (false, ground (arith, e))
touches-held j (returns b) o p r h = absurd cc
touches-held j (locks q k) o p r h = absurd cc
touches-held j (locks_both q q' k) o p r h = absurd cc
touches-held j (unlocks q k) o p r h = absurd cc
touches-held j (asserts c k) o p r h = absurd cc

module _ {n : ℕ} {job : ℕ → Job} {l : Latches} {s : System} {m : ℕ}
    (distinct : (i : ℕ) → i < n → Distinct2 (job i)) (r : Run n job l s m) where
  -- However threads on the same latches are scheduled, if no job names one latch twice, none fails an
  -- assertion, calls through a null pointer or unlocks a mutex that is not locked.
  pub faultless : (i : ℕ) → i < n → act (s.thread i) s.latches ≢ fault
  faultless i lt e =
      let v = Run-Inv distinct r in
      subst (Comes (job i) s.latches (v.owner i)) e
        (act-Comes (job i) s.latches (v.owner i) (Inv-Knows v i lt) (s.thread i) (v.rules i lt))

  -- The rules of a thread that has returned.
  at_end :
      (i : ℕ) (b : Bool)
      → i < n
      → s.thread i ≡ returns b
      → let o = (Run-Inv distinct r).owner i in KeepsRules (job i) (returns b) o
  at_end i b lt e =
      let v = Run-Inv distinct r in subst (λ k. KeepsRules (job i) k (v.owner i)) e (v.rules i lt)

  -- In every state that the threads come to, a thread that has returned has committed exactly if that
  -- was its choice (which it is of every atomic read), or it has not committed and a latch of its own
  -- is transferred.
  pub answered :
      (i : ℕ) (b : Bool)
      → i < n
      → s.thread i ≡ returns b
      → (b ≡ wants_of (job i))
        ⊎ ((b ≡ false) × (p : ℕ) × ((s.latches p).transferred ≡ true) × (names (job i) p ≡ true))
  answered i b lt e =
      let (h, w, j) = at_end i b lt e in
      elim j [
        | inl q ↦ inl q
        | inr (q, p, c, there) ↦ inr (q, p, (Run-Inv distinct r).found i p lt c, there)
      ]

  -- When all threads have returned, every mutex is free; and the number of threads that name a latch
  -- and have committed, with one for a latch that was transferred at the start, is one if the latch
  -- is transferred and none if it is not. So of two threads that share a latch at most one commits.
  pub settled :
      (reply : ℕ → Bool)
      → ((i : ℕ) → i < n → s.thread i ≡ returns (reply i))
      → (p : ℕ)
      → ((s.latches p).locked ≡ false)
        × (one_if (l p).transferred + total n (λ i. one_if (reply i && names (job i) p))
            ≡ one_if (s.latches p).transferred)
  settled reply over p =
      let v = Run-Inv distinct r in
      let free : total n (λ i. holds ((v.owner i).held p)) ≡ 0 = omega (
        arith,
        total-none n,
        total-same n (λ i. holds ((v.owner i).held p)) (λ i. 0)
            (λ i lt. let (h, w, j) = at_end i (reply i) lt (over i lt) in rw (h p) refl),
      ) in
      (
        ground (arith, v.mutexes p, free),
        omega (
          arith,
          v.writes p,
          total-same n (λ i. (v.owner i).wrote p) (λ i. one_if (reply i && names (job i) p))
              (λ i lt. let (h, w, j) = at_end i (reply i) lt (over i lt) in w p),
        ),
      )

  -- There is no data race: whenever a thread is about to read or write the flag of a latch, the
  -- mutex of the latch is locked, and no other thread is about to read or write the same flag.
  pub race_free :
      (i j p : ℕ)
      → i < n
      → j < n
      → j ≢ i
      → touches (s.thread i) p ≡ true
      → ((s.latches p).locked ≡ true) × (touches (s.thread j) p ≡ false)
  race_free i j p li lj ne h =
      let v = Run-Inv distinct r in
      let (a, x) = touches-held (job i) (s.thread i) (v.owner i) p (v.rules i li) h in
      (
        (Inv-Knows v i li).locked p a x,
        elim (Bool-cases (touches (s.thread j) p)) [
          | inr e ↦ e
          | inl e ↦
              let (b, y) = touches-held (job j) (s.thread j) (v.owner j) p (v.rules j lj) e in
              absurd (alone v i j p a b li lj ne x y)
        ],
      )
