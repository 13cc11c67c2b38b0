-- ===== src/Latch/Threads/Progress.antt =====
-- Threads on the same latches do not wait for one another for ever.
use asio_experiments.Prelude.{
  ℕ, zero, suc, ◌≤◌, ◌<◌, ◌≡◌, ◌≢◌, ◌⊎◌, inl, inr, refl, ap, Bool, true, false, ◌&&◌, Bool-cases,
  Option, none, some, arith,
}
use asio_experiments.Prelude.Sums.{total}
use asio_experiments.Latch.{Latches}
use asio_experiments.Latch.Threads.{
  Program, returns, locks, locks_both, unlocks, asks, sets, asserts, Job, Outcome, moves, act,
  System, Run,
}
use asio_experiments.Latch.Threads.Owned.{Owner, holds, KeepsRules, Distinct2}
use asio_experiments.Latch.Threads.Actions.{Knows}
use asio_experiments.Latch.Threads.Budget.{most, Run-bound}
use asio_experiments.Latch.Threads.Invariant.{Inv, Inv-Knows, Run-Inv}

-- Has a thread returned, and have the first `n`?
abbrev pub is_over : Program → Bool
is_over (returns b) = true
is_over other = false

abbrev pub all_over : ℕ → (ℕ → Program) → Bool
all_over zero thread = true
all_over (suc n) thread = is_over (thread n) && all_over n thread

abbrev pub Moves : Outcome → Type 0
Moves o = (s : Latches) × (k : Program) × (o ≡ moves s k)

-- Whoever holds a latch can act.
holder-Moves :
    (j : Job) (s : Latches) (o : Owner) (k : Program) (p : ℕ) (b : Bool)
    → Knows s o
    → KeepsRules j k o
    → o.held p ≡ some b
    → Moves (act k s)
unfolding act
holder-Moves j s o (returns a) p b v (h, w, r) e = absurd (ground (arith, h p))
holder-Moves j s o (locks q k) p b v (h, r) e = absurd (ground (arith, h p))
holder-Moves j s o (locks_both q q' k) p b v (d, h, r) e = absurd (ground (arith, h p))
holder-Moves j s o (unlocks q k) p b v (a, h, r) e = rw (v.locked q a h) (_, _, refl)
holder-Moves j s o (asks q k) p b v r e = (_, _, refl)
holder-Moves j s o (sets q k) p b v r e = (_, _, refl)
holder-Moves j s o (asserts c k) p b v (h, r) e = rw h (_, _, refl)

-- Whoever has not returned can act, or waits for a latch that is held.
rules-Moves :
    (j : Job) (s : Latches) (o : Owner) (k : Program)
    → Knows s o
    → KeepsRules j k o
    → ((b : Bool) × (k ≡ returns b)) ⊎ (Moves (act k s) ⊎ (p : ℕ) × ((s p).locked ≡ true))
unfolding act
rules-Moves j s o (returns b) v r = inl (b, refl)
rules-Moves j s o (locks p k) v r = elim (Bool-cases (s p).locked) [
  | inl e ↦ inr (inr (p, e))
  | inr e ↦ inr (inl (rw e (_, _, refl)))
]
rules-Moves j s o (locks_both p q k) v r = elim (Bool-cases (s p).locked) [
  | inl e ↦ inr (inr (p, e))
  | inr e ↦ elim (Bool-cases (s q).locked) [
    | inl e' ↦ inr (inr (q, e'))
    | inr e' ↦ inr (inl (rw (e, e') (_, _, refl)))
  ]
]
rules-Moves j s o (unlocks q k) v (a, h, r) = inr (inl (rw (v.locked q a h) (_, _, refl)))
rules-Moves j s o (asks q k) v r = inr (inl (_, _, refl))
rules-Moves j s o (sets q k) v r = inr (inl (_, _, refl))
rules-Moves j s o (asserts c k) v (h, r) = inr (inl (rw h (_, _, refl)))

known_or_not : (h : Option Bool) → ((b : Bool) × (h ≡ some b)) ⊎ (h ≡ none)
known_or_not none = inr refl
known_or_not (some b) = inl (b, refl)

total-owner :
    (n : ℕ) (f : ℕ → Option Bool)
    → total n (λ i. holds (f i)) ≢ 0
    → (i : ℕ) × (i < n) × (b : Bool) × (f i ≡ some b)
total-owner zero f h = absurd (h refl)
total-owner (suc n) f h = elim (known_or_not (f n)) [
  | inl (b, e) ↦ (n, omega arith, b, e)
  | inr e ↦
      let (i, lt, b, q) = total-owner n f (λ z. h (omega (arith, z, ap holds e))) in
      (i, omega (arith, lt), b, q)
]

module _ {n : ℕ} {job : ℕ → Job} {l : Latches} {s : System} (v : Inv n job l s) where
  waiter-Moves :
      (p : ℕ) → (s.latches p).locked ≡ true → (i : ℕ) × (i < n) × Moves (act (s.thread i) s.latches)
  waiter-Moves p e =
      let (i, lt, b, q) =
        total-owner n (λ i. (v.owner i).held p) (λ z. ground (arith, v.mutexes p)) in
      (
        i,
        lt,
        holder-Moves (job i) s.latches (v.owner i) (s.thread i) p b (Inv-Knows v i lt)
            (v.rules i lt) q,
      )

  -- Some thread can act, if any is not done.
  Inv-Moves :
      (k : ℕ)
      → k ≤ n
      → (all_over k s.thread ≡ true) ⊎ (i : ℕ) × (i < n) × Moves (act (s.thread i) s.latches)
  Inv-Moves zero le = inl refl
  Inv-Moves (suc k) le =
      let lt : k < n = omega arith in
      elim (rules-Moves (job k) s.latches (v.owner k) (s.thread k) (Inv-Knows v k lt)
        (v.rules k lt)) [
          | inr (inl can) ↦ inr (k, lt, can)
          | inr (inr (p, e)) ↦ inr (waiter-Moves p e)
          | inl (b, e) ↦ elim (Inv-Moves k (omega arith)) [
            | inr can ↦ inr can
            | inl others ↦ inl (rw (e, others) refl)
          ]
        ]

-- However threads on the same latches are scheduled, if no job names one latch twice, there are at
-- most 8 actions for each transaction on one latch, 15 for each on two, and for each read 8 and 5
-- more for each wait after which it would block; and in every state that they come to, all have
-- returned or one of them can act. So there is no deadlock, and they all return.
pub ends :
    {n : ℕ} {job : ℕ → Job} {l : Latches} {s : System} {m : ℕ}
    → ((i : ℕ) → i < n → Distinct2 (job i))
    → Run n job l s m
    → (m ≤ total n (λ i. most (job i)))
      × ((all_over n s.thread ≡ true) ⊎ (i : ℕ) × (i < n) × Moves (act (s.thread i) s.latches))
ends {n} distinct r = (Run-bound r, Inv-Moves (Run-Inv distinct r) n (omega arith))
