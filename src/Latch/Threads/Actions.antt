-- ===== src/Latch/Threads/Actions.antt =====
-- What one action of a thread that keeps to the rules does to the latches and to what it owns.
use asio_experiments.Prelude.{
  ℕ, ◌+◌, ◌≡◌, ◌⊎◌, inl, inr, refl, Bool, true, false, not, Bool-cases, none, some, ◌==◌, arith,
}
use asio_experiments.Latch.{Latches, put}
use asio_experiments.Latch.Threads.{
  Program, returns, locks, locks_both, unlocks, asks, sets, asserts, Job, Outcome, finished,
  blocked, fault, moves, act,
}
use asio_experiments.Latch.Threads.Owned.{Owner, hold, write, find, holds, one_if, KeepsRules}

-- What an owner knows of the latches is true.
pub record Knows (s : Latches) (o : Owner) : Type 0 where
  pub flags : (p : ℕ) (b : Bool) → o.held p ≡ some b → (s p).transferred ≡ b
  pub found : (p : ℕ) → o.closed ≡ some p → (s p).transferred ≡ true
  pub locked : (p : ℕ) (b : Bool) → o.held p ≡ some b → (s p).locked ≡ true

-- From `s` and `o` an action comes to `s'`, `o'` and the rest `k`.
pub record Advances (j : Job) (s : Latches) (o : Owner) (s' : Latches) (k : Program) (o' : Owner)
    : Type 0 where
  pub rules : KeepsRules j k o'
  pub flags : (p : ℕ) (b : Bool) → o'.held p ≡ some b → (s' p).transferred ≡ b
  pub found : (p : ℕ) → o'.closed ≡ some p → (s' p).transferred ≡ true
  -- Only what is held changes, and a flag that is set stays.
  pub own : (p : ℕ) → ((s' p).transferred ≡ (s p).transferred) ⊎ (o.held p ≡ some false)
  pub kept : (p : ℕ) → (s p).transferred ≡ true → (s' p).transferred ≡ true
  pub locks :
      (p : ℕ) → holds (o'.held p) + one_if (s p).locked ≡ holds (o.held p) + one_if (s' p).locked
  pub writes :
      (p : ℕ) → o'.wrote p + one_if (s p).transferred ≡ o.wrote p + one_if (s' p).transferred

-- What comes of an action.
abbrev pub Comes : Job → Latches → Owner → Outcome → Type 0
Comes j s o finished = Unit {0}
Comes j s o blocked = Unit {0}
Comes j s o fault = ⊥
Comes j s o (moves s' k) = (o' : Owner) × Advances j s o s' k o'

module _ (j : Job) (s : Latches) (o : Owner) (v : Knows s o) where
  -- The flag of a latch that is held is read.
  read-Comes :
      (p : ℕ) (k : Program) (b : Bool)
      → o.held p ≡ some b
      → KeepsRules j k (find p b o)
      → Comes j s o (moves s k)
  read-Comes p k true e r = (
    find p true o,
    record {
      rules = r;
      flags = v.flags;
      found = λ q h. ground (arith, v.flags p true e);
      own = λ q. inl refl;
      kept = λ q h. h;
      locks = λ q. refl;
      writes = λ q. refl;
    },
  )
  read-Comes p k false e r = (
    o,
    record {
      rules = r;
      flags = v.flags;
      found = v.found;
      own = λ q. inl refl;
      kept = λ q h. h;
      locks = λ q. refl;
      writes = λ q. refl;
    },
  )

  asks-Comes :
      (p : ℕ) (k : Bool → Program) → KeepsRules j (asks p k) o → Comes j s o (act (asks p k) s)
  unfolding act
  asks-Comes p k (b, e, r) = rw (v.flags p b e) (read-Comes p (k (not b)) b e r)

  sets-Comes : (p : ℕ) (k : Program) → KeepsRules j (sets p k) o → Comes j s o (act (sets p k) s)
  unfolding act put
  sets-Comes p k (e, r) = (
    write p o,
    record {
      rules = r;
      flags = λ q b h. ground (arith, v.flags q b);
      found = λ q h. ground (arith, v.found q);
      own = λ q. elim (Bool-cases (q == p)) [
        | inl e' ↦ inr (ground arith)
        | inr e' ↦ inl (ground arith)
      ];
      kept = λ q h. ground arith;
      locks = λ q. ground arith;
      writes = λ q. ground (arith, v.flags p false);
    },
  )

  unlocked-Comes :
      (p : ℕ) (k : Program) (b : Bool)
      → o.held p ≡ some b
      → KeepsRules j k (hold p none o)
      → Comes j s o (moves (put s p (record (s p) { locked = false })) k)
  unfolding put
  unlocked-Comes p k b e r = (
    hold p none o,
    record {
      rules = r;
      flags = λ q c h. ground (arith, v.flags q c);
      found = λ q h. ground (arith, v.found q);
      own = λ q. inl (ground arith);
      kept = λ q h. ground arith;
      locks = λ q. ground (arith, v.locked p b e);
      writes = λ q. ground arith;
    },
  )

  unlocks-Comes :
      (p : ℕ) (k : Program) → KeepsRules j (unlocks p k) o → Comes j s o (act (unlocks p k) s)
  unfolding act
  unlocks-Comes p k (b, e, r) = rw (v.locked p b e) (unlocked-Comes p k b e r)

  locked-Comes :
      (p : ℕ) (k : Program)
      → (s p).locked ≡ false
      → KeepsRules j (locks p k) o
      → Comes j s o (moves (put s p (record (s p) { locked = true })) k)
  unfolding put
  locked-Comes p k e (h, r) = (
    hold p (some (s p).transferred) o,
    record {
      rules = r (s p).transferred;
      flags = λ q b h'. ground (arith, v.flags q b);
      found = λ q h'. ground (arith, v.found q);
      own = λ q. inl (ground arith);
      kept = λ q h'. ground arith;
      locks = λ q. ground (arith, h p);
      writes = λ q. ground arith;
    },
  )

  locks-Comes : (p : ℕ) (k : Program) → KeepsRules j (locks p k) o → Comes j s o (act (locks p k) s)
  unfolding act
  locks-Comes p k r = elim (Bool-cases (s p).locked) [
    | inl e ↦ rw e tt
    | inr e ↦ rw e (locked-Comes p k e r)
  ]

  both_locked-Comes :
      (p q : ℕ) (k : Program)
      → (s p).locked ≡ false
      → (s q).locked ≡ false
      → KeepsRules j (locks_both p q k) o
      → let s' = put s p (record (s p) { locked = true }) in
        Comes j s o (moves (put s' q (record (s' q) { locked = true })) k)
  unfolding put
  both_locked-Comes p q k e e' (d, h, r) = (
    hold q (some (s q).transferred) (hold p (some (s p).transferred) o),
    record {
      rules = r (s p).transferred (s q).transferred;
      flags = λ a b h'. ground (arith, v.flags a b);
      found = λ a h'. ground (arith, v.found a);
      own = λ a. inl (ground arith);
      kept = λ a h'. ground arith;
      locks = λ a. ground (arith, h p, h q);
      writes = λ a. ground arith;
    },
  )

  locks_both-Comes :
      (p q : ℕ) (k : Program)
      → KeepsRules j (locks_both p q k) o
      → Comes j s o (act (locks_both p q k) s)
  unfolding act
  locks_both-Comes p q k r = elim (Bool-cases (s p).locked) [
    | inl e ↦ rw e tt
    | inr e ↦ elim (Bool-cases (s q).locked) [
      | inl e' ↦ rw (e, e') tt
      | inr e' ↦ rw (e, e') (both_locked-Comes p q k e e' r)
    ]
  ]

  -- It never fails: it is done, it waits, or it moves on by the rules.
  pub act-Comes : (k : Program) → KeepsRules j k o → Comes j s o (act k s)
  unfolding act
  act-Comes (returns b) r = tt
  act-Comes (locks p k) r = locks-Comes p k r
  act-Comes (locks_both p q k) r = locks_both-Comes p q k r
  act-Comes (unlocks p k) r = unlocks-Comes p k r
  act-Comes (asks p k) r = asks-Comes p k r
  act-Comes (sets p k) r = sets-Comes p k r
  act-Comes (asserts c k) (e, r) = rw e (
    o,
    record {
      rules = r;
      flags = v.flags;
      found = v.found;
      own = λ q. inl refl;
      kept = λ q h. h;
      locks = λ q. refl;
      writes = λ q. refl;
    },
  )
