-- ===== src/Latch/Threads/Invariant.antt =====
-- Who owns what, in every state that the threads can come to.
use asio_experiments.Prelude.{
  ℕ, ◌+◌, ◌≤◌, ◌<◌, ◌≡◌, ◌≢◌, inl, inr, refl, ap, subst, Bool, true, false, Bool-cases, Option,
  some, ◌==◌, arith,
}
use asio_experiments.Prelude.Sums.{
  update, update-here, update-apart, total, total-none, total-change, total-bound, total-bound2,
}
use asio_experiments.Latch.{Latches}
use asio_experiments.Latch.Threads.{Program, Job, moves, System, Run, start, action}
use asio_experiments.Latch.Threads.Owned.{Owner, newcomer, holds, one_if, KeepsRules, Distinct2}
use asio_experiments.Latch.Threads.Both.{program-KeepsRules}
use asio_experiments.Latch.Threads.Actions.{Knows, Advances, Comes, act-Comes}

-- The threads keep to the rules, what they know is true, a mutex is locked for one owner, and a
-- flag that was not set at the start is set by one writer.
pub record Inv (n : ℕ) (job : ℕ → Job) (l : Latches) (s : System) : Type 0 where
  pub owner : ℕ → Owner
  pub rules : (i : ℕ) → i < n → KeepsRules (job i) (s.thread i) (owner i)
  pub flags :
      (i p : ℕ) (b : Bool) → i < n → (owner i).held p ≡ some b → (s.latches p).transferred ≡ b
  pub found : (i p : ℕ) → i < n → (owner i).closed ≡ some p → (s.latches p).transferred ≡ true
  pub mutexes : (p : ℕ) → total n (λ i. holds ((owner i).held p)) ≡ one_if (s.latches p).locked
  pub writes :
      (p : ℕ)
      → one_if (l p).transferred + total n (λ i. (owner i).wrote p)
        ≡ one_if (s.latches p).transferred

one_if-le : (b : Bool) → one_if b ≤ 1
one_if-le b = ground arith

holds-some : (h : Option Bool) (b : Bool) → h ≡ some b → holds h ≡ 1
holds-some h b e = rw e refl

locked_if : (b : Bool) → 1 ≤ one_if b → b ≡ true
locked_if b le = ground arith

module _ {n : ℕ} {job : ℕ → Job} {l : Latches} {s : System} (v : Inv n job l s) where
  pub Inv-Knows : (i : ℕ) → i < n → Knows s.latches (v.owner i)
  Inv-Knows i lt = record {
    flags = λ p b. v.flags i p b lt;
    found = λ p. v.found i p lt;
    locked = λ p b h. locked_if (s.latches p).locked (
        omega (
          arith,
          v.mutexes p,
          total-bound n i (λ k. holds ((v.owner k).held p)) lt,
          holds-some ((v.owner i).held p) b h,
        ));
  }

  -- What a thread holds, no other thread holds.
  pub alone :
      (i j p : ℕ) (a b : Bool)
      → i < n
      → j < n
      → j ≢ i
      → (v.owner i).held p ≡ some a
      → (v.owner j).held p ≡ some b
      → ⊥
  alone i j p a b li lj ne h h' = omega (
    arith,
    v.mutexes p,
    one_if-le (s.latches p).locked,
    total-bound2 n i j (λ k. holds ((v.owner k).held p)) li lj ne,
    holds-some ((v.owner i).held p) a h,
    holds-some ((v.owner j).held p) b h',
  )

  module _ (i : ℕ) (lt : i < n) {s' : Latches} {k : Program} {o : Owner}
      (e : Advances (job i) s.latches (v.owner i) s' k o) where
    owner' : ℕ → Owner
    owner' = update v.owner i o

    -- A sum over the owners changes as the owner `i` does.
    total-moved :
        (f : Owner → ℕ)
        → total n (λ j. f (owner' j)) + f (v.owner i) ≡ total n (λ j. f (v.owner j)) + f o
    unfolding owner'
    total-moved f = omega (
      arith,
      total-change n i (λ j. f (v.owner j)) (λ j. f (owner' j)) lt
          (λ j ne. ap f (update-apart v.owner i o j ne)),
      ap f (update-here v.owner i o),
    )

    flags-advanced :
        (j p : ℕ) (b : Bool) → j < n → (owner' j).held p ≡ some b → (s' p).transferred ≡ b
    unfolding owner'
    flags-advanced j p b lj h = elim (Bool-cases (j == i)) [
      | inl q ↦ e.flags p b (ground arith)
      | inr q ↦
          let there : (v.owner j).held p ≡ some b = ground arith in
          elim (e.own p) [
            | inl same ↦ rw same (v.flags j p b lj there)
            | inr mine ↦ absurd (alone i j p false b lt lj (ground arith) mine there)
          ]
    ]

    found-advanced : (j p : ℕ) → j < n → (owner' j).closed ≡ some p → (s' p).transferred ≡ true
    unfolding owner'
    found-advanced j p lj h = elim (Bool-cases (j == i)) [
      | inl q ↦ e.found p (ground arith)
      | inr q ↦ e.kept p (v.found j p lj (ground arith))
    ]

    pub advanced : Inv n job l (record { latches = s'; thread = update s.thread i k })
    unfolding owner'
    advanced = record {
      owner = owner';
      rules = λ j lj. elim (Bool-cases (j == i)) [
        | inl q ↦ let same : j ≡ i = ground arith in rw (q, same) e.rules
        | inr q ↦ rw q (v.rules j lj)
      ];
      flags = flags-advanced;
      found = found-advanced;
      mutexes = λ p. omega (arith, v.mutexes p, e.locks p, total-moved (λ a. holds (a.held p)));
      writes = λ p. omega (arith, v.writes p, e.writes p, total-moved (λ a. a.wrote p));
    }

pub Run-Inv :
    {n : ℕ} {job : ℕ → Job} {l : Latches} {s : System} {m : ℕ}
    → ((i : ℕ) → i < n → Distinct2 (job i))
    → Run n job l s m
    → Inv n job l s
Run-Inv {n} {job} {l} distinct (start free) = record {
  owner = λ i. newcomer;
  rules = λ i lt. program-KeepsRules (job i) (distinct i lt);
  flags = λ i p b lt h. cc;
  found = λ i p lt h. cc;
  mutexes = λ p. rw (free p) (total-none n);
  writes = λ p. omega (arith, total-none n);
}
Run-Inv {n} {job} {l} distinct (action {s} r i lt {l'} {k} e) =
    let v = Run-Inv distinct r in
    let c : Comes (job i) s.latches (v.owner i) (moves l' k) =
      subst (λ a. Comes (job i) s.latches (v.owner i) a) e
        (act-Comes (job i) s.latches (v.owner i) (Inv-Knows v i lt) (s.thread i) (v.rules i lt)) in
    let (o, a) = c in advanced v i lt a
