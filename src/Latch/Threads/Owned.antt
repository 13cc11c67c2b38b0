-- ===== src/Latch/Threads/Owned.antt =====
-- What a thread owns at each point of its program, and why it keeps to the rules.
use asio_experiments.Prelude.{
  ℕ, ◌≡◌, ◌⊎◌, refl, suc, Bool, true, false, not, ◌||◌, ◌&&◌, Option, none, some, ◌==◌,
  if◌then◌else◌, arith,
}
use asio_experiments.Latch.Single.{wants}
use asio_experiments.Latch.Threads.{
  Program, returns, locks, locks_both, unlocks, asks, sets, asserts, Job, single, double, reading,
  commit, rollback,
}

-- The latches whose mutexes a thread holds, with what it knows of `transferred_`; how often it has
-- set the flag of a latch; and a latch that it has found transferred.
pub record Owner : Type 0 where
  pub held : ℕ → Option Bool
  pub wrote : ℕ → ℕ
  pub closed : Option ℕ

abbrev pub newcomer : Owner
newcomer = record { held = λ q. none; wrote = λ q. 0; closed = none }

abbrev pub hold : ℕ → Option Bool → Owner → Owner
hold p known o = record o { held = λ q. if q == p then known else o.held q }

abbrev pub write : ℕ → Owner → Owner
write p o = record o {
  held = λ q. if q == p then some true else o.held q;
  wrote = λ q. if q == p then suc (o.wrote q) else o.wrote q;
}

abbrev pub find : ℕ → Bool → Owner → Owner
find p true o = record o { closed = some p }
find p false o = o

abbrev pub names : Job → ℕ → Bool
names (single p c) r = r == p
names (double p q c) r = (r == p) || (r == q)
names (reading p n) r = r == p

abbrev pub wants_of : Job → Bool
wants_of (single p c) = wants c
wants_of (double p q c) = wants c
wants_of (reading p n) = true

abbrev pub one_if : Bool → ℕ
one_if true = 1
one_if false = 0

abbrev pub holds : Option Bool → ℕ
holds none = 0
holds (some b) = 1

-- The reply is what the job wants, or it is turned away from a latch of its own that is transferred.
abbrev pub Justified : Job → Bool → Option ℕ → Type 0
Justified j b closed =
    (b ≡ wants_of j) ⊎ ((b ≡ false) × (p : ℕ) × (closed ≡ some p) × (names j p ≡ true))

-- The rest of a thread with the job `j` keeps to the rules, whatever the other threads do: it locks
-- with nothing in its hands, touches only what it holds, sets only flags that are not set, fails no
-- assertion, and returns with nothing held and a reply that says what it has set.
module _ (j : Job) where
  abbrev pub KeepsRules : Program → Owner → Type 0
  KeepsRules (returns b) o =
      ((p : ℕ) → o.held p ≡ none)
      × ((p : ℕ) → o.wrote p ≡ one_if (b && names j p))
      × Justified j b o.closed
  KeepsRules (locks p k) o =
      ((r : ℕ) → o.held r ≡ none) × ((b : Bool) → KeepsRules k (hold p (some b) o))
  KeepsRules (locks_both p q k) o =
      ((p == q) ≡ false)
      × ((r : ℕ) → o.held r ≡ none)
      × ((a b : Bool) → KeepsRules k (hold q (some b) (hold p (some a) o)))
  KeepsRules (unlocks p k) o = (b : Bool) × (o.held p ≡ some b) × KeepsRules k (hold p none o)
  KeepsRules (asks p k) o = (b : Bool) × (o.held p ≡ some b) × KeepsRules (k (not b)) (find p b o)
  KeepsRules (sets p k) o = (o.held p ≡ some false) × KeepsRules k (write p o)
  KeepsRules (asserts c k) o = (c ≡ true) × KeepsRules k o

abbrev pub Distinct2 : Job → Type 0
Distinct2 (single p c) = Unit {0}
Distinct2 (double p q c) = (p == q) ≡ false
Distinct2 (reading p n) = Unit {0}

module _ (j : Job) (p : ℕ) (k : Program) (o : Owner) (h : o.held p ≡ some false) where
  pub commit-KeepsRules : KeepsRules j k (hold p none (write p o)) → KeepsRules j (commit p k) o
  unfolding commit
  commit-KeepsRules rest = (false, h, (refl, (h, (true, ground arith, rest))))

  pub rollback-KeepsRules : KeepsRules j k (hold p none o) → KeepsRules j (rollback p k) o
  unfolding rollback
  rollback-KeepsRules rest = (false, h, (refl, (false, h, rest)))
