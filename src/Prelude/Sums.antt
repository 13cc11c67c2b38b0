-- ===== src/Prelude/Sums.antt =====
-- Families over the natural numbers: update at one index, and sums over the first `n`.
use Prim.Native.Nat.{ℕ, zero, suc, ◌+◌, ◌≤◌, ◌<◌}
use mathlib.Core.Path.{◌≡◌, refl, ap}
use mathlib.Core.Logic.{◌≢◌, inl, inr}
use native.Mathlib.Omega.{arith}
use asio_experiments.Prelude.Tests.{◌==◌, if◌then◌else◌, Bool-cases}

abbrev pub update {ℓ} : {A : Type ℓ} → (ℕ → A) → ℕ → A → ℕ → A
update f i a j = if j == i then a else f j

pub update-here {ℓ} : {A : Type ℓ} (f : ℕ → A) (i : ℕ) (a : A) → update f i a i ≡ a
update-here f i a = ground arith

pub update-apart {ℓ} :
    {A : Type ℓ} (f : ℕ → A) (i : ℕ) (a : A) (j : ℕ) → j ≢ i → update f i a j ≡ f j
update-apart f i a j ne = ground arith

abbrev pub total : ℕ → (ℕ → ℕ) → ℕ
total zero f = 0
total (suc n) f = total n f + f n

pub total-same : (n : ℕ) (f g : ℕ → ℕ) → ((i : ℕ) → i < n → f i ≡ g i) → total n f ≡ total n g
total-same zero f g h = refl
total-same (suc n) f g h =
    omega (arith, h n (omega arith), total-same n f g (λ i lt. h i (omega arith)))

pub total-none : (n : ℕ) → total n (λ i. 0) ≡ 0
total-none zero = refl
total-none (suc n) = omega (arith, total-none n)

-- The two families differ only at `i`.
pub total-change :
    (n i : ℕ) (f g : ℕ → ℕ)
    → i < n
    → ((j : ℕ) → j ≢ i → g j ≡ f j)
    → total n g + f i ≡ total n f + g i
total-change zero i f g lt h = absurd (omega arith)
total-change (suc n) i f g lt h = elim (Bool-cases (n == i)) [
  | inl e ↦
      let last : n ≡ i = ground arith in
      let below = total-same n g f (λ j k. h j (λ q. omega arith)) in
      omega (arith, below, ap f last, ap g last)
  | inr ne ↦ omega (arith, total-change n i f g (ground arith) h, h n (ground arith))
]

pub total-bound : (n i : ℕ) (f : ℕ → ℕ) → i < n → f i ≤ total n f
total-bound zero i f lt = absurd (omega arith)
total-bound (suc n) i f lt = elim (Bool-cases (n == i)) [
  | inl e ↦ let last : n ≡ i = ground arith in omega (arith, ap f last)
  | inr ne ↦ omega (arith, total-bound n i f (ground arith))
]

pub total-bound2 : (n i j : ℕ) (f : ℕ → ℕ) → i < n → j < n → j ≢ i → f i + f j ≤ total n f
total-bound2 zero i j f li lj ne = absurd (omega arith)
total-bound2 (suc n) i j f li lj ne = elim (Bool-cases (n == i)) [
  | inl e ↦
      let last : n ≡ i = ground arith in
      omega (arith, ap f last, total-bound n j f (ground (arith, ne)))
  | inr e ↦ elim (Bool-cases (n == j)) [
    | inl e' ↦
        let last : n ≡ j = ground arith in
        omega (arith, ap f last, total-bound n i f (ground arith))
    | inr e' ↦ omega (arith, total-bound2 n i j f (ground arith) (ground arith) ne)
  ]
]
