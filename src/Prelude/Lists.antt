-- ===== src/Prelude/Lists.antt =====
-- Lists measured by native numbers, and membership of addresses as a Boolean.
use Prim.Native.Nat.{ℕ, suc, ◌+◌}
use mathlib.Core.Path.{◌≡◌, refl}
use mathlib.Core.Logic.{◌≢◌}
use mathlib.Core.Bool.{Bool, true, false, ◌||◌, or_assoc}
use mathlib.Core.List.{List, [], ◌∷◌, ◌++◌}
use native.Mathlib.Omega.{arith}
use asio_experiments.Prelude.Tests.{◌==◌}

module _ {ℓ} {A : Type ℓ} where
  abbrev pub length : List A → ℕ
  length [] = 0
  length (x ∷ xs) = suc (length xs)

  pub length-append : (xs ys : List A) → length (xs ++ ys) ≡ length xs + length ys
  length-append [] ys = omega arith
  length-append (x ∷ xs) ys = omega (arith, length-append xs ys)

abbrev pub has : ℕ → List ℕ → Bool
has a [] = false
has a (x ∷ xs) = (a == x) || has a xs

pub has-append : (a : ℕ) (xs ys : List ℕ) → has a (xs ++ ys) ≡ (has a xs || has a ys)
has-append a [] ys = refl
has-append a (x ∷ xs) ys = rw (has-append a xs ys, or_assoc)

-- No number stands twice in the list.
abbrev pub Distinct : List ℕ → Type 0
Distinct [] = Unit {0}
Distinct (x ∷ xs) = (has x xs ≡ false) × Distinct xs

pub Distinct-left : (xs ys : List ℕ) → Distinct (xs ++ ys) → Distinct xs
Distinct-left [] ys d = tt
Distinct-left (x ∷ xs) ys d = (ground (arith, has-append x xs ys), Distinct-left xs ys d.1)

pub Distinct-right : (xs ys : List ℕ) → Distinct (xs ++ ys) → Distinct ys
Distinct-right [] ys d = d
Distinct-right (x ∷ xs) ys d = Distinct-right xs ys d.1

pub Distinct-apart :
    (a : ℕ) (xs ys : List ℕ) → Distinct (xs ++ ys) → has a xs ≡ true → has a ys ≡ false
Distinct-apart a [] ys d i = ground arith
Distinct-apart a (x ∷ xs) ys d i =
    ground (arith, has-append x xs ys, has-append a xs ys, Distinct-apart a xs ys d.1)

-- Taking one element out of the middle.
pub Distinct-cut :
    (xs : List ℕ) (x : ℕ) (ys : List ℕ) → Distinct (xs ++ (x ∷ ys)) → Distinct (xs ++ ys)
Distinct-cut [] x ys d = d.1
Distinct-cut (z ∷ xs) x ys d =
    (ground (arith, has-append z xs (x ∷ ys), has-append z xs ys), Distinct-cut xs x ys d.1)

pub Distinct-cut_out :
    (xs : List ℕ) (x : ℕ) (ys : List ℕ) → Distinct (xs ++ (x ∷ ys)) → has x (xs ++ ys) ≡ false
Distinct-cut_out [] x ys d = d.0
Distinct-cut_out (z ∷ xs) x ys d =
    ground (arith, has-append z xs (x ∷ ys), Distinct-cut_out xs x ys d.1)

-- Adding a new element at the end.
pub Distinct-snoc :
    (xs : List ℕ) (x : ℕ) → Distinct xs → has x xs ≡ false → Distinct (xs ++ (x ∷ []))
Distinct-snoc [] x d out = (refl, tt)
Distinct-snoc (z ∷ xs) x d out =
    (ground (arith, has-append z xs (x ∷ [])), Distinct-snoc xs x d.1 (ground arith))

-- Putting a new element in.
pub Distinct-insert :
    (xs : List ℕ) (x : ℕ) (ys : List ℕ)
    → Distinct (xs ++ ys)
    → has x (xs ++ ys) ≡ false
    → Distinct (xs ++ (x ∷ ys))
Distinct-insert [] x ys d out = (out, d)
Distinct-insert (z ∷ xs) x ys d out = (
  ground (arith, has-append z xs (x ∷ ys), has-append z xs ys),
  Distinct-insert xs x ys d.1 (ground arith),
)

pub middle-ne-nil {ℓ} : {A : Type ℓ} (xs : List A) (x : A) (ys : List A) → xs ++ (x ∷ ys) ≢ []
middle-ne-nil [] x ys = λ e. cc
middle-ne-nil (z ∷ xs) x ys = λ e. cc
